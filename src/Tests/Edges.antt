-- ===== src/Tests/Edges.antt =====
-- The theorems on the limiter, notifications, favourites, profiles, categories and the search, at
-- concrete values, with a cache that keeps the promises of the interface.
use text.Mathlib.Text.{◌==◌ as str_eq}
use text.Mathlib.TextEquality.{eq_iff}
use tucano.Prelude.{
  one_if, ℕ, ◌+◌, ◌≤◌, ◌<◌, ◌≡◌, ◌≢◌, refl, Bool, true, false, not, Option, none, some, String,
  List, [], ◌∷◌, ◌++◌, arith, count, exists, filter, first, ◌==◌, ◌&&◌, ◌⊎◌, inl, inr, length, ltb,
  map, All, if◌then◌else◌, Bool-cases, sym,
}
use tucano.Models.{
  Upload, User, Channel, push, whatsapp, email, NotificationPreference, NotifyTask, Favorite,
}
use tucano.Db.{Db, Mail, ok}
use tucano.Http.{redirect}
use tucano.RateLimit.Backend.{Cache}
use tucano.RateLimit.Posts.{
  Form, portfolio_item, portfolio_form, rows, rate_limit_count, run_posts, run_posts-le,
}
use tucano.Notifications.{preference_for, dispatch_notification}
use tucano.Notifications.Sending.{Providers, refused, finished, notify_user_task}
use tucano.Notifications.Channels.{
  is_enabled, is_wanted, is_attempt, dispatch_notification-tasks, notify_user_task-cases,
}
use tucano.Clients.Views.{favorite_toggle}
use tucano.Clients.Pages.{favorite_list, favorite_ids, favorite_toggle-pages}
use tucano.Professionals.Rows.{ServiceCategory, stored, starts_with, contains}
use tucano.Professionals.Soundness.{Allowed, Apart}
use tucano.Professionals.Seeds.{
  CategoryCall, save_call, seed_call, remove_call, initial_categories, seed_categories, is_named,
  run_category_calls,
}
use tucano.Professionals.Categories.{Fine, run_category_calls-Apart}
use tucano.Professionals.Search.{Listing, is_compatible, is_boosted, search}
use tucano.Professionals.Ranking.{search-ranked, InOrder, Precedes}
use tucano.Tests.Sample.{client, second_painter, base}

-- What each key holds at each instant.
abbrev Held : Type 0
Held = String → ℕ → Option ℕ

abbrev held_set : String → ℕ → ℕ → ℕ → Held → Held
held_set key value timeout now s k at =
    if str_eq k key then (if ltb at (now + timeout) then some value else none) else s k at

str_eq_refl : (k : String) → str_eq k k ≡ true
str_eq_refl k = (eq_iff k k).1 refl

held_set-get :
    (key : String) (value timeout now at : ℕ) (s : Held)
    → now ≤ at
    → at < now + timeout
    → held_set key value timeout now s key at ≡ some value
held_set-get key value timeout now at s le lt = ground (arith, str_eq_refl key)

held_set-expired :
    (key : String) (value timeout now at : ℕ) (s : Held)
    → now + timeout ≤ at
    → held_set key value timeout now s key at ≡ none
held_set-expired key value timeout now at s le = ground (arith, str_eq_refl key)

held_set-other :
    (key other : String) (value timeout now at : ℕ) (s : Held)
    → key ≢ other
    → held_set key value timeout now s other at ≡ s other at
held_set-other key other value timeout now at s ne = elim (Bool-cases (str_eq other key)) [
  | inl same ↦ absurd (ne (sym ((eq_iff other key).0 same)))
  | inr apart ↦ ground arith
]

abbrev held : Cache
held = record {
  Store = Held;
  get = λ key at s. s key at;
  set = held_set;
  get-set = held_set-get;
  get-set_expired = held_set-expired;
  get-set_other = held_set-other;
}

abbrev str : ℕ → String
str k = "7"

abbrev every_image : Upload → Bool
every_image file = true

abbrev photo_posts : List (ℕ × Form portfolio_item)
photo_posts =
    (10, portfolio_form (record { name = "a.jpg"; size = 10 }) "")
    ∷ (69, portfolio_form (record { name = "b.jpg"; size = 10 }) "")
    ∷ []

run_posts-le_example :
    rows portfolio_item
      (run_posts held str every_image portfolio_item 2 photo_posts ((λ k at. none), base)).1
    ≤ rows portfolio_item base + rate_limit_count portfolio_item
run_posts-le_example =
    run_posts-le held str every_image portfolio_item 2 10 photo_posts (λ k at. none) base
      (ground arith, ground arith, (ground arith, ground arith, tt))

abbrev quiet : NotificationPreference
quiet = record { user = 1; push_enabled = true; whatsapp_enabled = true; email_enabled = false }

abbrev mail : Mail
mail = record { preferences = quiet ∷ []; push_subscriptions = []; tasks = []; logs = [] }

abbrev told : Channel → NotifyTask
told c = record { user = 1; channel = c; event_type = "e"; title = "t"; body = "b" }

dispatch_notification-tasks_example :
    ((dispatch_notification 1 "e" "t" "b" true mail).tasks
      ≡ mail.tasks
        ++ map told
            (filter (is_wanted true (preference_for 1 mail).0) (push ∷ whatsapp ∷ email ∷ [])))
    × ((dispatch_notification 1 "e" "t" "b" true mail).logs ≡ mail.logs)
    × ((dispatch_notification 1 "e" "t" "b" true mail).preferences
        ≡ (preference_for 1 mail).1.preferences)
dispatch_notification-tasks_example = dispatch_notification-tasks 1 "e" "t" "b" true mail

abbrev providers : Providers
providers = record {
  vapid_configured = true;
  twilio_configured = true;
  send_mail = λ subject body to. true;
  webpush = λ s title body. refused;
  twilio = λ phone body. true;
}

notify_user_task-cases_example :
    (first (λ u. u.pk == 1) base.users ≡ none)
      × (notify_user_task providers base.users (told email) mail ≡ finished [] mail)
    ⊎ (u : User) × (first (λ x. x.pk == 1) base.users ≡ some u)
      × (is_enabled email (preference_for u.pk mail).0 ≡ false
          → (notify_user_task providers base.users (told email) mail).calls ≡ [])
      × (count (is_attempt u.pk) (notify_user_task providers base.users (told email) mail).mail.logs
            + one_if (notify_user_task providers base.users (told email) mail).is_broken
          ≡ count (is_attempt u.pk) mail.logs
            + length (notify_user_task providers base.users (told email) mail).calls)
notify_user_task-cases_example = notify_user_task-cases providers base.users (told email) mail

abbrev favorites : List Favorite
favorites = record { client = 10; professional = 21 } ∷ []

abbrev liked : Db
liked = record base { favorites = favorites }

favorite_toggle-pages_example :
    let d' = (favorite_toggle (some 1) 21 liked).1 in
    let shown = λ (e : Db). exists (λ f. f.professional == 21) (favorite_list 10 e) in
    ((favorite_toggle (some 1) 21 liked).0 ≡ ok redirect)
    × (shown d' ≡ not (shown liked))
    × (favorite_ids (some 1) d' ≡ some (map (λ f. f.professional) (favorite_list 10 d')))
    × ((other : ℕ) → 10 ≢ other → favorite_list other d' ≡ favorite_list other liked)
unfolding first
favorite_toggle-pages_example = favorite_toggle-pages 1 client second_painter liked refl refl

abbrev painting : ServiceCategory
painting = record { name = "pintura"; slug = ""; is_active = true }

abbrev cleaning : ServiceCategory
cleaning = record { name = "limpeza"; slug = "limpeza"; is_active = true }

abbrev same : String → String
same s = s

cleaning-Allowed : Allowed same (cleaning ∷ [])
unfolding contains starts_with exists
cleaning-Allowed = ((refl, refl), tt)

initial-Fine : Fine same same initial_categories
unfolding contains starts_with exists
initial-Fine = ground arith

-- The migration runs, a category is added, and the migration runs again.
abbrev category_calls : List CategoryCall
category_calls = seed_call ∷ save_call painting ∷ seed_call ∷ remove_call ∷ []

run_category_calls-Apart_example :
    let result = run_category_calls same same category_calls (cleaning ∷ []) in
    Allowed same result
    × Apart result
    × ((after : List ServiceCategory)
        → seed_categories same result ≡ stored after
        → All (λ n. exists (is_named n) after ≡ true) initial_categories
          × (seed_categories same after ≡ stored after))
run_category_calls-Apart_example =
    run_category_calls-Apart same same category_calls (cleaning ∷ []) initial-Fine cleaning-Allowed
      (tt, tt)

abbrev listing : ℕ → Listing
listing k = record { pk = k; category_slug = some "pintura"; is_located = true; created_at = k }

abbrev boosted : Db
boosted = record base { boosts = record { professional = 21; starts_at = 0; ends_at = 99 } ∷ [] }

abbrev listings : List Listing
listings = listing 22 ∷ listing 21 ∷ []

search-ranked_example :
    All (λ l. is_compatible "pintura" l ≡ true) (search "pintura" none 50 boosted listings)
    × ((q : Listing → Bool)
        → count q (search "pintura" none 50 boosted listings)
          ≡ count (λ l. is_compatible "pintura" l && q l) listings)
    × InOrder (Precedes (is_boosted 50 boosted) none) (search "pintura" none 50 boosted listings)
search-ranked_example = search-ranked "pintura" none 50 boosted listings
