-- ===== src/RateLimit/Posts.antt =====
-- The views that stand behind `RateLimitMixin` and write a row: `PortfolioItemCreateView`
-- (apps/professionals/views.py), `VerificationRequestCreateView` and `ReportUserCreateView`
-- (apps/moderation/views.py). How a key is formatted is a parameter.
use Prim.Native.String.{count as text_length}
use tucano.Prelude.{
  ltb, ℕ, suc, ◌+◌, ◌≤◌, ◌≡◌, inl, inr, refl, sym, ap, subst, Bool, true, not, some, String, List,
  [], ◌∷◌, ◌==◌, ◌+++◌, length, length-append, map, filter, first, arith, Bool-cases, Option-cases,
  if◌then◌else◌,
}
use tucano.Models.{ProfessionalProfile, Upload}
use tucano.Db.{Db, Result, err, permission_denied, Action}
use tucano.Http.{Response}
use tucano.Audit.{log_event}
use tucano.Moderation.Cases.{open_case, report_user}
use tucano.Moderation.Verifications.{verification_request, verification_request-cases}
use tucano.Professionals.Desk.{portfolio_create}
use tucano.Professionals.Ownership.{
  show_call, run_desk_call, run_desk_call-Acts, DeskStep, opens, closes, shows, hides,
}
use tucano.RateLimit.Backend.{Cache, dispatch, enforce_rate_limit, passed}
use tucano.RateLimit.Window.{Within, passed-le}

pub data LimitedView : Type 0 where
  portfolio_item verification report : LimitedView

-- `self.__class__.__name__`
abbrev pub view_class : LimitedView → String
view_class portfolio_item = "PortfolioItemCreateView"
view_class verification = "VerificationRequestCreateView"
view_class report = "ReportUserCreateView"

-- `rate_limit_count`; `rate_limit_window` is an hour for each.
abbrev pub rate_limit_count : LimitedView → ℕ
rate_limit_count portfolio_item = 20
rate_limit_count verification = 5
rate_limit_count report = 10

abbrev pub rate_limit_window : ℕ
rate_limit_window = 3600

-- What a view is sent.
pub data Form : LimitedView → Type 0 where
  portfolio_form : Upload → String → Form portfolio_item
  verification_form : Bool → Upload → Form verification
  report_form : ℕ → String → String → Form report

-- The rows that a view writes.
abbrev pub rows : LimitedView → Db → ℕ
rows portfolio_item d = length d.portfolio
rows verification d = length d.verifications
rows report d = length d.cases

length-filter-le {ℓ} : {A : Type ℓ} (p : A → Bool) (xs : List A) → length (filter p xs) ≤ length xs
unfolding filter
length-filter-le p [] = omega arith
length-filter-le p (x ∷ xs) = ground (arith, length-filter-le p xs)

module _ (cache : Cache) (str : ℕ → String) (is_image : Upload → Bool) where
  unfoldable pub post : {v : LimitedView} → Form v → ℕ → ℕ → Action Response
  post (portfolio_form image caption) now user =
      portfolio_create is_image now (some user) image caption
  post (verification_form consent document) now user =
      verification_request now (some user) consent document
  post (report_form user_id reason context) now user =
      report_user (some user) user_id reason context

  -- `RateLimitMixin.dispatch` of a post of a user who is logged in, with the view behind it.
  unfoldable pub limited_post :
      (v : LimitedView) → ℕ → ℕ → Form v → cache.Store × Db → Result Response × (cache.Store × Db)
  limited_post v user now form (s, d) =
      let (pass, s') =
        dispatch cache true (view_class v) (str user) (rate_limit_count v) rate_limit_window now
          s in
      if pass
      then ((post form now user d).0, (s', (post form now user d).1))
      else (err permission_denied, (s', d))

  unfoldable pub run_posts :
      (v : LimitedView) → ℕ → List (ℕ × Form v) → cache.Store × Db → cache.Store × Db
  run_posts v user [] sd = sd
  run_posts v user ((now, form) ∷ xs) sd = run_posts v user xs (limited_post v user now form sd).1

  step-le :
      (profile : ProfessionalProfile) (d d' : Db)
      → DeskStep is_image profile d d'
      → length d'.portfolio ≤ length d.portfolio + 1
  step-le profile d _ (opens a key mine fits) = omega arith
  step-le profile d _ (closes a found) = omega arith
  step-le profile d _ (shows i key mine fits) = omega (arith, length-append d.portfolio (i ∷ []))
  step-le profile d _ (hides i found) =
      omega (arith, length-filter-le (λ x. not (x.pk == i.pk)) d.portfolio)

  post-le :
      {v : LimitedView} (form : Form v) (now user : ℕ) (d : Db)
      → rows v (post form now user d).1 ≤ rows v d + 1
  unfolding post run_desk_call report_user open_case log_event
  post-le (portfolio_form image caption) now user d =
      elim (run_desk_call-Acts is_image (show_call now (some user) image caption) d) [
        | inl same ↦ omega (arith, ap (λ (e : Db). length e.portfolio) same)
        | inr (u, profile, is_user, found, step) ↦ step-le profile d _ step
      ]
  post-le (verification_form consent document) now user d =
      elim (verification_request-cases now (some user) consent document d) [
        | inl same ↦ omega (arith, ap length same)
        | inr (w, fine, added) ↦
            omega (arith, ap length added, length-append d.verifications (w ∷ []))
      ]
  post-le (report_form user_id reason context) now user d =
      elim (Option-cases (first (λ r. r.pk == user_id) d.users)) [
        | inl nobody ↦ rw nobody (omega arith)
        | inr (reported, found) ↦ elim (Bool-cases (ltb 255 (text_length context))) [
          | inl long ↦ rw (found, long) (omega arith)
          | inr short ↦ rw (found, short) (omega (arith, length-append d.cases (_ ∷ [])))
        ]
      ]

  abbrev key : LimitedView → ℕ → String
  key v user = "ratelimit:" +++ view_class v +++ ":" +++ str user

  -- What is left to do after a post.
  run_posts-cons :
      (v : LimitedView) (user now : ℕ) (form : Form v) (xs : List (ℕ × Form v)) (s : cache.Store)
      (d : Db)
      → let o =
          enforce_rate_limit cache (key v user) (rate_limit_count v) rate_limit_window now s in
        run_posts v user ((now, form) ∷ xs) (s, d)
        ≡ run_posts v user xs (o.1, if o.0 then (post form now user d).1 else d)
  unfolding run_posts limited_post dispatch
  run_posts-cons v user now form xs s d =
      elim (Bool-cases
        (enforce_rate_limit cache (key v user) (rate_limit_count v) rate_limit_window now s).0) [
          | inl pass ↦ rw pass refl
          | inr refused ↦ rw refused refl
        ]

  -- No more rows come than attempts pass.
  run_posts-passed :
      (v : LimitedView) (user : ℕ) (xs : List (ℕ × Form v)) (s : cache.Store) (d : Db)
      → rows v (run_posts v user xs (s, d)).1
        ≤ passed cache (key v user) (rate_limit_count v) rate_limit_window (map (λ x. x.0) xs) s
          + rows v d
  unfolding run_posts passed
  run_posts-passed v user [] s d = omega arith
  run_posts-passed v user ((now, form) ∷ xs) s d =
      let o = enforce_rate_limit cache (key v user) (rate_limit_count v) rate_limit_window now s in
      elim (Bool-cases o.0) [
        | inl pass ↦
            let d₁ = (post form now user d).1 in
            let rest = run_posts-passed v user xs o.1 d₁ in
            let one = post-le form now user d in
            let left =
              subst
                (λ n.
                  n
                  ≤ suc (
                      passed cache (key v user) (rate_limit_count v) rate_limit_window
                        (map (λ x. x.0) xs) o.1)
                    + rows v d)
                (sym (
                  ap (λ (e : cache.Store × Db). rows v e.1)
                    (run_posts-cons v user now form xs s d)))
                (rw pass (omega (arith, rest, one))) in
            rw pass left
        | inr refused ↦
            let left =
              subst
                (λ n.
                  n
                  ≤ passed cache (key v user) (rate_limit_count v) rate_limit_window
                      (map (λ x. x.0) xs) o.1
                    + rows v d)
                (sym (
                  ap (λ (e : cache.Store × Db). rows v e.1)
                    (run_posts-cons v user now form xs s d)))
                (rw refused (run_posts-passed v user xs o.1 d)) in
            rw refused left
      ]

-- Whatever the cache holds: what a user posts to one of the limited views within an hour, in order
-- of time, adds at most as many rows as the view's limit: 20 to the portfolio, 5 verifications, 10
-- reports.
pub run_posts-le :
    (cache : Cache) (str : ℕ → String) (is_image : Upload → Bool) (v : LimitedView) (user from : ℕ)
    (xs : List (ℕ × Form v)) (s : cache.Store) (d : Db)
    → Within from (from + rate_limit_window) (map (λ x. x.0) xs)
    → rows v (run_posts cache str is_image v user xs (s, d)).1 ≤ rows v d + rate_limit_count v
run_posts-le cache str is_image v user from xs s d in_order =
    let limit =
      passed-le cache ("ratelimit:" +++ view_class v +++ ":" +++ str user) (rate_limit_count v)
        rate_limit_window from (map (λ x. x.0) xs) s in_order in
    omega (arith, limit, run_posts-passed cache str is_image v user xs s d)
