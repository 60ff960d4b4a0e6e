-- ===== src/Site/Accounts.antt =====
-- Every operation of apps/subscriptions and apps/accounts keeps the history.
use tucano.Prelude.{
  ℕ, ◌≡◌, refl, inl, inr, Option, some, none, String, List, [], ◌∷◌, Bool, true, false, ◌++◌, first,
  exists, exists-append, ◌==◌, if◌then◌else◌, Option-cases, arith,
}
use tucano.Models.{User, Subscription, is_premium, Boost}
use tucano.Subscriptions.Limits.{default_subscription, for_user}
use tucano.Subscriptions.Premium.{is_premium_of, has_premium}
use tucano.Subscriptions.Gateway.{
  MercadoPago, Payload, save_subscription, create_checkout_preapproval, cancel_preapproval,
  apply_notice, handle_webhook, plan_page, subscribe, cancel_subscription, webhook, boost_activate,
}
use tucano.Notifications.Settings.{preferences_update, push_subscribe}
use tucano.Site.Parts.{Part, Table, may_write, Spares}
use tucano.Site.History.{Keeps, Keeps-refl}
use tucano.Site.Mails.{mails}
use tucano.Site.Rules.{Safe, SafeWrite, rules, when-Safe}
use tucano.Site.Writes.{writes, subscriptions-Safe}
use tucano.Site.Additions.{boosts_added-Safe}

-- A row with its defaults is a free one.
free_row :
    (u user : ℕ) (rows : List Subscription)
    → exists (is_premium_of u) (rows ++ (default_subscription user ∷ [])) ≡ true
    → exists (is_premium_of u) rows ≡ true
unfolding is_premium exists
free_row u user rows e =
    ground (arith, exists-append (is_premium_of u) rows (default_subscription user ∷ []))

pub for_user-Safe :
    {may : Table → Bool} (user : ℕ) → may Table.subscriptions ≡ true → Safe may (for_user user)
unfolding for_user
for_user-Safe {may} user own = record {
  at = λ d. elim (Option-cases (first (λ s. s.user == user) d.subscriptions)) [
    | inl e ↦
        let rows = d.subscriptions ++ (default_subscription user ∷ []) in
        let h = Keeps-refl {may = may} d in
        let s : Spares may Table.subscriptions d.subscriptions rows = λ o. absurd (cc) in
        let p : may Table.premium_plans ≡ false
            → (u : ℕ) → has_premium u (record d { subscriptions = rows }) ≡ true
            → has_premium u d ≡ true =
          λ o u g. free_row u user d.subscriptions g in
        let added : Keeps may d (record d { subscriptions = rows }) = search in
        rw (for_user, e) added
    | inr (s, e) ↦ rw (for_user, e) (Keeps-refl d)
  ];
}

save_subscription-Safe :
    (user : ℕ) (f : Subscription → Subscription)
    → SafeWrite (may_write Part.subscriptions) (save_subscription user f)
unfolding save_subscription
save_subscription-Safe user f = subscriptions-Safe _ refl refl

create_checkout_preapproval-Safe :
    (m : MercadoPago) (user : ℕ)
    → Safe (may_write Part.subscriptions) (create_checkout_preapproval m user)
unfolding create_checkout_preapproval
create_checkout_preapproval-Safe m user =
    search (rules, mails, for_user-Safe, save_subscription-Safe) depth 20

cancel_preapproval-Safe :
    (m : MercadoPago) (s : Subscription)
    → Safe (may_write Part.subscriptions) (cancel_preapproval m s)
unfolding cancel_preapproval
cancel_preapproval-Safe m s = search (rules, writes, mails, save_subscription-Safe) depth 20

apply_notice-Safe :
    (p : Payload) (found : Option User) → Safe (may_write Part.subscriptions) (apply_notice p found)
unfolding apply_notice
apply_notice-Safe p none = record { at = Keeps-refl }
apply_notice-Safe p (some u) =
    search (rules, writes, mails, for_user-Safe, save_subscription-Safe) depth 20

handle_webhook-Safe : (p : Payload) → Safe (may_write Part.subscriptions) (handle_webhook p)
unfolding handle_webhook
handle_webhook-Safe p = search (rules, mails, apply_notice-Safe) depth 20

pub plan_page-Safe :
    (m : MercadoPago) (user : ℕ) → Safe (may_write Part.subscriptions) (plan_page m user)
unfolding plan_page
plan_page-Safe m user = search (rules, mails, for_user-Safe) depth 20

pub subscribe-Safe :
    (m : MercadoPago) (user : Option ℕ) → Safe (may_write Part.subscriptions) (subscribe m user)
unfolding subscribe
subscribe-Safe m user = search (rules, mails, create_checkout_preapproval-Safe) depth 20

pub cancel_subscription-Safe :
    (m : MercadoPago) (user : Option ℕ)
    → Safe (may_write Part.subscriptions) (cancel_subscription m user)
unfolding cancel_subscription
cancel_subscription-Safe m user =
    search (rules, mails, for_user-Safe, cancel_preapproval-Safe) depth 20

pub webhook-Safe : (p : Payload) → Safe (may_write Part.subscriptions) (webhook p)
unfolding webhook
webhook-Safe p = search (rules, mails, handle_webhook-Safe) depth 20

boosted-Safe :
    (paying : Bool) (b : Boost)
    → SafeWrite
        (may_write Part.subscriptions)
        (λ d. if paying then record d { boosts = d.boosts ++ (b ∷ []) } else d)
boosted-Safe paying b = when-Safe paying (boosts_added-Safe _ refl)

pub boost_activate-Safe :
    (now later : ℕ) (user : Option ℕ)
    → Safe (may_write Part.subscriptions) (boost_activate now later user)
unfolding boost_activate
boost_activate-Safe now later user = search (rules, mails, for_user-Safe, boosted-Safe) depth 20

pub preferences_update-Safe :
    (user : Option ℕ) (push_enabled whatsapp_enabled email_enabled : Bool)
    → Safe
        (may_write Part.accounts)
        (preferences_update user push_enabled whatsapp_enabled email_enabled)
unfolding preferences_update
preferences_update-Safe user push_enabled whatsapp_enabled email_enabled =
    search (rules, writes, mails) depth 20

pub push_subscribe-Safe :
    (user : Option ℕ) (endpoint : String)
    → Safe (may_write Part.accounts) (push_subscribe user endpoint)
unfolding push_subscribe
push_subscribe-Safe user endpoint = search (rules, writes, mails) depth 20
