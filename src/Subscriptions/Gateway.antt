-- ===== src/Subscriptions/Gateway.antt =====
-- apps/subscriptions/gateway.py and views.py. Mercado Pago's SDK is not part of the program: what
-- it answers is a parameter.
use text.Mathlib.Text.{◌==◌ as str_eq}
use tucano.Prelude.{
  ℕ, ◌+◌, Bool, true, Option, none, some, String, [], ◌∷◌, ◌++◌, ◌&&◌, ◌||◌, not, ◌==◌, is_blank,
  first, update, if◌then◌else◌,
}
use tucano.Models.{
  User, Subscription, free, premium, SubscriptionStatus, active, past_due, is_premium, Boost,
  Subject, Meta,
}
use tucano.Db.{Db, runtime_error, Action, pure, raise, gets, ◌>>=◌, ◌>>◌, modify}
use tucano.Http.{Response, redirect, login_required, professional_required}
use tucano.Audit.{log_event}
use tucano.Subscriptions.Limits.{for_user}

-- What the settings and the SDK give: the two credentials, and the answer to a new preapproval,
-- its id (blank if the answer has none) and the address to send the user to.
pub record MercadoPago : Type 0 where
  pub access_token : String
  pub preapproval_plan_id : String
  pub create : ℕ → String × Option String

-- `is_configured`
abbrev pub is_configured : MercadoPago → Bool
is_configured m = not (is_blank m.access_token) && not (is_blank m.preapproval_plan_id)

-- A save of a user's subscription: `write` sets the columns that it saves.
unfoldable pub save_subscription : ℕ → (Subscription → Subscription) → Db → Db
save_subscription user write d = record d {
  subscriptions = update (λ s. s.user == user) write d.subscriptions;
}

-- `create_checkout_preapproval`
unfoldable pub create_checkout_preapproval : MercadoPago → ℕ → Action (Option String)
create_checkout_preapproval m user = if is_configured m then checkout else raise runtime_error
  where
    checkout : Action (Option String)
    checkout = do
      subscription ← for_user user
      modify (
          save_subscription subscription.user
            (λ s. record s { mercadopago_preapproval_id = (m.create user).0; status = past_due }))
      pure (m.create user).1

-- `cancel_preapproval`, with the id that Mercado Pago is told to cancel; its failure is ignored.
unfoldable pub cancel_preapproval : MercadoPago → Subscription → Action (Option String)
cancel_preapproval m s = do
  let told =
      if not (is_blank s.mercadopago_preapproval_id) && is_configured m
      then some s.mercadopago_preapproval_id
      else none
  modify (
      save_subscription s.user
        (λ x. record x { plan = free; status = SubscriptionStatus.cancelled }))
  modify (log_event (some s.user) "subscription.cancelled" (Subject.subscription s.user) [])
  pure told

-- The fields of a notification that `handle_webhook` reads; a missing one is blank. The reference
-- is a user's key in text, and `none` where it is no number.
pub record Payload : Type 0 where
  pub external_reference : String
  pub external_key : Option ℕ
  pub status : String
  pub id : String

-- The plan and the status that the notification's `status` calls for.
unfoldable pub apply_status : String → Subscription → Subscription
apply_status status s =
    if str_eq status "authorized"
    then record s { plan = premium; status = active }
    else if str_eq status "cancelled" || str_eq status "paused"
    then record s { plan = free; status = SubscriptionStatus.cancelled }
    else s

abbrev pub with_preapproval : String → Subscription → Subscription
with_preapproval id s = if is_blank id then s else record s { mercadopago_preapproval_id = id }

-- `User.objects.get(pk=external_reference)`; `none` where that raises.
abbrev pub find_user : Option ℕ → Db → Option User
find_user none d = none
find_user (some k) d = first (λ u. u.pk == k) d.users

-- What `handle_webhook` does once it knows the user.
unfoldable pub apply_notice : Payload → Option User → Action (Option Subscription)
apply_notice p none = pure none
apply_notice p (some u) = do
  subscription ← for_user u.pk
  let s = apply_status p.status (with_preapproval p.id subscription)
  modify (save_subscription subscription.user (λ _. s))
  modify (
      log_event none "subscription.webhook_processed" (Subject.subscription s.user)
        (("status", Meta.text p.status) ∷ []))
  pure (some s)

-- `handle_webhook`
unfoldable pub handle_webhook : Payload → Action (Option Subscription)
handle_webhook p =
    if is_blank p.external_reference
    then pure none
    else (gets (find_user p.external_key) >>= apply_notice p)

-- `FeatureFlag.is_active`
unfoldable pub flag_active : String → Bool → Db → Bool
flag_active key default d = elim (first (λ f. str_eq f.key key) d.flags) [
  | some f ↦ f.is_enabled
  | none ↦ default
]

-- The context of `PlanView`, for a user who is logged in: looking at the plan makes the row.
unfoldable pub plan_page : MercadoPago → ℕ → Action (Subscription × Bool)
plan_page m user = do subscription ← for_user user; pure (subscription, is_configured m)

-- `SubscribeView.post`, behind its rate limit.
unfoldable pub subscribe : MercadoPago → Option ℕ → Action Response
subscribe m user = login_required user λ u. do
  open_for_signup ← gets (flag_active "premium_signups_enabled" true)
  (if open_for_signup && is_configured m
      then (create_checkout_preapproval m u >>= λ _. pure redirect)
      else pure redirect)

-- `CancelSubscriptionView.post`, behind its rate limit.
unfoldable pub cancel_subscription : MercadoPago → Option ℕ → Action Response
cancel_subscription m user =
    login_required user
      λ u. do subscription ← for_user u; told ← cancel_preapproval m subscription; pure redirect

-- `MercadoPagoWebhookView.post` on a payload that parses: nothing else is asked of the sender.
unfoldable pub webhook : Payload → Action Response
webhook p = do outcome ← handle_webhook p; pure redirect

-- `BoostActivateView.post`; the clock is read twice.
unfoldable pub boost_activate : ℕ → ℕ → Option ℕ → Action Response
boost_activate now later user = professional_required user λ profile. do
  subscription ← for_user profile.user
  modify (λ d.
      let boost : Boost = record {
        professional = profile.pk;
        starts_at = now;
        ends_at = later + 604800;
      } in
      if is_premium subscription then record d { boosts = d.boosts ++ (boost ∷ []) } else d)
  pure redirect
