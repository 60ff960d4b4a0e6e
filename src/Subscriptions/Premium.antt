-- ===== src/Subscriptions/Premium.antt =====
-- Who gets the Premium plan: nobody but by a notification that names the user.
use text.Mathlib.Text.{◌==◌ as str_eq}
use tucano.Prelude.{
  ℕ, ◌≡◌, refl, inl, inr, Bool, true, false, Option, none, some, String, [], ◌∷◌, ◌&&◌, ◌||◌, not,
  ◌==◌, ==→eq, arith, is_blank, first, first-test, exists, exists-append, exists-first,
  exists-update, Option-cases,
}
use tucano.Models.{Subscription, is_premium, User, free, past_due, SubscriptionStatus}
use tucano.Db.{Db, ok}
use tucano.Audit.{log_event}
use tucano.Subscriptions.Limits.{default_subscription, for_user}
use tucano.Subscriptions.Gateway.{
  MercadoPago, save_subscription, create_checkout_preapproval, cancel_preapproval, Payload,
  apply_status, with_preapproval, find_user, apply_notice, handle_webhook, subscribe, plan_page,
  cancel_subscription, webhook, boost_activate,
}

-- The user's row is a premium one.
abbrev pub is_premium_of : ℕ → Subscription → Bool
is_premium_of u s = s.user == u && is_premium s

abbrev pub has_premium : ℕ → Db → Bool
has_premium u d = exists (is_premium_of u) d.subscriptions

-- A request that concerns subscriptions.
pub data PlanCall : Type 0 where
  plan_call : ℕ → PlanCall
  subscribe_call : Option ℕ → PlanCall
  cancel_call : Option ℕ → PlanCall
  webhook_call : Payload → PlanCall
  boost_call : ℕ → ℕ → Option ℕ → PlanCall

abbrev names : ℕ → Option ℕ → Bool
names u none = false
names u (some k) = k == u

-- A notification with status "authorized" that names the user.
abbrev pub authorizes : ℕ → PlanCall → Bool
authorizes u (webhook_call p) =
    not (is_blank p.external_reference) && names u p.external_key && str_eq p.status "authorized"
authorizes u _ = false

module _ (m : MercadoPago) where
  unfoldable pub run_plan_call : PlanCall → Db → Db
  run_plan_call (plan_call user) d = (plan_page m user d).1
  run_plan_call (subscribe_call user) d = (subscribe m user d).1
  run_plan_call (cancel_call user) d = (cancel_subscription m user d).1
  run_plan_call (webhook_call p) d = (webhook p d).1
  run_plan_call (boost_call now later user) d = (boost_activate now later user d).1

module _ (u : ℕ) where
  -- A row that `for_user` makes is a free one, and one that it finds was there.
  pub for_user-premium :
      (v : ℕ) (d : Db)
      → (s : Subscription) × ((for_user v d).0 ≡ ok s)
        × (s.user ≡ v)
        × (has_premium u (for_user v d).1 ≡ has_premium u d)
        × (is_premium_of u s ≡ true → has_premium u d ≡ true)
  unfolding for_user is_premium exists
  for_user-premium v d = elim (Option-cases (first (λ s. s.user == v) d.subscriptions)) [
    | inl missing ↦ (
      default_subscription v,
      ground arith,
      refl,
      ground (arith, exists-append (is_premium_of u) d.subscriptions (default_subscription v ∷ [])),
      λ e. absurd (ground arith),
    )
    | inr (s, there) ↦ (
      s,
      ground arith,
      ==→eq _ _ (first-test (λ x. x.user == v) d.subscriptions s there),
      ground arith,
      exists-first (is_premium_of u) (λ x. x.user == v) d.subscriptions s there,
    )
  ]

  save-premium :
      (k : ℕ) (write : Subscription → Subscription) (b : Bool) (d : Db)
      → ((x : Subscription)
          → (x.user == k) ≡ true
          → is_premium_of u (write x) ≡ true
          → (is_premium_of u x || b) ≡ true)
      → has_premium u (save_subscription k write d) ≡ true
      → (has_premium u d || b) ≡ true
  unfolding save_subscription
  save-premium k write b d h e =
      exists-update (is_premium_of u) (λ x. x.user == k) write b h d.subscriptions e

  -- A checkout leaves the subscription past due.
  create-premium :
      (m : MercadoPago) (v : ℕ) (d : Db)
      → has_premium u (create_checkout_preapproval m v d).1 ≡ true
      → has_premium u d ≡ true
  unfolding create_checkout_preapproval is_premium
  create-premium m v d h =
      let (s, found, owner, same, was) = for_user-premium v d in
      let keep =
        save-premium s.user
          (λ x. record x { mercadopago_preapproval_id = (m.create v).0; status = past_due }) false
          (for_user v d).1 (λ x here e. absurd (ground arith)) in
      ground arith

  -- A cancelled subscription is a free one.
  cancel-premium :
      (m : MercadoPago) (s : Subscription) (d : Db)
      → has_premium u (cancel_preapproval m s d).1 ≡ true
      → has_premium u d ≡ true
  unfolding cancel_preapproval is_premium log_event
  cancel-premium m s d h =
      let keep =
        save-premium s.user (λ x. record x { plan = free; status = SubscriptionStatus.cancelled })
          false d (λ x here e. absurd (ground arith)) in
      ground arith

  -- Only the status "authorized" makes a row premium.
  apply_status-premium :
      (status id : String) (s : Subscription)
      → is_premium_of u (apply_status status (with_preapproval id s)) ≡ true
      → (is_premium_of u s || (s.user == u && str_eq status "authorized")) ≡ true
  unfolding apply_status is_premium
  apply_status-premium status id s e = ground arith

  notice-premium :
      (p : Payload) (x : User) (d : Db)
      → has_premium u (apply_notice p (some x) d).1 ≡ true
      → (has_premium u d || (x.pk == u && str_eq p.status "authorized")) ≡ true
  unfolding apply_notice log_event
  notice-premium p x d h =
      let (s, found, owner, same, was) = for_user-premium x.pk d in
      let keep =
        save-premium s.user (λ _. apply_status p.status (with_preapproval p.id s))
          (has_premium u d || (x.pk == u && str_eq p.status "authorized")) (for_user x.pk d).1
          (λ y here e. ground (arith, apply_status-premium p.status p.id s e)) in
      ground arith

  find_user-names :
      (k : Option ℕ) (d : Db) (x : User) → find_user k d ≡ some x → names x.pk k ≡ true
  find_user-names none d x e = absurd (cc)
  find_user-names (some k) d x e =
      let key : x.pk ≡ k = ==→eq _ _ (first-test (λ y. y.pk == k) d.users x e) in ground arith

  subscribe-premium :
      (m : MercadoPago) (user : Option ℕ) (d : Db)
      → has_premium u (subscribe m user d).1 ≡ true
      → has_premium u d ≡ true
  unfolding subscribe
  subscribe-premium m none d h = h
  subscribe-premium m (some v) d h = ground (arith, create-premium m v d)

  plan_page-premium :
      (m : MercadoPago) (user : ℕ) (d : Db) → has_premium u (plan_page m user d).1 ≡ has_premium u d
  unfolding plan_page
  plan_page-premium m user d =
      let (s, found, mine, same, kept) = for_user-premium user d in ground (arith, found, same)

  cancel_subscription-premium :
      (m : MercadoPago) (user : Option ℕ) (d : Db)
      → has_premium u (cancel_subscription m user d).1 ≡ true
      → has_premium u d ≡ true
  unfolding cancel_subscription
  cancel_subscription-premium m none d h = h
  cancel_subscription-premium m (some v) d h =
      let (s, found, owner, same, was) = for_user-premium v d in
      ground (arith, cancel-premium m s (for_user v d).1)

  boost_activate-premium :
      (now later : ℕ) (user : Option ℕ) (d : Db)
      → has_premium u (boost_activate now later user d).1 ≡ true
      → has_premium u d ≡ true
  unfolding boost_activate
  boost_activate-premium now later none d h = h
  boost_activate-premium now later (some v) d h =
      elim (Option-cases (first (λ p. p.user == v) d.professionals)) [
        | inl no_profile ↦ ground arith
        | inr (profile, there) ↦
            let (s, found, owner, same, was) = for_user-premium profile.user d in ground arith
      ]

  -- What a notification may do.
  webhook-premium :
      (p : Payload) (d : Db)
      → has_premium u (webhook p d).1 ≡ true
      → (has_premium u d || authorizes u (webhook_call p)) ≡ true
  unfolding webhook handle_webhook apply_notice
  webhook-premium p d h = elim (Option-cases (find_user p.external_key d)) [
    | inl nobody ↦ ground arith
    | inr (x, there) ↦
        let key : names x.pk p.external_key ≡ true = find_user-names p.external_key d x there in
        ground (arith, notice-premium p x d)
  ]

  pub run_plan_call-premium :
      (m : MercadoPago) (c : PlanCall) (d : Db)
      → has_premium u (run_plan_call m c d) ≡ true
      → (has_premium u d || authorizes u c) ≡ true
  unfolding run_plan_call
  run_plan_call-premium m (webhook_call p) d h = webhook-premium p d h
  run_plan_call-premium m (plan_call user) d h = ground (arith, plan_page-premium m user d)
  run_plan_call-premium m (subscribe_call user) d h = ground (arith, subscribe-premium m user d)
  run_plan_call-premium m (cancel_call user) d h =
      ground (arith, cancel_subscription-premium m user d)
  run_plan_call-premium m (boost_call now later user) d h =
      ground (arith, boost_activate-premium now later user d)
