-- ===== src/Subscriptions/Limits.antt =====
-- `Subscription.for_user` of apps/subscriptions/models.py, and apps/subscriptions/limits.py.
use tucano.Prelude.{
  ℕ, ◌+◌, Bool, true, false, none, some, [], ◌∷◌, ◌++◌, ◌&&◌, not, ◌==◌, leb, first, count,
  if◌then◌else◌,
}
use tucano.Models.{RequestStatus, draft, ServiceRequest, Subscription, free, active, is_premium}
use tucano.Db.{ok, Action, pure, gets, ◌>>=◌}

-- A row with the defaults of its columns.
abbrev pub default_subscription : ℕ → Subscription
default_subscription user = record {
  user = user;
  plan = free;
  status = active;
  mercadopago_preapproval_id = "";
}

-- `Subscription.for_user`: get or create.
unfoldable pub for_user : ℕ → Action Subscription
for_user user d = elim (first (λ s. s.user == user) d.subscriptions) [
  | some s ↦ (ok s, d)
  | none ↦ (
    ok (default_subscription user),
    record d { subscriptions = d.subscriptions ++ (default_subscription user ∷ []) },
  )
]

abbrev pub free_monthly_request_limit : ℕ
free_monthly_request_limit = 5

abbrev pub is_draft : RequestStatus → Bool
is_draft draft = true
is_draft _ = false

-- The calls that count against the quota: published within thirty days, and no drafts.
abbrev pub counts_for_quota : ℕ → ℕ → ServiceRequest → Bool
counts_for_quota now user r =
    r.client.user == user && leb now (r.published_at + 2592000) && not (is_draft r.status)

-- `can_client_publish_request`, without the text of the refusal.
unfoldable pub can_client_publish_request : ℕ → ℕ → Action Bool
can_client_publish_request now user = do
  subscription ← for_user user
  published ← gets (λ d. count (counts_for_quota now user) d.requests)
  pure (
      if is_premium subscription
      then true
      else if leb free_monthly_request_limit published
      then false
      else true)
