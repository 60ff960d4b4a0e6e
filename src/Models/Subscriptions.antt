-- ===== src/Models/Subscriptions.antt =====
-- apps/subscriptions/models.py.
use tucano.Prelude.{ℕ, Bool, true, false, String, ◌&&◌, leb}

-- `Subscription.Plan`
pub data Plan : Type 0 where
  free premium : Plan

-- `Subscription.Status`
pub data SubscriptionStatus : Type 0 where
  active cancelled past_due : SubscriptionStatus

-- `Subscription`, one for each user.
pub record Subscription : Type 0 where
  pub user : ℕ
  pub plan : Plan
  pub status : SubscriptionStatus
  pub mercadopago_preapproval_id : String

abbrev is_premium_plan : Plan → Bool
is_premium_plan premium = true
is_premium_plan free = false

abbrev is_active_status : SubscriptionStatus → Bool
is_active_status active = true
is_active_status _ = false

-- `Subscription.is_premium`
unfoldable pub is_premium : Subscription → Bool
is_premium s = is_premium_plan s.plan && is_active_status s.status

-- `Boost`
pub record Boost : Type 0 where
  pub professional : ℕ
  pub starts_at : ℕ
  pub ends_at : ℕ

-- `Boost.is_active`
abbrev pub is_active_at : Boost → ℕ → Bool
is_active_at b at = leb b.starts_at at && leb at b.ends_at
