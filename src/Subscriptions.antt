-- ===== src/Subscriptions.antt =====
-- apps/subscriptions: plans, the free plan's quota, and the payment gateway.
pub mod Limits
pub mod Gateway
pub mod Premium
