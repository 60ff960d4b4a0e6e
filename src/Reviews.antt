-- ===== src/Reviews.antt =====
-- apps/reviews: both sides say whether the service took place, and then review one another.
pub mod Services
pub mod Sweep
pub mod Laws
pub mod Page
