-- ===== src/Market.antt =====
-- The market of calls and interests as a whole: an abstract specification, and that the views and
-- the sweep of apps/requests implement it.
pub mod Spec
pub mod Laws
pub mod Pieces
pub mod Services
pub mod Endings
pub mod Calls
pub mod Sweep
pub mod Runs
