-- ===== src/Requests.antt =====
-- apps/requests: calls for a service, from publication to their end.
pub mod Clean
pub mod Services
pub mod Views
pub mod Saves
pub mod Selection
pub mod Capacity
pub mod Applying
pub mod Closing
pub mod Rounds
pub mod Expiry
pub mod Totality
pub mod Publishing
pub mod Announcing
pub mod Access
pub mod Selecting
pub mod Refusals
pub mod Pages
pub mod Offers
