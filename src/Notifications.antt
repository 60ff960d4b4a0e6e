-- ===== src/Notifications.antt =====
-- apps/accounts/notifications.py and tasks.py.
mod Dispatch
pub mod Sending
pub mod Channels
pub mod Settings
unfoldable pub use Dispatch.*
