-- ===== src/Models.antt =====
-- The rows of the database, one child for each app's models.py.
mod Uploads
mod Profiles
mod Accounts
mod Requests
mod Chat
mod Reviews
mod Subscriptions
mod Moderation
pub use Uploads.*
pub use Profiles.*
pub use Accounts.*
pub use Requests.*
pub use Chat.*
pub use Reviews.*
unfoldable pub use Subscriptions.*
pub use Moderation.*
