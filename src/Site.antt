-- ===== src/Site.antt =====
-- The whole site: the requests of every app, the admin's actions and the periodic tasks, one after
-- the other on one database.
pub mod Rows
pub mod Parts
pub mod History
pub mod Rules
pub mod Additions
pub mod Writes
pub mod Mails
pub mod Reviewing
pub mod Casework
pub mod Profiles
pub mod Accounts
pub mod Saves
pub mod Calls
pub mod Traffic
pub mod Runs
pub mod Marketplace
pub mod Consistency
pub mod Evolution
