-- ===== src/Moderation.antt =====
-- apps/moderation: reports, decisions and appeals.
pub mod Cases
pub mod Appeals
pub mod Life
pub mod Verifications
pub mod Backup
