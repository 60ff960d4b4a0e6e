-- ===== src/Tests.antt =====
-- The theorems at concrete databases.
mod Sample
mod Calls
mod Others
mod Edges
mod Preferences
mod Endings
mod Site
mod Routes
mod Desk
mod Pages
