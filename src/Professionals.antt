-- ===== src/Professionals.antt =====
-- apps/professionals: the rows that are checked when they are saved, and the search.
pub mod Rows
pub mod Desk
pub mod Ownership
pub mod Dashboard
pub mod Soundness
pub mod Seeds
pub mod Categories
pub mod Search
pub mod Ranking
