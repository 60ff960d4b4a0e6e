-- ===== src/RateLimit.antt =====
-- apps/accounts/ratelimit.py and config/middleware.py.
pub mod Backend
pub mod Window
pub mod Posts
