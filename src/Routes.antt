-- ===== src/Routes.antt =====
-- The addresses of the site: config/urls.py with the urls.py of each app, and the reversal by name
-- that the views and templates use.
pub mod Numbers
pub mod Patterns
pub mod Urls
pub mod Laws
