-- ===== src/Clients.antt =====
-- apps/clients: views.py over the rows of models.py.
pub mod Views
pub mod Laws
pub mod Pages
pub mod Profiles
