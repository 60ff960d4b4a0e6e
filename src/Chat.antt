-- ===== src/Chat.antt =====
-- apps/chat: messages between the two sides of an interest, and blocks.
pub mod Services
pub mod Laws
pub mod Delivery
pub mod History
pub mod Blocking
