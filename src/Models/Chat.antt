-- ===== src/Models/Chat.antt =====
-- apps/chat/models.py.
use tucano.Prelude.{ℕ, String}

-- `Conversation`, one for each interest.
pub record Conversation : Type 0 where
  pub pk : ℕ
  pub interest : ℕ

-- `Message`
pub record Message : Type 0 where
  pub conversation : ℕ
  pub sender : ℕ
  pub body : String
  pub created_at : ℕ

-- `Block`
pub record Block : Type 0 where
  pub blocker : ℕ
  pub blocked : ℕ
