-- ===== src/Models/Uploads.antt =====
-- apps/moderation/validators.py. A file that a form receives is its name with its size in bytes.
use tucano.Prelude.{ℕ, ◌*◌, Bool, String, ltb}

pub record Upload : Type 0 where
  pub name : String
  pub size : ℕ

-- `MAX_UPLOAD_SIZE_MB`
abbrev pub max_upload_size_mb : ℕ
max_upload_size_mb = 5

-- The test of `validate_file_size`.
abbrev pub is_too_large : Upload → Bool
is_too_large file = ltb (max_upload_size_mb * 1024 * 1024) file.size
