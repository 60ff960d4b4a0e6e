-- ===== src/Models/Reviews.antt =====
-- apps/reviews/models.py.
use tucano.Prelude.{ℕ, Bool, true, false, Option, some, String, ◌&&◌}

-- `ServiceConfirmation`: an answer is `none` until that side has given one.
pub record ServiceConfirmation : Type 0 where
  pub pk : ℕ
  pub interest : ℕ
  pub client_confirmed : Option Bool
  pub professional_confirmed : Option Bool
  pub client_responded_at : Option ℕ
  pub professional_responded_at : Option ℕ

-- `Review`
pub record Review : Type 0 where
  pub pk : ℕ
  pub confirmation : ℕ
  pub author : ℕ
  pub target : ℕ
  pub rating : ℕ
  pub comment : String
  pub contested : Bool
  pub contest_reason : String

-- `answer is True`
abbrev pub is_true : Option Bool → Bool
is_true (some true) = true
is_true _ = false

-- `ServiceConfirmation.is_legitimate`
abbrev pub is_legitimate : ServiceConfirmation → Bool
is_legitimate c = is_true c.client_confirmed && is_true c.professional_confirmed

abbrev pub differ : Option Bool → Option Bool → Bool
differ (some true) (some false) = true
differ (some false) (some true) = true
differ _ _ = false

-- `ServiceConfirmation.has_dispute`
abbrev pub has_dispute : ServiceConfirmation → Bool
has_dispute c = differ c.client_confirmed c.professional_confirmed
