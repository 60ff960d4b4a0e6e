-- ===== src/Models/Moderation.antt =====
-- apps/moderation/models.py.
use tucano.Prelude.{ℕ, Bool, Option, List, String}
use tucano.Models.Uploads.{Upload}

-- `ModerationCase.Status`
pub data CaseStatus : Type 0 where
  opened under_review decided appealed closed : CaseStatus

-- `ModerationCase.Decision`; `undecided` is the source's `NONE`.
pub data Decision : Type 0 where
  undecided dismissed warning suspension : Decision

-- `ModerationCase.AppealDecision`; a blank column is `none`.
pub data AppealDecision : Type 0 where
  pending approved rejected : AppealDecision

-- `ModerationCase`
pub record ModerationCase : Type 0 where
  pub pk : ℕ
  pub reporter : ℕ
  pub reported_user : ℕ
  pub reason : String
  pub context_repr : String
  pub status : CaseStatus
  pub decision : Decision
  pub decision_notes : String
  pub appeal_reason : String
  pub appeal_decision : Option AppealDecision
  pub decided_at : Option ℕ
  pub appeal_decided_at : Option ℕ

-- The object that an audit row speaks of. The source keeps `str(obj)`, a text for display; the
-- row's key says which object it is.
pub data Subject : Type 0 where
  service_request interest confirmation review subscription moderation_case : ℕ → Subject

-- A value of the `metadata` dictionary.
pub data Meta : Type 0 where
  key : ℕ → Meta
  text : String → Meta
  flag : Bool → Meta

-- `AuditEvent`: `actor` is `none` where the system acts.
pub record AuditEvent : Type 0 where
  pub actor : Option ℕ
  pub event_type : String
  pub object_repr : Subject
  pub metadata : List (String × Meta)

-- `FeatureFlag`
pub record FeatureFlag : Type 0 where
  pub key : String
  pub is_enabled : Bool

-- `Verification.Status`
pub data VerificationStatus : Type 0 where
  pending approved rejected : VerificationStatus

-- `Verification`
pub record Verification : Type 0 where
  pub pk : ℕ
  pub user : ℕ
  pub document : Upload
  pub purpose : String
  pub consent_given_at : ℕ
  pub status : VerificationStatus
  pub reviewed_at : Option ℕ
  pub reviewed_by : Option ℕ
