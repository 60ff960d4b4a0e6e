-- ===== src/Models/Requests.antt =====
-- apps/requests/models.py: calls for a service and the interest that professionals show in them.
-- Instants are seconds.
use tucano.Prelude.{ℕ, Bool, true, false, Option, String}
use tucano.Models.Profiles.{ClientProfile, ProfessionalProfile}

-- `ServiceRequest.Status`
pub data RequestStatus : Type 0 where
  draft receiving partially_filled filled expired cancelled completed : RequestStatus

-- `ServiceRequest.InterestWindow`
pub data InterestWindow : Type 0 where
  two_hours five_hours one_day three_days : InterestWindow

-- `WINDOW_DURATIONS`
abbrev pub window_duration : InterestWindow → ℕ
window_duration two_hours = 7200
window_duration five_hours = 18000
window_duration one_day = 86400
window_duration three_days = 259200

-- `ServiceRequest`. A row that is not stored yet has the key 0.
pub record ServiceRequest : Type 0 where
  pub pk : ℕ
  pub client : ClientProfile
  pub category : ℕ
  pub title : String
  pub description : String
  pub positions_count : ℕ
  pub scheduled_start : ℕ
  pub location_label : String
  pub interest_window : InterestWindow
  pub status : RequestStatus
  pub published_at : ℕ
  pub expires_at : Option ℕ
  pub closed_at : Option ℕ
  pub cancel_reason : String

-- `Interest.Status`
pub data InterestStatus : Type 0 where
  applied shortlisted selected not_selected withdrawn expired : InterestStatus

-- `Interest`
pub record Interest : Type 0 where
  pub pk : ℕ
  pub service_request : ℕ
  pub professional : ProfessionalProfile
  pub message : String
  pub status : InterestStatus

-- `status in (OPEN, PARTIALLY_FILLED)`
abbrev pub is_receiving : RequestStatus → Bool
is_receiving receiving = true
is_receiving partially_filled = true
is_receiving _ = false

abbrev pub is_applied : InterestStatus → Bool
is_applied applied = true
is_applied _ = false

abbrev pub is_selected : InterestStatus → Bool
is_selected selected = true
is_selected _ = false
