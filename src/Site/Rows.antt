-- ===== src/Site/Rows.antt =====
-- What a call of the program leaves of a row: the columns that it does not write.
use tucano.Prelude.{◌≡◌, refl, true, arith}
use tucano.Models.{
  User, ClientProfile, ProfessionalProfile, ServiceRequest, Interest, ServiceConfirmation, Review,
  ModerationCase, Verification,
}

-- A row that stays as it was written.
abbrev pub Same {ℓ} : {A : Type ℓ} → A → A → Type ℓ
Same x y = y ≡ x

abbrev pub SameUser : User → User → Type 0
SameUser x y = (y.pk ≡ x.pk) × (y.email ≡ x.email) × (y.phone_number ≡ x.phone_number)

abbrev pub SameClient : ClientProfile → ClientProfile → Type 0
SameClient x y = (y.pk ≡ x.pk) × (y.user ≡ x.user)

abbrev pub SameProfessional : ProfessionalProfile → ProfessionalProfile → Type 0
SameProfessional x y = (y.pk ≡ x.pk) × (y.user ≡ x.user)

-- What was published: all but the status, the closing time and the reason of a cancellation.
pub record SameCall (x y : ServiceRequest) : Type 0 where
  pub pk : y.pk ≡ x.pk
  pub client : y.client ≡ x.client
  pub category : y.category ≡ x.category
  pub title : y.title ≡ x.title
  pub description : y.description ≡ x.description
  pub positions_count : y.positions_count ≡ x.positions_count
  pub scheduled_start : y.scheduled_start ≡ x.scheduled_start
  pub location_label : y.location_label ≡ x.location_label
  pub interest_window : y.interest_window ≡ x.interest_window
  pub published_at : y.published_at ≡ x.published_at
  pub expires_at : y.expires_at ≡ x.expires_at

abbrev pub SameInterest : Interest → Interest → Type 0
SameInterest x y =
    (y.pk ≡ x.pk)
    × (y.service_request ≡ x.service_request)
    × (y.professional ≡ x.professional)
    × (y.message ≡ x.message)

abbrev pub SameConfirmation : ServiceConfirmation → ServiceConfirmation → Type 0
SameConfirmation x y = (y.pk ≡ x.pk) × (y.interest ≡ x.interest)

-- What was written; a review that was contested stays so.
pub record SameReview (x y : Review) : Type 0 where
  pub pk : y.pk ≡ x.pk
  pub confirmation : y.confirmation ≡ x.confirmation
  pub author : y.author ≡ x.author
  pub target : y.target ≡ x.target
  pub rating : y.rating ≡ x.rating
  pub comment : y.comment ≡ x.comment
  pub contested : x.contested ≡ true → y.contested ≡ true

pub record SameCase (x y : ModerationCase) : Type 0 where
  pub pk : y.pk ≡ x.pk
  pub reporter : y.reporter ≡ x.reporter
  pub reported_user : y.reported_user ≡ x.reported_user
  pub reason : y.reason ≡ x.reason
  pub context_repr : y.context_repr ≡ x.context_repr

pub record SameVerification (x y : Verification) : Type 0 where
  pub pk : y.pk ≡ x.pk
  pub user : y.user ≡ x.user
  pub document : y.document ≡ x.document
  pub purpose : y.purpose ≡ x.purpose
  pub consent_given_at : y.consent_given_at ≡ x.consent_given_at

pub Same-refl {ℓ} : {A : Type ℓ} (x : A) → Same x x
Same-refl x = refl

pub SameUser-refl : (x : User) → SameUser x x
SameUser-refl x = (refl, refl, refl)

pub SameClient-refl : (x : ClientProfile) → SameClient x x
SameClient-refl x = (refl, refl)

pub SameProfessional-refl : (x : ProfessionalProfile) → SameProfessional x x
SameProfessional-refl x = (refl, refl)

pub SameInterest-refl : (x : Interest) → SameInterest x x
SameInterest-refl x = (refl, refl, refl, refl)

pub SameConfirmation-refl : (x : ServiceConfirmation) → SameConfirmation x x
SameConfirmation-refl x = (refl, refl)

pub SameCall-refl : (x : ServiceRequest) → SameCall x x
SameCall-refl x = ground arith

pub SameReview-refl : (x : Review) → SameReview x x
SameReview-refl x = ground arith

pub SameCase-refl : (x : ModerationCase) → SameCase x x
SameCase-refl x = ground arith

pub SameVerification-refl : (x : Verification) → SameVerification x x
SameVerification-refl x = ground arith
