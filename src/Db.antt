-- ===== src/Db.antt =====
-- The database, and a call that reads and writes it. Django commits each statement by itself here
-- (the settings do not ask for a transaction around a request), so an exception leaves in place
-- what was written before it: the database comes back after a raise too.
use Prim.Native.String.{count as text_length}
use tucano.Prelude.{
  String, ltb, true, false, ℕ, Bool, List, [], ◌∷◌, Option, none, some, suc, ◌⊎◌, inl, inr,
  if◌then◌else◌,
}
use tucano.Models.{
  User, NotificationPreference, PushSubscription, NotificationLog, NotifyTask, ClientProfile,
  ProfessionalProfile, Favorite, ServiceRequest, InterestWindow, Interest, Conversation, Message,
  Block, ServiceConfirmation, Review, Subscription, Boost, ModerationCase, AuditEvent, FeatureFlag,
  Verification, Availability, PortfolioItem,
}

-- The tables that notifications use, with the queue of tasks that were enqueued and not yet run.
pub record Mail : Type 0 where
  pub preferences : List NotificationPreference
  pub push_subscriptions : List PushSubscription
  pub tasks : List NotifyTask
  pub logs : List NotificationLog

-- Every table, and the next primary key that the database will hand out.
pub record Db : Type 0 where
  pub next_pk : ℕ
  pub users : List User
  pub mail : Mail
  pub audit : List AuditEvent
  pub clients : List ClientProfile
  pub professionals : List ProfessionalProfile
  pub favorites : List Favorite
  pub requests : List ServiceRequest
  pub interests : List Interest
  pub conversations : List Conversation
  pub messages : List Message
  pub blocks : List Block
  pub confirmations : List ServiceConfirmation
  pub reviews : List Review
  pub subscriptions : List Subscription
  pub boosts : List Boost
  pub cases : List ModerationCase
  pub flags : List FeatureFlag
  pub verifications : List Verification
  pub availabilities : List Availability
  pub portfolio : List PortfolioItem

-- The messages that a `ValidationError` carries.
pub data Fault : Type 0 where
  window_too_long : List InterestWindow → Fault
  no_window recent_duplicate quota_reached invalid_field : Fault
  not_receiving already_interested : Fault
  not_open_for_selection not_selectable not_withdrawable already_closed not_cancellable : Fault
  not_a_party not_legitimate already_reviewed not_the_target already_contested : Fault
  empty_message blocked_sender too_many_messages : Fault
  excluded_category name_taken ends_before_start file_too_large : Fault
  case_not_open case_decided not_the_reported not_decided already_appealed no_appeal : Fault

-- `ValidationError`, `PermissionDenied`, `Http404`, a `RuntimeError`, and the database's
-- `DataError`.
pub data Error : Type 0 where
  validation_error : List Fault → Error
  permission_denied not_found runtime_error data_error : Error

pub data Result {ℓ} (A : Type ℓ) : Type ℓ where
  ok : A → Result A
  err : Error → Result A

abbrev pub is_ok {ℓ} : {A : Type ℓ} → Result A → Bool
is_ok (ok a) = true
is_ok (err e) = false

abbrev pub Action {ℓ} : Type ℓ → Type ℓ
Action A = Db → Result A × Db

module _ {ℓ} {A : Type ℓ} where
  abbrev pub pure : A → Action A
  pure a d = (ok a, d)

  abbrev pub raise : Error → Action A
  raise e d = (err e, d)

  abbrev pub gets : (Db → A) → Action A
  gets f d = (ok (f d), d)

  -- A row that must be there, as for `get_object_or_404`.
  abbrev pub or_404 : Option A → Action A
  or_404 none = raise not_found
  or_404 (some a) = pure a

  -- `try` around a call with `except ValidationError as exc:`: what it raised, or its result.
  abbrev pub attempt : Action A → Action (List Fault ⊎ A)
  attempt m d =
      let (r, d') = m d in
      (
        elim r [
          | ok a ↦ ok (inr a)
          | err e ↦ elim e [ validation_error faults ↦ ok (inl faults) | other ↦ err other ]
        ],
        d',
      )

infixl 5 ◌>>=◌ ◌>>◌
abbrev pub ◌>>=◌ {ℓ κ} : {A : Type ℓ} {B : Type κ} → Action A → (A → Action B) → Action B
◌>>=◌ m f d = let (r, d') = m d in elim r [ ok a ↦ f a d' | err e ↦ (err e, d') ]

abbrev pub ◌>>◌ {κ} : {B : Type κ} → Action (Unit {0}) → Action B → Action B
m >> k = m >>= λ _. k

abbrev pub modify : (Db → Db) → Action (Unit {0})
modify f d = (ok tt, f d)

-- `if condition: raise ValidationError(...)`
abbrev pub refuse_if : Bool → Fault → Action (Unit {0})
refuse_if c fault d = (if c then err (validation_error (fault ∷ [])) else ok tt, d)

-- The key of a new row.
abbrev pub fresh_pk : Action ℕ
fresh_pk d = (ok d.next_pk, record d { next_pk = suc d.next_pk })

-- A text column takes at most this many characters; a longer text is an error of the database.
abbrev pub fits_column : ℕ → String → Action (Unit {0})
fits_column n s = if ltb n (text_length s) then raise data_error else pure tt
