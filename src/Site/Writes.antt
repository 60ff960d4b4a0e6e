-- ===== src/Site/Writes.antt =====
-- What the other writes of one table do to the history: they write columns that it does not fix.
use tucano.Prelude.{ℕ, ◌≡◌, true, Bool, false, Option, String, List, update, All-of, Grows-update}
use tucano.Models.{
  User, Subject, Meta, Review, ServiceConfirmation, ServiceRequest, Interest, ModerationCase,
  Verification, ProfessionalProfile, Subscription, Favorite, Availability, PortfolioItem,
}
use tucano.Db.{Db, Mail}
use tucano.Audit.{log_event}
use tucano.Subscriptions.Premium.{has_premium}
use tucano.Site.Parts.{KeepsMail, Table, Spares}
use tucano.Site.History.{Keeps-refl}
use tucano.Site.Rows.{
  SameUser, SameUser-refl, SameProfessional, SameProfessional-refl, SameCall, SameCall-refl,
  SameInterest, SameInterest-refl, SameConfirmation, SameConfirmation-refl, SameReview,
  SameReview-refl, SameCase, SameCase-refl, SameVerification, SameVerification-refl,
}
use tucano.Site.Additions.{
  audit_added-Safe, blocks_added-Safe, boosts_added-Safe, cases_added-Safe, clients_added-Safe,
  fresh_pk-Safe, interests_added-Safe, messages_added-Safe, professionals_added-Safe,
  requests_added-Safe, reviews_added-Safe, verifications_added-Safe,
}
use tucano.Site.Rules.{SafeWrite}

pub users_updated-Safe :
    {may : Table → Bool} (q : User → Bool) (f : User → User)
    → ((x : User) → SameUser x (f x))
    → may Table.users ≡ true
    → SafeWrite may (λ d. record d { users = update q f d.users })
users_updated-Safe {may} q f same own = record {
  at = λ d.
      let h = Keeps-refl {may = may} d in
      let g =
        Grows-update SameUser q f SameUser-refl d.users
          (All-of (λ x. q x ≡ true → SameUser x (f x)) (λ x _. same x) d.users) in
      let s : Spares may Table.users d.users (update q f d.users) = λ e. absurd (cc) in search;
}

pub professionals_updated-Safe :
    {may : Table → Bool} (q : ProfessionalProfile → Bool)
    (f : ProfessionalProfile → ProfessionalProfile)
    → ((x : ProfessionalProfile) → SameProfessional x (f x))
    → may Table.professionals ≡ true
    → SafeWrite may (λ d. record d { professionals = update q f d.professionals })
professionals_updated-Safe {may} q f same own = record {
  at = λ d.
      let h = Keeps-refl {may = may} d in
      let g =
        Grows-update SameProfessional q f SameProfessional-refl d.professionals
          (All-of (λ x. q x ≡ true → SameProfessional x (f x)) (λ x _. same x) d.professionals) in
      let s : Spares may Table.professionals d.professionals (update q f d.professionals) =
        λ e. absurd (cc) in
      search;
}

pub requests_updated-Safe :
    {may : Table → Bool} (q : ServiceRequest → Bool) (f : ServiceRequest → ServiceRequest)
    → ((x : ServiceRequest) → SameCall x (f x))
    → may Table.requests ≡ true
    → SafeWrite may (λ d. record d { requests = update q f d.requests })
requests_updated-Safe {may} q f same own = record {
  at = λ d.
      let h = Keeps-refl {may = may} d in
      let g =
        Grows-update SameCall q f SameCall-refl d.requests
          (All-of (λ x. q x ≡ true → SameCall x (f x)) (λ x _. same x) d.requests) in
      let s : Spares may Table.requests d.requests (update q f d.requests) = λ e. absurd (cc) in
      search;
}

pub interests_updated-Safe :
    {may : Table → Bool} (q : Interest → Bool) (f : Interest → Interest)
    → ((x : Interest) → SameInterest x (f x))
    → may Table.interests ≡ true
    → SafeWrite may (λ d. record d { interests = update q f d.interests })
interests_updated-Safe {may} q f same own = record {
  at = λ d.
      let h = Keeps-refl {may = may} d in
      let g =
        Grows-update SameInterest q f SameInterest-refl d.interests
          (All-of (λ x. q x ≡ true → SameInterest x (f x)) (λ x _. same x) d.interests) in
      let s : Spares may Table.interests d.interests (update q f d.interests) = λ e. absurd (cc) in
      search;
}

pub confirmations_updated-Safe :
    {may : Table → Bool} (q : ServiceConfirmation → Bool)
    (f : ServiceConfirmation → ServiceConfirmation)
    → ((x : ServiceConfirmation) → SameConfirmation x (f x))
    → may Table.confirmations ≡ true
    → SafeWrite may (λ d. record d { confirmations = update q f d.confirmations })
confirmations_updated-Safe {may} q f same own = record {
  at = λ d.
      let h = Keeps-refl {may = may} d in
      let g =
        Grows-update SameConfirmation q f SameConfirmation-refl d.confirmations
          (All-of (λ x. q x ≡ true → SameConfirmation x (f x)) (λ x _. same x) d.confirmations) in
      let s : Spares may Table.confirmations d.confirmations (update q f d.confirmations) =
        λ e. absurd (cc) in
      search;
}

pub reviews_updated-Safe :
    {may : Table → Bool} (q : Review → Bool) (f : Review → Review)
    → ((x : Review) → SameReview x (f x))
    → may Table.reviews ≡ true
    → SafeWrite may (λ d. record d { reviews = update q f d.reviews })
reviews_updated-Safe {may} q f same own = record {
  at = λ d.
      let h = Keeps-refl {may = may} d in
      let g =
        Grows-update SameReview q f SameReview-refl d.reviews
          (All-of (λ x. q x ≡ true → SameReview x (f x)) (λ x _. same x) d.reviews) in
      let s : Spares may Table.reviews d.reviews (update q f d.reviews) = λ e. absurd (cc) in
      search;
}

pub cases_updated-Safe :
    {may : Table → Bool} (q : ModerationCase → Bool) (f : ModerationCase → ModerationCase)
    → ((x : ModerationCase) → SameCase x (f x))
    → may Table.cases ≡ true
    → SafeWrite may (λ d. record d { cases = update q f d.cases })
cases_updated-Safe {may} q f same own = record {
  at = λ d.
      let h = Keeps-refl {may = may} d in
      let g =
        Grows-update SameCase q f SameCase-refl d.cases
          (All-of (λ x. q x ≡ true → SameCase x (f x)) (λ x _. same x) d.cases) in
      let s : Spares may Table.cases d.cases (update q f d.cases) = λ e. absurd (cc) in search;
}

pub verifications_updated-Safe :
    {may : Table → Bool} (q : Verification → Bool) (f : Verification → Verification)
    → ((x : Verification) → SameVerification x (f x))
    → may Table.verifications ≡ true
    → SafeWrite may (λ d. record d { verifications = update q f d.verifications })
verifications_updated-Safe {may} q f same own = record {
  at = λ d.
      let h = Keeps-refl {may = may} d in
      let g =
        Grows-update SameVerification q f SameVerification-refl d.verifications
          (All-of (λ x. q x ≡ true → SameVerification x (f x)) (λ x _. same x) d.verifications) in
      let s : Spares may Table.verifications d.verifications (update q f d.verifications) =
        λ e. absurd (cc) in
      search;
}

pub mail-Safe :
    {may : Table → Bool} (f : Db → Mail)
    → ((d : Db) → KeepsMail may d.mail (f d))
    → SafeWrite may (λ d. record d { mail = f d })
mail-Safe {may} f keeps = record {
  at = λ d. let h = Keeps-refl {may = may} d in let k = keeps d in search;
}

pub favorites-Safe :
    {may : Table → Bool} (f : Db → List Favorite)
    → may Table.favorites ≡ true
    → SafeWrite may (λ d. record d { favorites = f d })
favorites-Safe {may} f own = record {
  at = λ d.
      let h = Keeps-refl {may = may} d in
      let s : Spares may Table.favorites d.favorites (f d) = λ e. absurd (cc) in search;
}

pub availabilities-Safe :
    {may : Table → Bool} (f : Db → List Availability)
    → may Table.availabilities ≡ true
    → SafeWrite may (λ d. record d { availabilities = f d })
availabilities-Safe {may} f own = record {
  at = λ d.
      let h = Keeps-refl {may = may} d in
      let s : Spares may Table.availabilities d.availabilities (f d) = λ e. absurd (cc) in search;
}

pub portfolio-Safe :
    {may : Table → Bool} (f : Db → List PortfolioItem)
    → may Table.portfolio ≡ true
    → SafeWrite may (λ d. record d { portfolio = f d })
portfolio-Safe {may} f own = record {
  at = λ d.
      let h = Keeps-refl {may = may} d in
      let s : Spares may Table.portfolio d.portfolio (f d) = λ e. absurd (cc) in search;
}

-- A write that may grant the Premium plan.
pub subscriptions-Safe :
    {may : Table → Bool} (f : Db → List Subscription)
    → may Table.subscriptions ≡ true
    → may Table.premium_plans ≡ true
    → SafeWrite may (λ d. record d { subscriptions = f d })
subscriptions-Safe {may} f own grant = record {
  at = λ d.
      let h = Keeps-refl {may = may} d in
      let s : Spares may Table.subscriptions d.subscriptions (f d) = λ e. absurd (cc) in
      let p : may Table.premium_plans ≡ false
          → (u : ℕ) → has_premium u (record d { subscriptions = f d }) ≡ true
          → has_premium u d ≡ true =
        λ e u p. absurd (cc) in
      search;
}

pub log_event-Safe :
    {may : Table → Bool} (actor : Option ℕ) (event_type : String) (obj : Subject)
    (metadata : List (String × Meta))
    → SafeWrite may (log_event actor event_type obj metadata)
unfolding log_event
log_event-Safe actor event_type obj metadata = audit_added-Safe _

pub ruleset writes = (
  fresh_pk-Safe, log_event-Safe, audit_added-Safe, messages_added-Safe, blocks_added-Safe,
  boosts_added-Safe, reviews_added-Safe, cases_added-Safe, verifications_added-Safe,
  requests_added-Safe, interests_added-Safe, clients_added-Safe, professionals_added-Safe,
  users_updated-Safe, professionals_updated-Safe, requests_updated-Safe, interests_updated-Safe,
  confirmations_updated-Safe, reviews_updated-Safe, cases_updated-Safe, verifications_updated-Safe,
  mail-Safe, subscriptions-Safe, favorites-Safe, availabilities-Safe, portfolio-Safe,
)
