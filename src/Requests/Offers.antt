-- ===== src/Requests/Offers.antt =====
-- The list of compatible calls against the view that applies for one.
use Prim.Native.String.{count as text_length}
use tucano.Prelude.{
  ℕ, ◌≡◌, ◌≢◌, inl, inr, refl, Bool, true, false, Option, none, some, String, List, [], ◌∷◌, ◌==◌,
  ◌&&◌, ltb, leb, arith, first, filter, exists, map, order_by-All, filter-All_fit, All-filter_of,
  All, All-imp, All-both, IsKeyed, keyed-Distinct, keyed-found, Bool-cases, if◌then◌else◌, ◌∙◌, ap,
  sym,
}
use tucano.Models.{ProfessionalProfile, ServiceRequest, Interest, is_receiving}
use tucano.Db.{Db, ok, already_interested}
use tucano.Http.{redirect, redirect_with}
use tucano.Audit.{log_event}
use tucano.Requests.Clean.{interest_faults, insert_interest, same_pair}
use tucano.Requests.Views.{interest_create, after_application}
use tucano.Requests.Applying.{application}
use tucano.Requests.Services.{is_published_later}
use tucano.Requests.Pages.{is_offered, compatible_list, applied_ids}

-- Whether the page marks a call, and the interests that there are.
applied_ids-exists :
    (profile : ProfessionalProfile) (call : ℕ) (js : List Interest)
    → exists
        (λ k. k == call)
        (map (λ j. j.service_request) (filter (λ j. j.professional.pk == profile.pk) js))
      ≡ exists (λ j. j.service_request == call && j.professional.pk == profile.pk) js
unfolding exists filter
applied_ids-exists profile call [] = refl
applied_ids-exists profile call (j ∷ js) = ground (arith, applied_ids-exists profile call js)

-- A new row's own test finds just those, since stored rows have keys.
same_pair-exists :
    (profile : ProfessionalProfile) (r : ServiceRequest) (message : String) (js : List Interest)
    → All (λ j. j.pk ≢ 0) js
    → exists (same_pair (application profile r message 0)) js
      ≡ exists (λ j. j.service_request == r.pk && j.professional.pk == profile.pk) js
unfolding exists
same_pair-exists profile r message [] stored = refl
same_pair-exists profile r message (j ∷ js) stored =
    ground (arith, stored.0, same_pair-exists profile r message js stored.1)

-- What the view answers for a call that is open.
interest_create-answers :
    (user : ℕ) (profile : ProfessionalProfile) (r : ServiceRequest) (message : String) (d : Db)
    → first (λ p. p.user == user) d.professionals ≡ some profile
    → first (λ q. q.pk == r.pk) d.requests ≡ some r
    → is_receiving r.status ≡ true
    → ltb 280 (text_length message) ≡ false
    → (interest_create (some user) r.pk message d).0
      ≡ ok (
          if exists (same_pair (application profile r message 0)) d.interests
          then redirect_with (already_interested ∷ [])
          else redirect)
unfolding interest_create insert_interest interest_faults after_application log_event
interest_create-answers user profile r message d hp hr receiving short =
    elim (Bool-cases (exists (same_pair (application profile r message 0)) d.interests)) [
      | inl taken ↦ ground arith
      | inr free ↦ ground arith
    ]

-- Where keys are distinct and stored interests have one: for each call on a professional's list
-- the view accepts a short message where the page does not mark the call as applied for, and where
-- it does mark it refuses with just that reason.
pub compatible_list-answers :
    (is_located : ServiceRequest → Bool) (distance : Option (ServiceRequest → ℕ)) (user : ℕ)
    (profile : ProfessionalProfile) (message : String) (d : Db)
    → first (λ p. p.user == user) d.professionals ≡ some profile
    → IsKeyed (λ r. r.pk) d.next_pk d.requests
    → All (λ j. j.pk ≢ 0) d.interests
    → ltb 280 (text_length message) ≡ false
    → All
        (λ r.
          (interest_create (some user) r.pk message d).0
          ≡ ok (
              if exists (λ k. k == r.pk) (applied_ids profile d)
              then redirect_with (already_interested ∷ [])
              else redirect))
        (compatible_list is_located distance profile d)
unfolding compatible_list applied_ids
compatible_list-answers is_located distance user profile message d hp keyed stored short =
    go distance
  where
    Answers : ServiceRequest → Type 0
    Answers r =
        (interest_create (some user) r.pk message d).0
        ≡ ok (
            if exists (λ k. k == r.pk) (applied_ids profile d)
            then redirect_with (already_interested ∷ [])
            else redirect)

    answers :
        (r : ServiceRequest)
        → (first (λ q. q.pk == r.pk) d.requests ≡ some r) × (is_offered profile r ≡ true)
        → Answers r
    answers r (hr, offered) =
        interest_create-answers user profile r message d hp hr (ground arith) short
        ∙ ap (λ b. ok (if b then redirect_with (already_interested ∷ []) else redirect))
            (same_pair-exists profile r message d.interests stored
              ∙ sym (applied_ids-exists profile r.pk d.interests))

    offers : All Answers (filter (is_offered profile) d.requests)
    offers =
        All-imp
          (λ r. (first (λ q. q.pk == r.pk) d.requests ≡ some r) × (is_offered profile r ≡ true))
          Answers answers (filter (is_offered profile) d.requests)
          (All-both (λ r. first (λ q. q.pk == r.pk) d.requests ≡ some r)
            (λ r. is_offered profile r ≡ true) (filter (is_offered profile) d.requests)
            (All-filter_of (is_offered profile) (λ r. first (λ q. q.pk == r.pk) d.requests ≡ some r)
              d.requests
              (keyed-found (λ r. r.pk) d.requests
                (keyed-Distinct (λ r. r.pk) d.requests keyed.unique)))
            (filter-All_fit (is_offered profile) d.requests))

    go :
        (distance : Option (ServiceRequest → ℕ))
        → All Answers (compatible_list is_located distance profile d)
    go none =
        order_by-All is_published_later Answers (filter (is_offered profile) d.requests) offers
    go (some near) =
        order_by-All (λ a b. leb (near a) (near b)) Answers
          (filter is_located (filter (is_offered profile) d.requests))
          (All-filter_of is_located Answers (filter (is_offered profile) d.requests) offers)
