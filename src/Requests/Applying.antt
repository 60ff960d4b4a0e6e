-- ===== src/Requests/Applying.antt =====
-- Who may apply for a call, and how often: `InterestCreateView`.
use Prim.Native.String.{count as text_length}
use tucano.Prelude.{
  suc, ℕ, ◌≤◌, ◌≡◌, ◌≢◌, refl, sym, subst, Bool, true, false, some, String, List, [], ◌∷◌, ◌++◌,
  ◌==◌, ◌&&◌, not, ltb, arith, count, count-append, exists, first, Bool-cases, Option-cases, inl,
  inr, ◌⊎◌, All, subst₂,
}
use tucano.Models.{ProfessionalProfile, ServiceRequest, InterestStatus, Interest, is_receiving}
use tucano.Db.{Db}
use tucano.Audit.{log_event}
use tucano.Requests.Clean.{interest_faults, insert_interest, same_pair}
use tucano.Requests.Views.{interest_create, after_application}

-- The interest that the professional's application makes.
abbrev pub application : ProfessionalProfile → ServiceRequest → String → ℕ → Interest
application profile r message pk = record {
  pk = pk;
  service_request = r.pk;
  professional = profile;
  message = message;
  status = InterestStatus.applied;
}

-- An application that was stored.
pub record Applies (user : ℕ) (pk : ℕ) (message : String) (profile : ProfessionalProfile)
    (r : ServiceRequest) (d d' : Db) : Type 0 where
  pub profile_found : first (λ p. p.user == user) d.professionals ≡ some profile
  pub call_found : first (λ q. q.pk == pk) d.requests ≡ some r
  pub receiving : is_receiving r.status ≡ true
  pub first_time : exists (same_pair (application profile r message 0)) d.interests ≡ false
  pub stored : d'.interests ≡ d.interests ++ (application profile r message d.next_pk ∷ [])
  pub next_pk : d'.next_pk ≡ suc d.next_pk
  pub requests : d'.requests ≡ d.requests
  pub conversations : d'.conversations ≡ d.conversations

-- An application changes nothing, or is stored behind the other interests: for the visitor's own
-- professional profile, in a call that receives interests, and where the professional has no other
-- interest in that call.
pub interest_create-cases :
    (user pk : ℕ) (message : String) (d : Db)
    → ((interest_create (some user) pk message d).1 ≡ d)
      ⊎ ((profile : ProfessionalProfile) × (r : ServiceRequest) × Applies user pk message profile r
            d
            (interest_create (some user) pk message d).1)
unfolding interest_create insert_interest interest_faults after_application log_event
interest_create-cases user pk message d = elim (Bool-cases (ltb 280 (text_length message))) [
  | inl long ↦ inl (ground arith)
  | inr short ↦ elim (Option-cases (first (λ p. p.user == user) d.professionals)) [
    | inl no_profile ↦ inl (ground arith)
    | inr (profile, hp) ↦ elim (Option-cases (first (λ q. q.pk == pk) d.requests)) [
      | inl no_call ↦ inl (ground arith)
      | inr (r, hr) ↦
          elim (Bool-cases (
            is_receiving r.status
            && not (exists (same_pair (application profile r message 0)) d.interests))) [
              | inr refused ↦ inl (ground arith)
              | inl fine ↦ inr (
                profile,
                r,
                record {
                  profile_found = hp;
                  call_found = hr;
                  receiving = ground arith;
                  first_time = ground arith;
                  stored = ground arith;
                  next_pk = ground arith;
                  requests = ground arith;
                  conversations = ground arith;
                },
              )
            ]
    ]
  ]
]

abbrev pub is_interest_of : ℕ → ℕ → Interest → Bool
is_interest_of call professional j = j.service_request == call && j.professional.pk == professional

-- The constraint `unique_interest_per_request`.
abbrev pub OneInterestEach : Db → Type 0
OneInterestEach d =
    (call professional : ℕ) → count (is_interest_of call professional) d.interests ≤ 1

-- A new row's test for others finds every stored row of its pair.
count-first_time :
    (profile : ProfessionalProfile) (r : ServiceRequest) (message : String) (js : List Interest)
    → All (λ j. j.pk ≢ 0) js
    → exists (same_pair (application profile r message 0)) js ≡ false
    → count (is_interest_of r.pk profile.pk) js ≡ 0
unfolding exists count
count-first_time profile r message [] stored h = refl
count-first_time profile r message (j ∷ js) stored h =
    ground (arith, stored.0, count-first_time profile r message js stored.1)

-- Where no interest has the key of an unsaved one and no professional has two in one call, that
-- still holds after an application.
pub interest_create-OneInterestEach :
    (user pk : ℕ) (message : String) (d : Db)
    → All (λ j. j.pk ≢ 0) d.interests
    → OneInterestEach d
    → OneInterestEach (interest_create (some user) pk message d).1
unfolding count
interest_create-OneInterestEach user pk message d stored one call professional =
    elim (interest_create-cases user pk message d) [
      | inl same ↦ rw same (one call professional)
      | inr (profile, r, a) ↦
          let new = application profile r message d.next_pk in
          let p = is_interest_of call professional in
          let none_yet = count-first_time profile r message d.interests stored a.first_time in
          let bound : count p (d.interests ++ (new ∷ [])) ≤ 1 =
            elim (Bool-cases (r.pk == call && profile.pk == professional)) [
              | inr other ↦
                  ground (arith, one call professional, count-append p d.interests (new ∷ []))
              | inl here ↦
                  let same_call : r.pk ≡ call = ground arith in
                  let same_professional : profile.pk ≡ professional = ground arith in
                  let none_here =
                    subst₂ (λ x y. count (is_interest_of x y) d.interests ≡ 0) same_call
                      same_professional none_yet in
                  ground (arith, count-append p d.interests (new ∷ []))
            ] in
          subst (λ is. count p is ≤ 1) (sym a.stored) bound
    ]
