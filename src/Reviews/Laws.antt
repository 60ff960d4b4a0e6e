-- ===== src/Reviews/Laws.antt =====
-- Who may answer, who may review, and how often.
use tucano.Prelude.{
  ◌++◌, if◌then◌else◌, ℕ, ◌≤◌, ◌≡◌, ◌≢◌, ◌⊎◌, Bool, true, false, some, String, [], ◌∷◌, ◌==◌, ◌&&◌,
  not, arith, first, update, exists, count, count-append, count-eq-zero, Option-cases, Bool-cases,
  inl, inr, sym, subst, exists-append, count-update_same, All-of, Option, none, refl,
}
use tucano.Models.{
  ServiceRequest, Interest, ServiceConfirmation, Review, is_legitimate, has_dispute,
}
use tucano.Db.{Db, ok, err, validation_error, not_a_party}
use tucano.Http.{redirect}
use tucano.Audit.{log_event}
use tucano.Reviews.Services.{
  is_party, answered, confirm_service, save_confirmation, is_review_by, submit_review,
  review_target, review_form_valid, review_create, contest_review, review_contest,
}

-- Nobody has reviewed an interaction twice: the constraint `unique_review_per_author`.
abbrev pub OneReviewEach : Db → Type 0
OneReviewEach d = (c a : ℕ) → count (is_review_by c a) d.reviews ≤ 1

-- What an answer by one of the two sides does to the confirmation.
pub record IsAnswer (c : ServiceConfirmation) (r : ServiceRequest) (user : ℕ) (occurred : Bool)
    (a : ServiceConfirmation) : Type 0 where
  pub by_client :
      user ≡ r.client.user
      → (a.client_confirmed ≡ some occurred) × (a.professional_confirmed ≡ c.professional_confirmed)
  pub by_professional :
      user ≢ r.client.user
      → (a.professional_confirmed ≡ some occurred) × (a.client_confirmed ≡ c.client_confirmed)
  pub legitimate : is_legitimate a ≡ true → (occurred ≡ true) × (has_dispute a ≡ false)

-- An answer by a user who is neither side is refused and changes nothing. One by a side goes
-- through: in the row of the confirmation it sets that side's answer and keeps the other's, and
-- makes the interaction legitimate only if it says yes and no dispute is left.
pub confirm_service-sides :
    (now : ℕ) (c : ServiceConfirmation) (i : Interest) (r : ServiceRequest) (user : ℕ)
    (occurred : Bool) (d : Db)
    → (is_party i r user ≡ false)
        × (confirm_service now c i r user occurred d
            ≡ (err (validation_error (not_a_party ∷ [])), d))
      ⊎ (is_party i r user ≡ true)
        × ((confirm_service now c i r user occurred d).0
            ≡ ok (answered (user == r.client.user) now occurred c))
        × ((confirm_service now c i r user occurred d).1.confirmations
            ≡ update
                (λ x. x.pk == c.pk)
                (answered (user == r.client.user) now occurred)
                d.confirmations)
        × IsAnswer c r user occurred (answered (user == r.client.user) now occurred c)
unfolding confirm_service save_confirmation log_event
confirm_service-sides now c i r user occurred d = elim (Bool-cases (is_party i r user)) [
  | inl side ↦ inr (side, ground arith, ground arith, ground arith)
  | inr stranger ↦ inl (stranger, ground arith)
]

submit_review-refused :
    (c : ServiceConfirmation) (author target rating : ℕ) (comment : String) (d : Db)
    → (is_legitimate c && not (exists (is_review_by c.pk author) d.reviews)) ≡ false
    → (submit_review c author target rating comment d).1 ≡ d
unfolding submit_review
submit_review-refused c author target rating comment d h = ground arith

-- A review that `ReviewCreateView` has stored: `c` is the confirmation of the interest.
pub record Stores (user interest_id rating : ℕ) (comment : String) (d d' : Db) : Type 0 where
  pub i : Interest
  pub r : ServiceRequest
  pub c : ServiceConfirmation
  pub interest : first (λ j. j.pk == interest_id) d.interests ≡ some i
  pub call : first (λ q. q.pk == i.service_request) d.requests ≡ some r
  pub confirmation : first (λ x. x.interest == i.pk) d.confirmations ≡ some c
  pub client_confirmed : c.client_confirmed ≡ some true
  pub professional_confirmed : c.professional_confirmed ≡ some true
  pub first_time : exists (is_review_by c.pk user) d.reviews ≡ false
  pub low : 1 ≤ rating
  pub high : rating ≤ 5
  pub reviews :
      d'.reviews
      ≡ d.reviews
        ++ ((record {
          pk = d.next_pk;
          confirmation = c.pk;
          author = user;
          target = if user == r.client.user then i.professional.user else r.client.user;
          rating = rating;
          comment = comment;
          contested = false;
          contest_reason = "";
        })
            ∷ [])

both_confirmed :
    (c : ServiceConfirmation)
    → is_legitimate c ≡ true
    → (c.client_confirmed ≡ some true) × (c.professional_confirmed ≡ some true)
both_confirmed c h = (ground arith, ground arith)

-- The view changes nothing, or stores one review by the user at the end of the reviews, about the
-- interest's client if the user is its professional or a stranger, and about its professional if
-- the user is its client: where both sides of that interest's confirmation have said that the
-- service took place, the user has not reviewed it before, and the rating is from 1 to 5.
pub review_create-cases :
    (user interest_id rating : ℕ) (comment : String) (d : Db)
    → ((review_create (some user) interest_id rating comment d).1 ≡ d)
      ⊎ Stores user interest_id rating comment d
          (review_create (some user) interest_id rating comment d).1
unfolding review_create submit_review log_event
review_create-cases user interest_id rating comment d =
    elim (Option-cases (first (λ j. j.pk == interest_id) d.interests)) [
      | inl no_interest ↦ inl (ground arith)
      | inr (i, hi) ↦ elim (Option-cases (first (λ q. q.pk == i.service_request) d.requests)) [
        | inl no_request ↦ inl (ground arith)
        | inr (r, hr) ↦ elim (Option-cases (first (λ x. x.interest == i.pk) d.confirmations)) [
          | inl not_asked ↦ inl (ground arith)
          | inr (c, hc) ↦ submitted i r c hi hr hc
        ]
      ]
    ]
  where
    submitted :
        (i : Interest) (r : ServiceRequest) (c : ServiceConfirmation)
        → first (λ j. j.pk == interest_id) d.interests ≡ some i
        → first (λ q. q.pk == i.service_request) d.requests ≡ some r
        → first (λ x. x.interest == i.pk) d.confirmations ≡ some c
        → ((review_create (some user) interest_id rating comment d).1 ≡ d)
          ⊎ Stores user interest_id rating comment d
              (review_create (some user) interest_id rating comment d).1
    submitted i r c hi hr hc =
        let t = review_target i r user in
        elim (Bool-cases (review_form_valid rating comment)) [
          | inr invalid ↦ inl (ground arith)
          | inl valid ↦
              elim (Bool-cases
                (is_legitimate c && not (exists (is_review_by c.pk user) d.reviews))) [
                  | inr refused ↦
                      inl (ground (arith, submit_review-refused c user t rating comment d refused))
                  | inl fine ↦
                      let both = both_confirmed c (ground arith) in
                      inr (record {
                        i = i;
                        r = r;
                        c = c;
                        interest = hi;
                        call = hr;
                        confirmation = hc;
                        client_confirmed = both.0;
                        professional_confirmed = both.1;
                        first_time = ground arith;
                        low = ground arith;
                        high = ground arith;
                        reviews = ground arith;
                      })
                ]
        ]

Stores-OneReviewEach :
    (user interest_id rating : ℕ) (comment : String) (d d' : Db)
    → Stores user interest_id rating comment d d'
    → OneReviewEach d
    → OneReviewEach d'
unfolding count
Stores-OneReviewEach user interest_id rating comment d d' s h k a =
    let new : Review = record {
      pk = d.next_pk;
      confirmation = s.c.pk;
      author = user;
      target = if user == s.r.client.user then s.i.professional.user else s.r.client.user;
      rating = rating;
      comment = comment;
      contested = false;
      contest_reason = "";
    } in
    rw s.reviews (
      ground (
        arith,
        h k a,
        count-append (is_review_by k a) d.reviews (new ∷ []),
        count-eq-zero (is_review_by s.c.pk user) d.reviews,
        s.first_time,
      ))

-- Where nobody has reviewed an interaction twice, that still holds after `ReviewCreateView`.
pub review_create-OneReviewEach :
    (user : Option ℕ) (interest_id rating : ℕ) (comment : String) (d : Db)
    → OneReviewEach d
    → OneReviewEach (review_create user interest_id rating comment d).1
unfolding review_create
review_create-OneReviewEach none interest_id rating comment d h = h
review_create-OneReviewEach (some user) interest_id rating comment d h =
    elim (review_create-cases user interest_id rating comment d) [
      | inl same ↦ subst OneReviewEach (sym same) h
      | inr s ↦ Stores-OneReviewEach user interest_id rating comment d _ s h
    ]

-- Contesting a review changes neither its author nor what it is about.
pub review_contest-OneReviewEach :
    (user : Option ℕ) (pk : ℕ) (reason : String) (d : Db)
    → OneReviewEach d
    → OneReviewEach (review_contest user pk reason d).1
unfolding review_contest contest_review log_event
review_contest-OneReviewEach none pk reason d h k a = h k a
review_contest-OneReviewEach (some u) pk reason d h k a =
    elim (Option-cases (first (λ v. v.pk == pk) d.reviews)) [
      | inl no_review ↦ ground (arith, h k a)
      | inr (v, found) ↦
          let write : Review → Review =
            λ x. record x { contested = true; contest_reason = reason } in
          let same =
            count-update_same (λ x. x.pk == v.pk) write (is_review_by k a) d.reviews
              (All-of (λ x. (x.pk == v.pk) ≡ true → is_review_by k a (write x) ≡ is_review_by k a x)
                (λ x e. refl) d.reviews) in
          elim (Bool-cases (u == v.target && not v.contested)) [
            | inl fine ↦ ground (arith, same, h k a)
            | inr refused ↦ ground (arith, h k a)
          ]
    ]

-- With a valid form, a logged-in user who is neither side, and has not done so yet, may review the
-- client of an interaction that both sides confirmed.
pub review_create-outsider :
    (user interest_id rating : ℕ) (comment : String) (d : Db) (i : Interest) (r : ServiceRequest)
    (c : ServiceConfirmation)
    → first (λ j. j.pk == interest_id) d.interests ≡ some i
    → first (λ q. q.pk == i.service_request) d.requests ≡ some r
    → first (λ x. x.interest == i.pk) d.confirmations ≡ some c
    → is_party i r user ≡ false
    → is_legitimate c ≡ true
    → review_form_valid rating comment ≡ true
    → exists (is_review_by c.pk user) d.reviews ≡ false
    → ((review_create (some user) interest_id rating comment d).0 ≡ ok redirect)
      × (exists
            (λ v. is_review_by c.pk user v && v.target == r.client.user)
            (review_create (some user) interest_id rating comment d).1.reviews
          ≡ true)
unfolding review_create submit_review log_event exists
review_create-outsider user interest_id rating comment d i r c hi hr hc stranger legit valid new =
    let review : Review = record {
      pk = d.next_pk;
      confirmation = c.pk;
      author = user;
      target = r.client.user;
      rating = rating;
      comment = comment;
      contested = false;
      contest_reason = "";
    } in
    ground (
      arith,
      exists-append (λ v. is_review_by c.pk user v && v.target == r.client.user) d.reviews
          (review ∷ []),
    )
