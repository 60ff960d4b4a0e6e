-- ===== src/Reviews/Page.antt =====
-- `ConfirmationDetailView` of apps/reviews/views.py, behind its login: what its page shows, and
-- when it shows what the other side wrote.
use tucano.Prelude.{
  ℕ, suc, ◌+◌, ◌≤◌, ◌≡◌, ◌≢◌, ◌⊎◌, inl, inr, refl, sym, ap, ◌∙◌, subst, Bool, true, Option, none,
  some, List, [], ◌∷◌, ◌++◌, ◌==◌, ◌&&◌, ◌||◌, not, leb, arith, first, count, count-append,
  first-test, reverse, reverse-cons, All, Bool-cases, Option-cases, if◌then◌else◌, ==→eq,
}
use tucano.Models.{ServiceRequest, Interest, is_selected, ServiceConfirmation, Review}
use tucano.Db.{
  Db, Error, permission_denied, not_found, ok, err, Action, pure, raise, gets, ◌>>=◌, ◌>>◌,
}
use tucano.Requests.Views.{load_interest}
use tucano.Reviews.Services.{
  new_confirmation, create_confirmation, get_or_create_confirmation, is_party, is_review_by,
  review_target,
}
use tucano.Reviews.Laws.{OneReviewEach}

-- The context of the page, less its empty forms.
pub record ConfirmationPage : Type 0 where
  pub confirmation : ServiceConfirmation
  pub is_client : Bool
  pub my_confirmed : Option Bool
  pub other_confirmed : Option Bool
  pub target_user : ℕ
  pub my_review : Option Review
  pub other_review : Option Review

-- `confirmation.reviews`
abbrev pub is_about : ServiceConfirmation → Review → Bool
is_about c v = v.confirmation == c.pk

-- `other_review`; `Review.Meta.ordering` puts the newest first.
unfoldable pub revealed_review : ServiceConfirmation → ℕ → Db → Option Review
revealed_review c user d =
    if count (is_about c) d.reviews == 2
    then first (λ v. is_about c v && not (v.author == user)) (reverse d.reviews)
    else none

-- `get_context_data`
unfoldable pub context_data :
    ServiceConfirmation → Interest → ServiceRequest → ℕ → Db → ConfirmationPage
context_data c i r user d =
    let is_client = user == r.client.user in
    record {
      confirmation = c;
      is_client = is_client;
      my_confirmed = if is_client then c.client_confirmed else c.professional_confirmed;
      other_confirmed = if is_client then c.professional_confirmed else c.client_confirmed;
      target_user = review_target i r user;
      my_review = first (is_review_by c.pk user) (reverse d.reviews);
      other_review = revealed_review c user d;
    }

-- `get_object`, and the context of what it found.
unfoldable pub confirmation_page : ℕ → ℕ → ℕ → Action ConfirmationPage
confirmation_page now user interest_id = do
  (i, r) ← load_interest interest_id
  (if is_selected i.status then pure tt else raise not_found)
  (if is_party i r user then pure tt else raise permission_denied)
  (if leb r.scheduled_start now then pure tt else raise permission_denied)
  c ← get_or_create_confirmation i
  gets (context_data c i r user)

count-reverse {ℓ} : {A : Type ℓ} (p : A → Bool) (xs : List A) → count p (reverse xs) ≡ count p xs
unfolding count
count-reverse p [] = refl
count-reverse p (x ∷ xs) =
    ap (count p) (reverse-cons x xs)
    ∙ ground (arith, count-append p (reverse xs) (x ∷ []), count-reverse p xs)

first-none-count {ℓ} :
    {A : Type ℓ} (p : A → Bool) (xs : List A) → first p xs ≡ none → count p xs ≡ 0
unfolding first count
first-none-count p [] e = refl
first-none-count p (x ∷ xs) e = ground (arith, first-none-count p xs)

-- Where only two people have written, there are no more reviews than theirs.
count-two-le :
    (c : ServiceConfirmation) (a b : ℕ) (vs : List Review)
    → All (λ v. is_about c v ≡ true → (v.author == a || v.author == b) ≡ true) vs
    → count (is_about c) vs ≤ count (is_review_by c.pk a) vs + count (is_review_by c.pk b) vs
unfolding count
count-two-le c a b [] h = omega arith
count-two-le c a b (v ∷ vs) h = ground (arith, h.0, count-two-le c a b vs h.1)

-- Where one of two has written nothing, there is one review at most.
silent-le :
    (c : ServiceConfirmation) (a b user : ℕ) (d : Db)
    → OneReviewEach d
    → (user == a || user == b) ≡ true
    → count (is_review_by c.pk user) d.reviews ≡ 0
    → count (is_review_by c.pk a) d.reviews + count (is_review_by c.pk b) d.reviews ≤ 1
silent-le c a b user d one side silent = elim (Bool-cases (user == a)) [
  | inl here ↦
      let by_a : count (is_review_by c.pk a) d.reviews ≡ 0 =
        subst (λ x. count (is_review_by c.pk x) d.reviews ≡ 0) (==→eq user a here) silent in
      omega (arith, one c.pk b)
  | inr there ↦
      let same : (user == b) ≡ true = ground arith in
      let by_b : count (is_review_by c.pk b) d.reviews ≡ 0 =
        subst (λ x. count (is_review_by c.pk x) d.reviews ≡ 0) (==→eq user b same) silent in
      omega (arith, one c.pk a)
]

-- Both sides have written, and the page shows the visitor's words and the other side's.
pub record ShowsBoth (user : ℕ) (p : ConfirmationPage) : Type 0 where
  pub mine : Review
  pub theirs : Review
  pub my_review : p.my_review ≡ some mine
  pub other_review : p.other_review ≡ some theirs
  pub my_confirmation : mine.confirmation ≡ p.confirmation.pk
  pub my_author : mine.author ≡ user
  pub their_confirmation : theirs.confirmation ≡ p.confirmation.pk
  pub their_author : theirs.author ≢ user

both_wrote :
    (c : ServiceConfirmation) (i : Interest) (r : ServiceRequest) (user : ℕ) (d : Db)
    → OneReviewEach d
    → All (λ v. is_about c v ≡ true → is_party i r v.author ≡ true) d.reviews
    → is_party i r user ≡ true
    → (revealed_review c user d ≡ none)
      ⊎ ((mine : Review) × (theirs : Review) × (first (is_review_by c.pk user) (reverse d.reviews)
            ≡ some mine)
          × (revealed_review c user d ≡ some theirs)
          × (is_review_by c.pk user mine ≡ true)
          × ((is_about c theirs && not (theirs.author == user)) ≡ true))
unfolding revealed_review
both_wrote c i r user d one only side = elim (Bool-cases (count (is_about c) d.reviews == 2)) [
  | inr fewer ↦ inl (rw fewer refl)
  | inl two ↦
      let their : Review → Bool = λ v. is_about c v && not (v.author == user) in
      elim (Option-cases (first their (reverse d.reviews))) [
        | inl nobody ↦ inl (rw two nobody)
        | inr (theirs, ht) ↦
            elim (Option-cases (first (is_review_by c.pk user) (reverse d.reviews))) [
              | inl silent ↦
                  let none_mine : count (is_review_by c.pk user) d.reviews ≡ 0 =
                    sym (count-reverse (is_review_by c.pk user) d.reviews)
                    ∙ first-none-count (is_review_by c.pk user) (reverse d.reviews) silent in
                  let le = count-two-le c r.client.user i.professional.user d.reviews only in
                  let few =
                    silent-le c r.client.user i.professional.user user d one side none_mine in
                  absurd (ground arith)
              | inr (mine, hm) ↦ inr (
                mine,
                theirs,
                hm,
                rw two ht,
                first-test (is_review_by c.pk user) (reverse d.reviews) mine hm,
                first-test their (reverse d.reviews) theirs ht,
              )
            ]
      ]
]

context_data-blind :
    (c : ServiceConfirmation) (i : Interest) (r : ServiceRequest) (user : ℕ) (d : Db)
    → OneReviewEach d
    → All (λ v. is_about c v ≡ true → is_party i r v.author ≡ true) d.reviews
    → is_party i r user ≡ true
    → let p = context_data c i r user d in (p.other_review ≡ none) ⊎ ShowsBoth user p
unfolding context_data
context_data-blind c i r user d one only side = elim (both_wrote c i r user d one only side) [
  | inl hidden ↦ inl hidden
  | inr (mine, theirs, hm, ht, own, other) ↦ inr (record {
    mine = mine;
    theirs = theirs;
    my_review = hm;
    other_review = ht;
    my_confirmation = ground arith;
    my_author = ground arith;
    their_confirmation = ground arith;
    their_author = ground arith;
  })
]

-- Where nobody has reviewed a confirmation twice and only the two sides of this interest have
-- reviewed its confirmation: the page is refused, or it shows nothing of what the other side
-- wrote, or both have written and it shows the visitor's own review beside the other's.
pub confirmation_page-blind :
    (now user interest_id : ℕ) (i : Interest) (r : ServiceRequest) (d : Db)
    → first (λ j. j.pk == interest_id) d.interests ≡ some i
    → first (λ q. q.pk == i.service_request) d.requests ≡ some r
    → OneReviewEach d
    → ((c : ServiceConfirmation)
        → (get_or_create_confirmation i d).0 ≡ ok c
        → All (λ v. is_about c v ≡ true → is_party i r v.author ≡ true) d.reviews)
    → ((e : Error) × ((confirmation_page now user interest_id d).0 ≡ err e))
      ⊎ ((p : ConfirmationPage) × ((confirmation_page now user interest_id d).0 ≡ ok p)
          × ((p.other_review ≡ none) ⊎ ShowsBoth user p))
unfolding confirmation_page get_or_create_confirmation create_confirmation
confirmation_page-blind now user interest_id i r d hi hr one only =
    elim (Bool-cases (is_selected i.status)) [
      | inr open_ ↦ inl (not_found, ground arith)
      | inl chosen ↦ elim (Bool-cases (is_party i r user && leb r.scheduled_start now)) [
        | inr outside ↦ inl (permission_denied, ground arith)
        | inl side ↦ elim (Option-cases (first (λ c. c.interest == i.pk) d.confirmations)) [
          | inl fresh ↦
              let c : ServiceConfirmation = new_confirmation d.next_pk i.pk in
              let d' : Db = record d {
                next_pk = suc d.next_pk;
                confirmations = d.confirmations ++ (c ∷ []);
              } in
              inr (
                context_data c i r user d',
                ground arith,
                context_data-blind c i r user d' one (only c (ground arith)) (ground arith),
              )
          | inr (c, found) ↦ inr (
            context_data c i r user d,
            ground arith,
            context_data-blind c i r user d one (only c (ground arith)) (ground arith),
          )
        ]
      ]
    ]
