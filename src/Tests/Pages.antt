-- ===== src/Tests/Pages.antt =====
-- The theorems on pages, at concrete databases.
use tucano.Prelude.{
  ◌≡◌, ◌⊎◌, refl, Bool, true, false, none, some, [], ◌∷◌, ◌==◌, if◌then◌else◌, arith, count, exists,
  first, All, IsKeyed,
}
use tucano.Models.{ServiceRequest, Interest, Conversation, Message, Review}
use tucano.Db.{Db, Error, ok, err, already_interested}
use tucano.Http.{redirect, redirect_with}
use tucano.Requests.Views.{interest_create}
use tucano.Requests.Pages.{compatible_list, applied_ids}
use tucano.Requests.Offers.{compatible_list-answers}
use tucano.Chat.History.{Shows, conversation_page, conversation_page-latest}
use tucano.Reviews.Laws.{OneReviewEach}
use tucano.Reviews.Page.{ConfirmationPage, ShowsBoth, confirmation_page, confirmation_page-blind}
use tucano.Tests.Sample.{call, painter, chosen_interest, crowded, done}

abbrev is_located : ServiceRequest → Bool
is_located r = true

crowded-IsKeyed : IsKeyed (λ r. r.pk) crowded.next_pk crowded.requests
unfolding count
crowded-IsKeyed = record { unique = λ k. ground arith; below = ground arith }

compatible_list-answers_example :
    All
      (λ r.
        (interest_create (some 2) r.pk "" crowded).0
        ≡ ok (
            if exists (λ k. k == r.pk) (applied_ids painter crowded)
            then redirect_with (already_interested ∷ [])
            else redirect))
      (compatible_list is_located none painter crowded)
unfolding first
compatible_list-answers_example =
    compatible_list-answers is_located none 2 painter "" crowded refl crowded-IsKeyed (ground arith)
      refl

-- A conversation with two messages.
abbrev greeting : Message
greeting = record { conversation = 600; sender = 1; body = "Oi"; created_at = 1000 }

abbrev conversation : Conversation
conversation = record { pk = 600; interest = 200 }

abbrev talking : Db
talking = record done {
  conversations = conversation ∷ [];
  messages = greeting ∷ record greeting { sender = 2; created_at = 1001 } ∷ [];
}

conversation_page-latest_example :
    ((conversation_page 1 200 talking).1 ≡ talking)
    × (((e : Error) × ((conversation_page 1 200 talking).0 ≡ err e))
        ⊎ ((c : Conversation) × (i : Interest) × (r : ServiceRequest) × Shows 1 200 c i r talking))
conversation_page-latest_example =
    conversation_page-latest 1 200 talking ((ground arith, tt), (tt, tt))

-- Both sides have reviewed.
abbrev review : Review
review = record {
  pk = 700;
  confirmation = 300;
  author = 1;
  target = 2;
  rating = 5;
  comment = "";
  contested = false;
  contest_reason = "";
}

abbrev reviewed : Db
reviewed = record done {
  reviews = review ∷ record review { pk = 701; author = 2; target = 1 } ∷ [];
}

reviewed-OneReviewEach : OneReviewEach reviewed
unfolding count
reviewed-OneReviewEach c a = ground arith

confirmation_page-blind_example :
    ((e : Error) × ((confirmation_page 20000 2 200 reviewed).0 ≡ err e))
    ⊎ ((p : ConfirmationPage) × ((confirmation_page 20000 2 200 reviewed).0 ≡ ok p)
        × ((p.other_review ≡ none) ⊎ ShowsBoth 2 p))
unfolding first
confirmation_page-blind_example =
    confirmation_page-blind 20000 2 200 chosen_interest call reviewed refl refl
      reviewed-OneReviewEach (λ c e. ((λ about. refl), ((λ about. refl), tt)))
