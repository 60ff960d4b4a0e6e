-- ===== src/Reviews/Services.antt =====
-- apps/reviews/services.py and views.py. An operation works on the objects that its caller has
-- loaded; `r` is the call that the interest `i` belongs to, which says who its client is.
use Prim.Native.String.{count as text_length}
use tucano.Prelude.{
  ℕ, ◌+◌, suc, Bool, true, false, Option, none, some, String, List, [], ◌∷◌, ◌++◌, ◌&&◌, ◌||◌, not,
  ◌==◌, leb, ◌+++◌, first, exists, filter, update, if◌then◌else◌,
}
use tucano.Models.{
  ServiceRequest, Interest, is_selected, ServiceConfirmation, Review, is_legitimate, has_dispute,
  Subject, Meta,
}
use tucano.Db.{
  Db, not_a_party, not_legitimate, already_reviewed, not_the_target, already_contested,
  invalid_field, ok, Action, pure, gets, or_404, ◌>>=◌, ◌>>◌, modify, refuse_if, fresh_pk,
}
use tucano.Http.{Response, redirect_with, login_required}
use tucano.Audit.{log_event}
use tucano.Notifications.{dispatch_notification}
use tucano.Requests.Views.{respond, load_interest}

-- A new row: nobody has answered yet.
abbrev pub new_confirmation : ℕ → ℕ → ServiceConfirmation
new_confirmation pk interest = record {
  pk = pk;
  interest = interest;
  client_confirmed = none;
  professional_confirmed = none;
  client_responded_at = none;
  professional_responded_at = none;
}

-- `ServiceConfirmation.objects.create(interest=interest)`
unfoldable pub create_confirmation : Interest → Action ServiceConfirmation
create_confirmation i d = (
  ok (new_confirmation d.next_pk i.pk),
  record d {
    next_pk = suc d.next_pk;
    confirmations = d.confirmations ++ (new_confirmation d.next_pk i.pk ∷ []);
  },
)

-- `get_or_create_confirmation`
unfoldable pub get_or_create_confirmation : Interest → Action ServiceConfirmation
get_or_create_confirmation i d = elim (first (λ c. c.interest == i.pk) d.confirmations) [
  | some c ↦ (ok c, d)
  | none ↦ create_confirmation i d
]

-- `select_related("service_request__client__user")`: each interest with its call.
unfoldable pub with_request : List ServiceRequest → List Interest → List (Interest × ServiceRequest)
with_request rs [] = []
with_request rs (i ∷ is) =
    let rest = with_request rs is in
    elim (first (λ r. r.pk == i.service_request) rs) [ none ↦ rest | some r ↦ (i, r) ∷ rest ]

-- The interests that `create_pending_confirmations` asks for: selected, the service has begun, and
-- nobody was asked yet.
abbrev pub is_pending : ℕ → Db → Interest × ServiceRequest → Bool
is_pending now d (i, r) =
    is_selected i.status
    && leb r.scheduled_start now
    && not (exists (λ c. c.interest == i.pk) d.confirmations)

-- One round of its loop.
unfoldable pub ask_both : Interest → ServiceRequest → Action (Unit {0})
ask_both i r = do
  confirmation ← create_confirmation i
  let title : String = "O serviço \"" +++ r.title +++ "\" aconteceu?"
  let body : String = "Confirme para liberar a avaliação bilateral."
  modify (λ d. record d {
    mail =
        dispatch_notification r.client.user "service_confirmation.requested" title body false
          d.mail;
  })
  modify (λ d. record d {
    mail =
        dispatch_notification i.professional.user "service_confirmation.requested" title body false
          d.mail;
  })

unfoldable pub ask_each : List (Interest × ServiceRequest) → ℕ → Action ℕ
ask_each [] created d = (ok created, d)
ask_each ((i, r) ∷ rest) created d = (ask_both i r >>= λ _. ask_each rest (created + 1)) d

unfoldable pub pending : ℕ → Db → List (Interest × ServiceRequest)
pending now d = filter (is_pending now d) (with_request d.requests d.interests)

-- `create_pending_confirmations`
unfoldable pub create_pending_confirmations : ℕ → Action ℕ
create_pending_confirmations now d = ask_each (pending now d) 0 d

-- `confirmation.save(update_fields=...)`
unfoldable pub save_confirmation :
    ServiceConfirmation → (ServiceConfirmation → ServiceConfirmation) → Db → Db
save_confirmation c write d = record d {
  confirmations = update (λ x. x.pk == c.pk) write d.confirmations;
}

-- The columns that an answer sets.
abbrev pub answered : Bool → ℕ → Bool → ServiceConfirmation → ServiceConfirmation
answered is_client now occurred c =
    if is_client
    then record c { client_confirmed = some occurred; client_responded_at = some now }
    else record c { professional_confirmed = some occurred; professional_responded_at = some now }

abbrev pub is_party : Interest → ServiceRequest → ℕ → Bool
is_party i r user = user == r.client.user || user == i.professional.user

-- `confirm_service`
unfoldable pub confirm_service :
    ℕ → ServiceConfirmation → Interest → ServiceRequest → ℕ → Bool → Action ServiceConfirmation
confirm_service now c i r user occurred = do
  refuse_if (not (is_party i r user)) not_a_party
  let write = answered (user == r.client.user) now occurred
  modify (save_confirmation c write)
  modify (
      if has_dispute (write c)
      then log_event (some user) "service_confirmation.disputed" (Subject.confirmation c.pk) []
      else log_event (some user) "service_confirmation.answered" (Subject.confirmation c.pk)
          (("occurred", Meta.flag occurred) ∷ []))
  pure (write c)

-- `Review.objects.filter(confirmation=confirmation, author=author)`
abbrev pub is_review_by : ℕ → ℕ → Review → Bool
is_review_by confirmation author v = v.confirmation == confirmation && v.author == author

-- `submit_review`
unfoldable pub submit_review : ServiceConfirmation → ℕ → ℕ → ℕ → String → Action Review
submit_review c author target rating comment = do
  refuse_if (not (is_legitimate c)) not_legitimate
  reviewed ← gets (λ d. exists (is_review_by c.pk author) d.reviews)
  refuse_if reviewed already_reviewed
  pk ← fresh_pk
  let written : Review = record {
    pk = pk;
    confirmation = c.pk;
    author = author;
    target = target;
    rating = rating;
    comment = comment;
    contested = false;
    contest_reason = "";
  }
  modify (λ d. record d { reviews = d.reviews ++ (written ∷ []) })
  modify (log_event (some author) "review.submitted" (Subject.review pk) [])
  pure written

-- `contest_review`
unfoldable pub contest_review : Review → ℕ → String → Action Review
contest_review v contester reason = do
  refuse_if (not (contester == v.target)) not_the_target
  refuse_if v.contested already_contested
  let write = λ (x : Review). record x { contested = true; contest_reason = reason }
  modify (λ d. record d { reviews = update (λ x. x.pk == v.pk) write d.reviews })
  modify (
      log_event (some contester) "review.contested" (Subject.review v.pk)
        (("reason", Meta.text reason) ∷ []))
  pure (write v)

-- `ConfirmServiceView.post`
unfoldable pub confirm_service_view : ℕ → Option ℕ → ℕ → Bool → Action Response
confirm_service_view now user interest_id occurred = login_required user λ u. do
  (i, r) ← load_interest interest_id
  c ← get_or_create_confirmation i
  respond (confirm_service now c i r u occurred)

-- `ReviewForm`: the rating is from 1 to 5, and the comment has 1000 characters at most.
abbrev pub review_form_valid : ℕ → String → Bool
review_form_valid rating comment = leb 1 rating && leb rating 5 && leb (text_length comment) 1000

-- The other side: the professional for the client, and the client for anyone else.
abbrev pub review_target : Interest → ServiceRequest → ℕ → ℕ
review_target i r user = if user == r.client.user then i.professional.user else r.client.user

-- `ReviewCreateView.post`
unfoldable pub review_create : Option ℕ → ℕ → ℕ → String → Action Response
review_create user interest_id rating comment = login_required user λ u. do
  (i, r) ← load_interest interest_id
  c ← or_404 (← gets (λ d. first (λ c. c.interest == i.pk) d.confirmations))
  (if review_form_valid rating comment
      then respond (submit_review c u (review_target i r u) rating comment)
      else pure (redirect_with (invalid_field ∷ [])))

-- `ReviewContestView.post`, reached with a valid form.
unfoldable pub review_contest : Option ℕ → ℕ → String → Action Response
review_contest user pk reason = login_required user λ u. do
  v ← or_404 (← gets (λ d. first (λ v. v.pk == pk) d.reviews))
  respond (contest_review v u reason)
