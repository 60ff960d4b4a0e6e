-- ===== src/Requests/Views.antt =====
-- The views of apps/requests/views.py that change state.
use Prim.Native.String.{count as text_length}
use tucano.Prelude.{
  ltb, ℕ, Option, none, some, String, List, [], ◌∷◌, ◌&&◌, ◌==◌, ◌⊎◌, inl, inr, first,
  if◌then◌else◌,
}
use tucano.Models.{
  ClientProfile, ProfessionalProfile, InterestWindow, RequestStatus, ServiceRequest, InterestStatus,
  Interest, Subject, Meta,
}
use tucano.Db.{
  Fault, permission_denied, Action, pure, raise, gets, or_404, attempt, ◌>>=◌, ◌>>◌, modify,
}
use tucano.Http.{
  Response, redirect, redirect_with, form_invalid, client_required, professional_required,
}
use tucano.Audit.{log_event}
use tucano.Requests.Clean.{
  full_clean, check_window, request_field_faults, insert_request, insert_interest,
}
use tucano.Requests.Services.{
  notify_compatible_professionals, select_interest, withdraw_interest, close_request_now,
  cancel_request,
}

-- The fields of `ServiceRequestForm`.
pub record RequestForm : Type 0 where
  pub category : ℕ
  pub title : String
  pub description : String
  pub positions_count : ℕ
  pub scheduled_start : ℕ
  pub location_label : String
  pub interest_window : InterestWindow

-- The instance that the form builds, with the defaults of the other columns.
abbrev pub new_request : ℕ → ClientProfile → RequestForm → ServiceRequest
new_request now client f = record {
  pk = 0;
  client = client;
  category = f.category;
  title = f.title;
  description = f.description;
  positions_count = f.positions_count;
  scheduled_start = f.scheduled_start;
  location_label = f.location_label;
  interest_window = f.interest_window;
  status = RequestStatus.receiving;
  published_at = now;
  expires_at = none;
  closed_at = none;
  cancel_reason = "";
}

-- The answer where a call may be refused with messages.
abbrev pub answer {ℓ} : {A : Type ℓ} → List Fault ⊎ A → Response
answer (inl faults) = redirect_with faults
answer (inr a) = redirect

-- A service called with its refusals shown to the user as messages.
abbrev pub respond {ℓ} : {A : Type ℓ} → Action A → Action Response
respond m = do outcome ← attempt m; pure (answer outcome)

-- What `form_valid` does behind `super().form_valid(form)`.
unfoldable pub after_publication :
    (ServiceRequest → String) → ℕ → List Fault ⊎ ServiceRequest → Action Response
after_publication describe user (inl faults) = pure (form_invalid faults)
after_publication describe user (inr r) = do
  modify (log_event (some user) "service_request.published" (Subject.service_request r.pk) [])
  modify (notify_compatible_professionals describe r)
  pure redirect

-- `form_valid`, reached where the form's own validation passed.
unfoldable pub publish_valid :
    (ServiceRequest → String) → ℕ → ServiceRequest → List Fault ⊎ Unit {0} → Action Response
publish_valid describe now r (inl faults) = pure (form_invalid faults)
publish_valid describe now r (inr _) = do
  saved ← attempt (insert_request now r)
  after_publication describe r.client.user saved

-- `ServiceRequestCreateView.post`. The form validates before it knows the client: only the fields
-- and the window are checked then.
unfoldable pub service_request_create :
    (ServiceRequest → String) → ℕ → Option ℕ → RequestForm → Action Response
service_request_create describe now user form = client_required user λ profile.
    let r = new_request now profile form in
    attempt (full_clean (request_field_faults r) (check_window r)) >>= publish_valid describe now r

-- What `form_valid` does behind `super().form_valid(form)`.
unfoldable pub after_application : ℕ → List Fault ⊎ Interest → Action Response
after_application user (inl faults) = pure (redirect_with faults)
after_application user (inr i) = do
  modify (
      log_event (some user) "interest.applied" (Subject.interest i.pk)
        (("service_request_id", Meta.key i.service_request) ∷ []))
  pure redirect

-- `InterestCreateView.post`: the form refuses a long message without a word.
unfoldable pub interest_create : Option ℕ → ℕ → String → Action Response
interest_create user pk message =
    professional_required user
      λ profile. if ltb 280 (text_length message) then pure redirect else apply profile
  where
    new_interest : ProfessionalProfile → ServiceRequest → Interest
    new_interest profile r = record {
      pk = 0;
      service_request = r.pk;
      professional = profile;
      message = message;
      status = InterestStatus.applied;
    }

    apply : ProfessionalProfile → Action Response
    apply profile = do
      r ← or_404 (← gets (λ d. first (λ r. r.pk == pk) d.requests))
      saved ← attempt (insert_interest (new_interest profile r) r)
      after_application profile.user saved

-- The interest with a key, and the call that it points to.
abbrev pub load_interest : ℕ → Action (Interest × ServiceRequest)
load_interest pk = do
  i ← or_404 (← gets (λ d. first (λ i. i.pk == pk) d.interests))
  r ← or_404 (← gets (λ d. first (λ r. r.pk == i.service_request) d.requests))
  pure (i, r)

-- `InterestWithdrawView.post`
unfoldable pub interest_withdraw : Option ℕ → ℕ → Action Response
interest_withdraw user pk = professional_required user λ profile. do
  i ← or_404 (← gets (λ d. first (λ i. i.pk == pk && i.professional.pk == profile.pk) d.interests))
  r ← or_404 (← gets (λ d. first (λ r. r.pk == i.service_request) d.requests))
  respond (withdraw_interest i r (some profile.user))

-- `SelectInterestView.post`
unfoldable pub select_interest_view : ℕ → Option ℕ → ℕ → Action Response
select_interest_view now user pk = client_required user λ profile. do
  found ← load_interest pk
  if found.1.client.pk == profile.pk then pure tt else raise permission_denied
  respond (select_interest now found.0 found.1 (some profile.user))

-- The call with a key, if it is the client's.
abbrev pub load_own : ClientProfile → ℕ → Action ServiceRequest
load_own profile pk = do
  or_404 (← gets (λ d. first (λ r. r.pk == pk && r.client.pk == profile.pk) d.requests))

-- `EndRequestView.post`
unfoldable pub end_request : ℕ → Option ℕ → ℕ → Action Response
end_request now user pk =
    client_required user
      λ profile. do r ← load_own profile pk; respond (close_request_now now r (some profile.user))

abbrev pub form_answer {ℓ} : {A : Type ℓ} → List Fault ⊎ A → Response
form_answer (inl faults) = form_invalid faults
form_answer (inr a) = redirect

-- `CancelRequestView.form_valid`
unfoldable pub cancel_request_view : ℕ → Option ℕ → ℕ → String → Action Response
cancel_request_view now user pk reason = client_required user λ profile. do
  r ← load_own profile pk
  outcome ← attempt (cancel_request now r (some profile.user) reason)
  pure (form_answer outcome)
