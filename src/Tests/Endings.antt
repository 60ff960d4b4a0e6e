-- ===== src/Tests/Endings.antt =====
-- The theorems on how calls are published, applied for and ended, at a concrete database.
use tucano.Prelude.{
  ◌≢◌, ℕ, ◌+◌, ◌≤◌, ◌<◌, ◌≡◌, refl, true, false, none, some, [], ◌∷◌, ◌++◌, arith, count, exists,
  filter, first, update, ◌==◌, ◌&&◌, ◌⊎◌, length, All,
}
use tucano.Models.{RequestStatus, ServiceRequest, window_duration, is_premium}
use tucano.Db.{not_cancellable, Db, ok, err, validation_error, already_closed}
use tucano.Subscriptions.Limits.{for_user, can_client_publish_request, counts_for_quota}
use tucano.Subscriptions.Premium.{has_premium}
use tucano.Requests.Clean.{
  insert_request, clean_request, check_window, check_duplicate, check_quota, is_duplicate,
  request_field_faults,
}
use tucano.Requests.Services.{
  is_remaining, is_selected_in, is_due, ending_status, close_request_now, cancel_request,
  expire_request, expire_due_requests,
}
use tucano.Requests.Views.{interest_create}
use tucano.Requests.Saves.{Passes}
use tucano.Requests.Saves.{request_faults}
use tucano.Requests.Closing.{
  Receives, IsOver, IsEnding, Ends, close_request_now-cases, cancel_request-cases,
}
use tucano.Requests.Publishing.{insert_request-checked}
use tucano.Requests.Totality.{IsValid, expire_due_requests-total}
use tucano.Requests.Rounds.{Shrinks}
use tucano.Requests.Expiry.{expire_due_requests-settles, expire_request-still_due}
use tucano.Requests.Applying.{OneInterestEach, interest_create-OneInterestEach}
use tucano.Tests.Sample.{call, interest, chosen_interest, second_interest, base}

abbrev ended : ServiceRequest
ended = record call {
  status = ending_status (count (is_selected_in call) base.interests) 1;
  closed_at = some 1000;
}

close_request_now-cases_example :
    (¬ Receives call.status)
      × (close_request_now 1000 call (some 1) base
          ≡ (err (validation_error (already_closed ∷ [])), base))
    ⊎ Receives call.status
      × Ends call base (close_request_now 1000 call (some 1) base).1
      × ((request_faults 1000 ended base ≡ [])
            × IsEnding (count (is_selected_in call) base.interests) 1 ended.status
            × ((close_request_now 1000 call (some 1) base).0 ≡ ok ended)
            × ((close_request_now 1000 call (some 1) base).1.requests
                ≡ update
                    (λ q. q.pk == 100)
                    (λ q. record q { status = ended.status; closed_at = some 1000 })
                    base.requests)
          ⊎ (request_faults 1000 ended base ≢ [])
            × ((close_request_now 1000 call (some 1) base).0
                ≡ err (validation_error (request_faults 1000 ended base)))
            × ((close_request_now 1000 call (some 1) base).1.requests ≡ base.requests))
close_request_now-cases_example =
    close_request_now-cases 1000 call (some 1) base (λ e. absurd (ground arith))

abbrev gone : ServiceRequest
gone = record call {
  status = RequestStatus.cancelled;
  cancel_reason = "chuva";
  closed_at = some 1000;
}

cancel_request-cases_example :
    IsOver call.status
      × (cancel_request 1000 call (some 1) "chuva" base
          ≡ (err (validation_error (not_cancellable ∷ [])), base))
    ⊎ (¬ IsOver call.status)
      × (request_faults 1000 gone base ≢ [])
      × (cancel_request 1000 call (some 1) "chuva" base
          ≡ (err (validation_error (request_faults 1000 gone base)), base))
    ⊎ (¬ IsOver call.status)
      × (request_faults 1000 gone base ≡ [])
      × ((cancel_request 1000 call (some 1) "chuva" base).0 ≡ ok gone)
      × Ends call base (cancel_request 1000 call (some 1) "chuva" base).1
      × ((cancel_request 1000 call (some 1) "chuva" base).1.requests
          ≡ update
              (λ q. q.pk == 100)
              (λ q. record q {
                status = RequestStatus.cancelled;
                cancel_reason = "chuva";
                closed_at = some 1000;
              })
              base.requests)
cancel_request-cases_example =
    cancel_request-cases 1000 call (some 1) "chuva" base (λ e. absurd (ground arith))

-- A call that is new, and an empty market.
abbrev new_call : ServiceRequest
new_call = record call { pk = 0; expires_at = none }

abbrev published : ServiceRequest
published = record call { pk = 1000 }

abbrev empty : Db
empty = record base { requests = []; interests = [] }

new_call-stored : (insert_request 0 new_call empty).0 ≡ ok published
unfolding insert_request clean_request check_window check_duplicate check_quota request_field_faults
    can_client_publish_request for_user is_premium count exists first
new_call-stored = refl

insert_request-checked_example :
    ((insert_request 0 new_call empty).1.requests ≡ empty.requests ++ (published ∷ []))
    × (published.expires_at ≡ some (0 + window_duration call.interest_window))
    × (0 + window_duration call.interest_window ≤ published.scheduled_start)
    × (exists (is_duplicate 0 new_call) empty.requests ≡ false)
    × (has_premium 1 empty ≡ false
        → count (counts_for_quota 0 1) (insert_request 0 new_call empty).1.requests ≤ 5)
insert_request-checked_example =
    insert_request-checked 0 new_call empty published refl refl new_call-stored

expire_due_requests-settles_example :
    Shrinks base (expire_due_requests 8000 base).1
    × ((m : ℕ)
        → (expire_due_requests 8000 base).0 ≡ ok m
        → (m ≡ length (filter (is_due 8000) base.requests))
          × All
              (λ r. count (is_remaining r) (expire_due_requests 8000 base).1.interests ≡ 0)
              (filter (is_due 8000) base.requests))
expire_due_requests-settles_example =
    expire_due_requests-settles 8000 base (λ e. absurd (ground arith), tt)

base-IsValid : All (IsValid 8000 base) (filter (is_due 8000) base.requests)
unfolding filter exists request_field_faults
base-IsValid = (record { stored = ground arith; fields = refl; window = refl; alone = refl }, tt)

expire_due_requests-total_example :
    ((expire_due_requests 8000 base).0 ≡ ok (length (filter (is_due 8000) base.requests)))
    × All
        (λ r. count (is_remaining r) (expire_due_requests 8000 base).1.interests ≡ 0)
        (filter (is_due 8000) base.requests)
expire_due_requests-total_example =
    expire_due_requests-total 8000 base (λ e. absurd (ground arith), tt) base-IsValid

-- A call for two, with one selected.
abbrev half_filled : ServiceRequest
half_filled = record call { positions_count = 2; status = RequestStatus.partially_filled }

abbrev half : Db
half = record base {
  requests = half_filled ∷ [];
  interests = chosen_interest ∷ second_interest ∷ [];
}

half-found : first (λ q. q.pk == 100) half.requests ≡ some half_filled
unfolding first
half-found = refl

half-some : 1 ≤ count (is_selected_in half_filled) half.interests
unfolding count
half-some = ground arith

half-free : count (is_selected_in half_filled) half.interests < 2
unfolding count
half-free = ground arith

half-Passes : Passes 8000 half_filled half
unfolding request_field_faults exists
half-Passes = record { stored = ground arith; fields = refl; window = refl; single = refl }

expire_request-still_due_example :
    ((expire_request 8000 half_filled half).0 ≡ ok tt)
    × (exists (λ q. q.pk == 100 && is_due 8000 q) (expire_request 8000 half_filled half).1.requests
        ≡ true)
expire_request-still_due_example =
    expire_request-still_due 8000 half_filled half half-found refl half-some half-free half-Passes

-- Only the first painter has applied.
abbrev one_applied : Db
one_applied = record base { interests = interest ∷ [] }

one_applied-OneInterestEach : OneInterestEach one_applied
unfolding count
one_applied-OneInterestEach call professional = ground arith

interest_create-OneInterestEach_example :
    OneInterestEach (interest_create (some 3) 100 "oi" one_applied).1
interest_create-OneInterestEach_example =
    interest_create-OneInterestEach 3 100 "oi" one_applied (λ e. absurd (ground arith), tt)
      one_applied-OneInterestEach
