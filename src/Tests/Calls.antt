-- ===== src/Tests/Calls.antt =====
-- The theorems on calls and interests at a concrete database.
use tucano.Prelude.{
  ◌≤◌, ◌≡◌, ◌≢◌, refl, some, [], ◌∷◌, arith, count, exists, filter, first, update, ◌==◌, ◌⊎◌,
}
use tucano.Models.{two_hours, Interest, ClientProfile, ServiceRequest}
use tucano.Db.{ok, err, validation_error, recent_duplicate}
use tucano.Http.{redirect}
use tucano.Audit.{log_event}
use tucano.Notifications.{preference_for, dispatch_notification, notify_professionals}
use tucano.Requests.Clean.{
  check_window, check_duplicate, check_quota, clean_request, request_field_faults, save_request,
  interest_faults, save_interest_status,
}
use tucano.Requests.Services.{
  finalize_remaining_interests, selected_count, get_or_create_conversation, fill_request,
  keep_receiving, announce_selection, select_interest,
}
use tucano.Requests.Views.{RequestForm, service_request_create, select_interest_view}
use tucano.Requests.Announcing.{Tells, service_request_create-Tells}
use tucano.Requests.Saves.{Passes, Clashes}
use tucano.Requests.Selection.{chosen, interests_after}
use tucano.Requests.Capacity.{KeysUnique, WithinCapacity}
use tucano.Requests.Access.{select_interest_view-cases, Selects}
use tucano.Requests.Selecting.{select_interest_view-WithinCapacity}
use tucano.Requests.Refusals.{select_interest-total, select_interest-half_done}
use tucano.Tests.Sample.{call, interest, base, crowded}

base-KeysUnique : KeysUnique base
unfolding count
base-KeysUnique = record {
  requests = λ k. ground arith;
  interests = λ k. ground arith;
  saved = (ground arith, tt);
}

base-WithinCapacity : WithinCapacity base
unfolding count
base-WithinCapacity = (record { free = λ e. ground arith; bound = ground arith }, tt)

base-selects : (select_interest_view 1000 (some 1) 200 base).0 ≡ ok redirect
unfolding select_interest_view select_interest selected_count fill_request keep_receiving
    announce_selection get_or_create_conversation finalize_remaining_interests save_request
    save_interest_status interest_faults clean_request check_window check_duplicate check_quota
    request_field_faults notify_professionals dispatch_notification preference_for log_event filter
    exists count first update
base-selects = refl

select_interest_view-WithinCapacity_example :
    WithinCapacity (select_interest_view 1000 (some 1) 200 base).1
select_interest_view-WithinCapacity_example =
    select_interest_view-WithinCapacity 1000 (some 1) 200 base base-KeysUnique base-WithinCapacity
      base-selects

select_interest_view-cases_example :
    (((select_interest_view 1000 (some 1) 200 base).1 ≡ base)
      × ((select_interest_view 1000 (some 1) 200 base).0 ≢ ok redirect))
    ⊎ ((c : ClientProfile) × (i : Interest) × (r : ServiceRequest) × Selects 1000
          (some 1)
          200
          c
          i
          r
          base)
select_interest_view-cases_example = select_interest_view-cases 1000 (some 1) 200 base

call-Passes : Passes 1000 call base
unfolding request_field_faults exists
call-Passes = record { stored = ground arith; fields = refl; window = refl; single = refl }

interest_sound : interest_faults (chosen interest) call base ≡ []
unfolding interest_faults exists
interest_sound = refl

select_interest-total_example :
    ((select_interest 1000 interest call (some 1) base).0 ≡ ok (chosen interest))
    × (1
        ≤ count
            (λ c. c.interest == 200)
            (select_interest 1000 interest call (some 1) base).1.conversations)
select_interest-total_example =
    select_interest-total 1000 interest call (some 1) base refl refl interest_sound call-Passes

call-Clashes : Clashes 1000 call crowded
unfolding request_field_faults exists
call-Clashes = record { stored = ground arith; fields = refl; window = refl; duplicate = refl }

interest_sound_crowded : interest_faults (chosen interest) call crowded ≡ []
unfolding interest_faults exists
interest_sound_crowded = refl

select_interest-half_done_example :
    ((select_interest 1000 interest call (some 1) crowded).0
      ≡ err (validation_error (recent_duplicate ∷ [])))
    × ((select_interest 1000 interest call (some 1) crowded).1.interests
        ≡ interests_after interest call crowded)
    × ((select_interest 1000 interest call (some 1) crowded).1.requests ≡ crowded.requests)
    × ((select_interest 1000 interest call (some 1) crowded).1.conversations
        ≡ crowded.conversations)
select_interest-half_done_example =
    select_interest-half_done 1000 interest call (some 1) crowded refl refl interest_sound_crowded
      call-Clashes

abbrev wall : RequestForm
wall = record {
  category = 7;
  title = "Muro";
  description = "Um muro";
  positions_count = 2;
  scheduled_start = 20000;
  location_label = "";
  interest_window = two_hours;
}

service_request_create-Tells_example :
    let call = service_request_create (λ r. r.title) 1000 (some 1) wall in
    ((call base).0 ≢ ok redirect)
      × ((call base).1.requests ≡ base.requests)
      × ((call base).1.mail ≡ base.mail)
    ⊎ ((call base).0 ≡ ok redirect) × Tells (λ r. r.title) 1000 1 wall base (call base).1
service_request_create-Tells_example = service_request_create-Tells (λ r. r.title) 1000 1 wall base
