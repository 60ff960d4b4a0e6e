-- ===== src/Requests/Saves.antt =====
-- What a save does: either it raises and writes nothing, or it writes its columns.
use mathlib.Core.List.{append-nil}
use tucano.Prelude.{
  ℕ, ◌+◌, ◌≡◌, ◌≢◌, refl, true, false, List, [], ◌∷◌, ◌++◌, ◌==◌, ltb, arith, exists, filter,
  update, if◌then◌else◌,
}
use tucano.Models.{window_duration, ServiceRequest, Interest}
use tucano.Db.{Db, Fault, recent_duplicate, validation_error, Result, ok, err}
use tucano.Requests.Clean.{
  clean_request, check_window, check_duplicate, check_quota, is_duplicate, window_fits,
  window_fault, all_windows, request_field_faults, save_request, interest_faults,
  save_interest_status,
}

-- The rows that a save of the call `r` leaves.
abbrev pub written : ServiceRequest → (ServiceRequest → ServiceRequest) → Db → Db
written r write d = record d { requests = update (λ q. q.pk == r.pk) write d.requests }

-- What `ServiceRequest.save` of a stored row asks for.
pub record Passes (now : ℕ) (r : ServiceRequest) (d : Db) : Type 0 where
  pub stored : r.pk ≢ 0
  pub fields : request_field_faults r ≡ []
  pub window : ltb r.scheduled_start (r.published_at + window_duration r.interest_window) ≡ false
  pub single : exists (is_duplicate now r) d.requests ≡ false

pub save-Passes :
    (now : ℕ) (r : ServiceRequest) (write : ServiceRequest → ServiceRequest) (d : Db)
    → Passes now r d
    → save_request now r write d ≡ (ok tt, written r write d)
unfolding save_request clean_request check_window check_duplicate check_quota
save-Passes now r write d h = ground arith

-- The faults for which the save of a stored row is refused.
abbrev pub clean_faults : ℕ → ServiceRequest → Db → List Fault
clean_faults now r d =
    if ltb r.scheduled_start (r.published_at + window_duration r.interest_window)
    then window_fault (filter (window_fits r) all_windows) ∷ []
    else if exists (is_duplicate now r) d.requests
    then recent_duplicate ∷ []
    else []

abbrev pub request_faults : ℕ → ServiceRequest → Db → List Fault
request_faults now r d = request_field_faults r ++ clean_faults now r d

-- A write that faults prevent.
abbrev pub write_unless : List Fault → Db → Db → Result (Unit {0}) × Db
write_unless [] after before = (ok tt, after)
write_unless (f ∷ fs) after before = (err (validation_error (f ∷ fs)), before)

-- The save of a stored row raises all its faults and writes nothing, or has none and writes.
pub save_request-write_unless :
    (now : ℕ) (r : ServiceRequest) (write : ServiceRequest → ServiceRequest) (d : Db)
    → r.pk ≢ 0
    → save_request now r write d ≡ write_unless (request_faults now r d) (written r write d) d
unfolding save_request clean_request check_window check_duplicate check_quota
save_request-write_unless now r write d h = go (request_field_faults r) refl
  where
    go :
        (fs : List Fault)
        → request_field_faults r ≡ fs
        → save_request now r write d ≡ write_unless (request_faults now r d) (written r write d) d
    go [] e = ground arith
    go (f ∷ fs) e = ground (arith, append-nil (f ∷ fs))

-- The interests after the status of one is saved.
abbrev pub with_status : Interest → List Interest → List Interest
with_status i = update (λ j. j.pk == i.pk) (λ j. record j { status = i.status })

pub save_interest-write_unless :
    (i : Interest) (r : ServiceRequest) (d : Db)
    → save_interest_status i r d
      ≡ write_unless (interest_faults i r d) (record d { interests = with_status i d.interests }) d
unfolding save_interest_status
save_interest-write_unless i r d = go (interest_faults i r d) refl
  where
    go :
        (fs : List Fault)
        → interest_faults i r d ≡ fs
        → save_interest_status i r d
          ≡ write_unless
              (interest_faults i r d)
              (record d { interests = with_status i d.interests })
              d
    go [] e = ground arith
    go (f ∷ fs) e = ground arith

-- A call that would be saved, but for another recent one of the same client and category.
pub record Clashes (now : ℕ) (r : ServiceRequest) (d : Db) : Type 0 where
  pub stored : r.pk ≢ 0
  pub fields : request_field_faults r ≡ []
  pub window : ltb r.scheduled_start (r.published_at + window_duration r.interest_window) ≡ false
  pub duplicate : exists (is_duplicate now r) d.requests ≡ true

pub save-Clashes :
    (now : ℕ) (r : ServiceRequest) (write : ServiceRequest → ServiceRequest) (d : Db)
    → Clashes now r d
    → save_request now r write d ≡ (err (validation_error (recent_duplicate ∷ [])), d)
unfolding save_request clean_request check_window check_duplicate
save-Clashes now r write d h = ground arith
