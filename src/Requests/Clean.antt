-- ===== src/Requests/Clean.antt =====
-- The validation and the saving of `ServiceRequest` and `Interest`, apps/requests/models.py.
-- Django's `full_clean` collects the faults of the single fields, of `clean` and of the unique
-- constraints, and raises them together.
use Prim.Native.String.{count as text_length}
use tucano.Prelude.{
  ℕ, ◌+◌, Bool, Option, none, some, List, [], ◌∷◌, ◌++◌, ◌&&◌, not, ◌==◌, leb, ltb, is_blank,
  filter, exists, update, if◌then◌else◌, ◌||◌,
}
use tucano.Models.{
  InterestWindow, two_hours, five_hours, one_day, three_days, window_duration, ServiceRequest,
  Interest, is_receiving,
}
use tucano.Db.{
  Db, Fault, window_too_long, no_window, recent_duplicate, quota_reached, invalid_field,
  not_receiving, already_interested, validation_error, ok, err, Action, pure, raise, gets, ◌>>=◌,
  ◌>>◌, modify, refuse_if, fresh_pk,
}
use tucano.Subscriptions.Limits.{can_client_publish_request}

-- One fault if the test holds.
abbrev pub fault_if : Bool → Fault → List Fault
fault_if test fault = if test then fault ∷ [] else []

-- `Model.full_clean`: the faults of `clean` come behind those of the fields.
abbrev pub full_clean : List Fault → Action (Unit {0}) → Action (Unit {0})
full_clean fields clean d =
    let (r, d') = clean d in
    (
      elim r [
        | ok _ ↦ elim fields [ [] ↦ ok tt | f ∷ fs ↦ err (validation_error (f ∷ fs)) ]
        | err e ↦ elim e [
          | validation_error faults ↦ err (validation_error (fields ++ faults))
          | other ↦ err other
        ]
      ],
      d',
    )

-- Whether a window that opens at `published_at` closes by the time of the service.
abbrev pub window_fits : ServiceRequest → InterestWindow → Bool
window_fits r w = leb (r.published_at + window_duration w) r.scheduled_start

abbrev pub all_windows : List InterestWindow
all_windows = two_hours ∷ five_hours ∷ one_day ∷ three_days ∷ []

abbrev pub window_fault : List InterestWindow → Fault
window_fault [] = no_window
window_fault (w ∷ ws) = window_too_long (w ∷ ws)

-- The first part of `ServiceRequest.clean`: the refusal names the windows that would fit.
unfoldable pub check_window : ServiceRequest → Action (Unit {0})
check_window r =
    refuse_if (ltb r.scheduled_start (r.published_at + window_duration r.interest_window))
      (window_fault (filter (window_fits r) all_windows))

-- Another call of the same client and category, still receiving and at most five minutes old.
abbrev pub is_duplicate : ℕ → ServiceRequest → ServiceRequest → Bool
is_duplicate now r q =
    q.client.pk == r.client.pk
    && q.category == r.category
    && is_receiving q.status
    && leb now (q.published_at + 300)
    && not (q.pk == r.pk)

unfoldable pub check_duplicate : ℕ → ServiceRequest → Action (Unit {0})
check_duplicate now r = do
  duplicate ← gets (λ d. exists (is_duplicate now r) d.requests)
  refuse_if duplicate recent_duplicate

-- The quota is asked for a call that is not stored yet.
unfoldable pub check_quota : ℕ → ServiceRequest → Action (Unit {0})
check_quota now r = if r.pk == 0 then ask else pure tt
  where
    ask : Action (Unit {0})
    ask = do
      allowed ← can_client_publish_request now r.client.user
      refuse_if (not allowed) quota_reached

-- `ServiceRequest.clean`
unfoldable pub clean_request : ℕ → ServiceRequest → Action (Unit {0})
clean_request now r = do check_window r; check_duplicate now r; check_quota now r

-- The columns' own checks: a title and a description, the texts' lengths, and one position at
-- least.
unfoldable pub request_field_faults : ServiceRequest → List Fault
request_field_faults r =
    fault_if (is_blank r.title || ltb 150 (text_length r.title)) invalid_field
    ++ fault_if (is_blank r.description) invalid_field
    ++ fault_if (ltb r.positions_count 1 || ltb 32767 r.positions_count) invalid_field
    ++ fault_if (ltb 150 (text_length r.location_label)) invalid_field
    ++ fault_if (ltb 255 (text_length r.cancel_reason)) invalid_field

abbrev pub with_expiry : ServiceRequest → Option ℕ
with_expiry r = elim r.expires_at [
  | none ↦ some (r.published_at + window_duration r.interest_window)
  | some t ↦ some t
]

-- `ServiceRequest.save` of a new row: validated, given its expiry and inserted.
unfoldable pub insert_request : ℕ → ServiceRequest → Action ServiceRequest
insert_request now r = do
  full_clean (request_field_faults r) (clean_request now r)
  pk ← fresh_pk
  let stored = record r { pk = pk; expires_at = with_expiry r }
  modify (λ d. record d { requests = d.requests ++ (stored ∷ []) })
  pure stored

-- `ServiceRequest.save(update_fields=...)` of a stored row: `write` sets those columns.
unfoldable pub save_request :
    ℕ → ServiceRequest → (ServiceRequest → ServiceRequest) → Action (Unit {0})
save_request now r write = do
  full_clean (request_field_faults r) (clean_request now r)
  modify (λ d. record d { requests = update (λ q. q.pk == r.pk) write d.requests })

abbrev pub same_pair : Interest → Interest → Bool
same_pair i j =
    j.service_request == i.service_request
    && j.professional.pk == i.professional.pk
    && not (j.pk == i.pk)

-- `full_clean` of an interest in `r`: its field, `clean`, and the constraint
-- `unique_interest_per_request`.
unfoldable pub interest_faults : Interest → ServiceRequest → Db → List Fault
interest_faults i r d =
    fault_if (ltb 280 (text_length i.message)) invalid_field
    ++ fault_if (not (is_receiving r.status)) not_receiving
    ++ fault_if (exists (same_pair i) d.interests) already_interested

abbrev pub raise_faults : List Fault → Action (Unit {0})
raise_faults [] = pure tt
raise_faults (f ∷ fs) = raise (validation_error (f ∷ fs))

-- `Interest.save` of a new row.
unfoldable pub insert_interest : Interest → ServiceRequest → Action Interest
insert_interest i r = do
  raise_faults (← gets (interest_faults i r))
  pk ← fresh_pk
  let stored = record i { pk = pk }
  modify (λ d. record d { interests = d.interests ++ (stored ∷ []) })
  pure stored

-- `Interest.save(update_fields=["status"])`
unfoldable pub save_interest_status : Interest → ServiceRequest → Action (Unit {0})
save_interest_status i r = do
  raise_faults (← gets (interest_faults i r))
  modify (λ d. record d {
    interests = update (λ j. j.pk == i.pk) (λ j. record j { status = i.status }) d.interests;
  })
