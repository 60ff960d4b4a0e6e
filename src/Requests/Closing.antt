-- ===== src/Requests/Closing.antt =====
-- What is left of the interests when a call ends: `close_request_now` and `cancel_request`.
use tucano.Prelude.{
  ◌≤◌, ◌<◌, sym, ◌∙◌, ℕ, ◌≡◌, ◌≢◌, refl, true, false, Option, some, String, List, [], ◌∷◌, ◌==◌,
  ◌&&◌, leb, ltb, arith, count, update, count-update_none, Bool-cases, inl, inr, ◌⊎◌, ◌+++◌,
}
use tucano.Models.{RequestStatus, ServiceRequest, InterestStatus, is_receiving, is_applied}
use tucano.Db.{Db, Fault, ok, err, validation_error, already_closed, not_cancellable}
use tucano.Audit.{log_event}
use tucano.Requests.Services.{
  is_remaining, is_selected_in, finalize_remaining_interests, selected_count, ending_status,
  end_interests, close_request_now, is_over, cancel_request,
}
use tucano.Requests.Saves.{request_faults, written, save_request-write_unless}
use tucano.Requests.Capacity.{count-finalize}

-- None of the call's interests is open any more, and as many as before are selected.
pub record Ends (r : ServiceRequest) (d d' : Db) : Type 0 where
  pub settled : count (is_remaining r) d'.interests ≡ 0
  pub kept : count (is_selected_in r) d'.interests ≡ count (is_selected_in r) d.interests

finalize-Ends :
    (r : ServiceRequest) (final : InterestStatus) (event_type body : String) (d : Db)
    → is_applied final ≡ false
    → final ≢ InterestStatus.selected
    → Ends r d (finalize_remaining_interests r final event_type body d)
unfolding finalize_remaining_interests
finalize-Ends r final event_type body d not_applied not_selected = record {
  settled =
      count-update_none (is_remaining r) (λ i. record i { status = final }) (is_remaining r)
        (λ i e. e) (λ i e. ground arith) d.interests;
  kept = count-finalize r r final d.interests not_selected;
}

finalize-requests :
    (r : ServiceRequest) (final : InterestStatus) (event_type body : String) (d : Db)
    → (finalize_remaining_interests r final event_type body d).requests ≡ d.requests
unfolding finalize_remaining_interests
finalize-requests r final event_type body d = refl

pub end_interests-Ends :
    (r : ServiceRequest) (selected : ℕ) (chosen_body none_body : String) (d : Db)
    → Ends r d (end_interests r selected chosen_body none_body d)
unfolding end_interests
end_interests-Ends r selected chosen_body none_body d =
    let turned_down =
      finalize-Ends r InterestStatus.not_selected "interest.not_selected" chosen_body d refl
        (λ e. cc) in
    let lapsed =
      finalize-Ends r InterestStatus.expired "interest.expired" none_body d refl (λ e. cc) in
    elim (Bool-cases (leb r.positions_count selected && ltb 0 r.positions_count)) [
      | inl full ↦ rw full turned_down
      | inr free ↦ rw free (elim (Bool-cases (ltb 0 selected)) [
        | inl some_selected ↦ rw some_selected turned_down
        | inr nobody ↦ rw nobody lapsed
      ])
    ]

pub end_interests-requests :
    (r : ServiceRequest) (selected : ℕ) (chosen_body none_body : String) (d : Db)
    → (end_interests r selected chosen_body none_body d).requests ≡ d.requests
unfolding end_interests finalize_remaining_interests
end_interests-requests r selected chosen_body none_body d = ground arith

-- The states in which a call receives interests, and those in which it cannot be cancelled.
abbrev pub Receives : RequestStatus → Type 0
Receives s = (s ≡ RequestStatus.receiving) ⊎ (s ≡ RequestStatus.partially_filled)

abbrev pub IsOver : RequestStatus → Type 0
IsOver s = (s ≡ RequestStatus.cancelled) ⊎ (s ≡ RequestStatus.completed)

is_receiving-Receives : (s : RequestStatus) → is_receiving s ≡ true → Receives s
is_receiving-Receives RequestStatus.receiving e = inl refl
is_receiving-Receives RequestStatus.partially_filled e = inr refl
is_receiving-Receives _ e = absurd (cc)

is_receiving-not : (s : RequestStatus) → is_receiving s ≡ false → ¬ Receives s
is_receiving-not s e (inl h) = absurd (ground arith)
is_receiving-not s e (inr h) = absurd (ground arith)

is_over-IsOver : (s : RequestStatus) → is_over s ≡ true → IsOver s
is_over-IsOver RequestStatus.cancelled e = inl refl
is_over-IsOver RequestStatus.completed e = inr refl
is_over-IsOver _ e = absurd (cc)

is_over-not : (s : RequestStatus) → is_over s ≡ false → ¬ IsOver s
is_over-not s e (inl h) = absurd (ground arith)
is_over-not s e (inr h) = absurd (ground arith)

-- The status of a call that stops receiving interests, by its selected professionals and its
-- positions.
pub record IsEnding (selected positions : ℕ) (status : RequestStatus) : Type 0 where
  pub full : 1 ≤ positions → positions ≤ selected → status ≡ RequestStatus.filled
  pub part : 1 ≤ selected → selected < positions → status ≡ RequestStatus.partially_filled
  pub nobody : selected ≡ 0 → status ≡ RequestStatus.expired

ending_status-IsEnding :
    (selected positions : ℕ) → IsEnding selected positions (ending_status selected positions)
ending_status-IsEnding selected positions = record {
  full = λ some_positions enough. ground arith;
  part = λ some_selected some_free. ground arith;
  nobody = λ none_selected. ground arith;
}

-- For a call with a key: closing one that does not receive interests is refused and changes
-- nothing. Closing one that does leaves no open interest and drops no selected one. Either its save
-- has no fault, and the row gets the time and its status: filled if every position it offers is
-- taken, partially filled if some are, expired if nobody is selected; or exactly the faults of the
-- save are raised, and the rows of the calls stay as they were.
pub close_request_now-cases :
    (now : ℕ) (r : ServiceRequest) (actor : Option ℕ) (d : Db)
    → r.pk ≢ 0
    → let selected = count (is_selected_in r) d.interests in
      let status = ending_status selected r.positions_count in
      let ended = record r { status = status; closed_at = some now } in
      let d' = (close_request_now now r actor d).1 in
      (¬ Receives r.status)
        × (close_request_now now r actor d ≡ (err (validation_error (already_closed ∷ [])), d))
      ⊎ Receives r.status
        × Ends r d d'
        × ((request_faults now ended d ≡ [])
              × IsEnding selected r.positions_count status
              × ((close_request_now now r actor d).0 ≡ ok ended)
              × (d'.requests
                  ≡ update
                      (λ q. q.pk == r.pk)
                      (λ q. record q { status = status; closed_at = some now })
                      d.requests)
            ⊎ (request_faults now ended d ≢ [])
              × ((close_request_now now r actor d).0
                  ≡ err (validation_error (request_faults now ended d)))
              × (d'.requests ≡ d.requests))
unfolding close_request_now selected_count log_event
close_request_now-cases now r actor d stored = elim (Bool-cases (is_receiving r.status)) [
  | inr over ↦ inl (is_receiving-not r.status over, ground arith)
  | inl receiving ↦
      let (ends_here, outcome) = saved receiving (request_faults now ended d₁) refl in
      inr (is_receiving-Receives r.status receiving, ends_here, outcome)
]
  where
    selected : ℕ
    selected = count (is_selected_in r) d.interests

    ended : ServiceRequest
    ended = record r { status = ending_status selected r.positions_count; closed_at = some now }

    write : ServiceRequest → ServiceRequest
    write q = record q { status = ended.status; closed_at = some now }

    d₁ : Db
    d₁ =
        end_interests ended selected
          ("O chamado \"" +++ r.title +++ "\" foi encerrado — outro profissional foi escolhido.")
          ("O chamado \"" +++ r.title +++ "\" foi encerrado sem seleção.") d

    ends : Ends r d d₁
    ends =
        let e = end_interests-Ends ended selected _ _ d in
        record { settled = e.settled; kept = e.kept }

    same_requests : d₁.requests ≡ d.requests
    same_requests = end_interests-requests ended selected _ _ d

    same_faults : request_faults now ended d₁ ≡ request_faults now ended d
    same_faults = rw same_requests refl

    saved :
        is_receiving r.status ≡ true
        → (fs : List Fault) → request_faults now ended d₁ ≡ fs
        → Ends r d (close_request_now now r actor d).1
          × ((request_faults now ended d ≡ [])
                × IsEnding selected r.positions_count ended.status
                × ((close_request_now now r actor d).0 ≡ ok ended)
                × ((close_request_now now r actor d).1.requests
                    ≡ update (λ q. q.pk == r.pk) write d.requests)
              ⊎ (request_faults now ended d ≢ [])
                × ((close_request_now now r actor d).0
                    ≡ err (validation_error (request_faults now ended d)))
                × ((close_request_now now r actor d).1.requests ≡ d.requests))
    saved receiving [] e =
        let write_or_not = save_request-write_unless now ended write d₁ stored in
        let same : (close_request_now now r actor d).1.interests ≡ d₁.interests = ground arith in
        (
          record { settled = ground (arith, ends.settled); kept = ground (arith, ends.kept) },
          inl (
            sym same_faults ∙ e,
            ending_status-IsEnding selected r.positions_count,
            ground arith,
            ground (arith, same_requests),
          ),
        )
    saved receiving (f ∷ fs) e =
        let write_or_not = save_request-write_unless now ended write d₁ stored in
        let same : (close_request_now now r actor d).1.interests ≡ d₁.interests = ground arith in
        let faults : request_faults now ended d ≡ f ∷ fs = sym same_faults ∙ e in
        (
          record { settled = ground (arith, ends.settled); kept = ground (arith, ends.kept) },
          inr (λ h. cc, rw faults (ground arith), ground (arith, same_requests)),
        )

-- For a call with a key: cancelling one that was cancelled or completed is refused and changes
-- nothing. Cancelling any other whose save has faults raises exactly those and changes nothing.
-- Cancelling any other whose save has none goes through: it leaves no open interest, drops no
-- selected one, and the row is cancelled with the reason and the time.
pub cancel_request-cases :
    (now : ℕ) (r : ServiceRequest) (actor : Option ℕ) (reason : String) (d : Db)
    → r.pk ≢ 0
    → let gone = record r {
      status = RequestStatus.cancelled;
      cancel_reason = reason;
      closed_at = some now;
    } in
      let d' = (cancel_request now r actor reason d).1 in
      IsOver r.status
        × (cancel_request now r actor reason d ≡ (err (validation_error (not_cancellable ∷ [])), d))
      ⊎ (¬ IsOver r.status)
        × (request_faults now gone d ≢ [])
        × (cancel_request now r actor reason d
            ≡ (err (validation_error (request_faults now gone d)), d))
      ⊎ (¬ IsOver r.status)
        × (request_faults now gone d ≡ [])
        × ((cancel_request now r actor reason d).0 ≡ ok gone)
        × Ends r d d'
        × (d'.requests
            ≡ update
                (λ q. q.pk == r.pk)
                (λ q. record q {
                  status = RequestStatus.cancelled;
                  cancel_reason = reason;
                  closed_at = some now;
                })
                d.requests)
unfolding cancel_request log_event
cancel_request-cases now r actor reason d stored = elim (Bool-cases (is_over r.status)) [
  | inl over ↦ inl (is_over-IsOver r.status over, ground arith)
  | inr going ↦ inr (saved going (request_faults now gone d) refl)
]
  where
    write : ServiceRequest → ServiceRequest
    write q = record q {
      status = RequestStatus.cancelled;
      cancel_reason = reason;
      closed_at = some now;
    }

    gone : ServiceRequest
    gone = record r {
      status = RequestStatus.cancelled;
      cancel_reason = reason;
      closed_at = some now;
    }

    d₁ : Db
    d₁ =
        finalize_remaining_interests gone InterestStatus.expired "service_request.cancelled"
          ("O chamado \"" +++ r.title +++ "\" foi cancelado. Motivo: " +++ reason)
          (written gone write d)

    ends : Ends gone (written gone write d) d₁
    ends = finalize-Ends gone InterestStatus.expired _ _ (written gone write d) refl (λ e. cc)

    same_requests : d₁.requests ≡ (written gone write d).requests
    same_requests = finalize-requests gone InterestStatus.expired _ _ (written gone write d)

    saved :
        is_over r.status ≡ false
        → (fs : List Fault) → request_faults now gone d ≡ fs
        → (¬ IsOver r.status)
            × (request_faults now gone d ≢ [])
            × (cancel_request now r actor reason d
                ≡ (err (validation_error (request_faults now gone d)), d))
          ⊎ (¬ IsOver r.status)
            × (request_faults now gone d ≡ [])
            × ((cancel_request now r actor reason d).0 ≡ ok gone)
            × Ends r d (cancel_request now r actor reason d).1
            × ((cancel_request now r actor reason d).1.requests
                ≡ update (λ q. q.pk == r.pk) write d.requests)
    saved going [] e =
        let write_or_not = save_request-write_unless now gone write d stored in
        let same : (cancel_request now r actor reason d).1.interests ≡ d₁.interests =
          ground arith in
        inr (
          is_over-not r.status going,
          e,
          ground arith,
          record { settled = ground (arith, ends.settled); kept = ground (arith, ends.kept) },
          ground (arith, same_requests),
        )
    saved going (f ∷ fs) e =
        let write_or_not = save_request-write_unless now gone write d stored in
        inl (is_over-not r.status going, λ h. cc, rw e (ground arith))
