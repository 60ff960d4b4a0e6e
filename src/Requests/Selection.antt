-- ===== src/Requests/Selection.antt =====
-- `select_interest` against a description of the tables that it leaves.
use tucano.Prelude.{
  ℕ, ◌≡◌, ◌≢◌, Bool, true, Option, some, List, ◌==◌, leb, arith, count, update, if◌then◌else◌,
}
use tucano.Models.{
  RequestStatus, ServiceRequest, InterestStatus, Interest, is_receiving, is_applied,
}
use tucano.Db.{Db, ok}
use tucano.Requests.Services.{
  is_remaining, is_selected_in, finalize_remaining_interests, selected_count, fill_request,
  keep_receiving, announce_selection, get_or_create_conversation, select_interest,
}
use tucano.Requests.Saves.{with_status, save_request-write_unless, save_interest-write_unless}
use tucano.Audit.{log_event}

-- The interest, chosen.
abbrev pub chosen : Interest → Interest
chosen i = record i { status = InterestStatus.selected }

-- Whether the selection takes the last position of the call.
abbrev pub fills : Interest → ServiceRequest → Db → Bool
fills i r d = leb r.positions_count (count (is_selected_in r) (with_status (chosen i) d.interests))

-- The interests after a selection: where it fills the call, the others are turned down.
abbrev pub interests_after : Interest → ServiceRequest → Db → List Interest
interests_after i r d =
    if fills i r d
    then update (is_remaining r) (λ j. record j { status = InterestStatus.not_selected })
        (with_status (chosen i) d.interests)
    else with_status (chosen i) d.interests

-- The calls after a selection.
abbrev pub requests_after : ℕ → Interest → ServiceRequest → Db → List ServiceRequest
requests_after now i r d =
    if fills i r d
    then update (λ q. q.pk == r.pk)
        (λ q. record q { status = RequestStatus.filled; closed_at = some now }) d.requests
    else update (λ q. q.pk == r.pk) (λ q. record q { status = RequestStatus.partially_filled })
        d.requests

-- What a selection that went through has done.
pub record IsSelection (now : ℕ) (i : Interest) (r : ServiceRequest) (d d' : Db) : Type 0 where
  pub receiving : is_receiving r.status ≡ true
  pub applied : is_applied i.status ≡ true
  pub interests : d'.interests ≡ interests_after i r d
  pub requests : d'.requests ≡ requests_after now i r d

fill_request-ok :
    (now : ℕ) (r : ServiceRequest) (d : Db)
    → r.pk ≢ 0
    → (fill_request now r d).0 ≡ ok tt
    → ((fill_request now r d).1.interests
        ≡ update
            (is_remaining r)
            (λ j. record j { status = InterestStatus.not_selected })
            d.interests)
      × ((fill_request now r d).1.requests
          ≡ update
              (λ q. q.pk == r.pk)
              (λ q. record q { status = RequestStatus.filled; closed_at = some now })
              d.requests)
unfolding fill_request finalize_remaining_interests
fill_request-ok now r d h e = grind (arith, save_request-write_unless)

keep_receiving-ok :
    (now : ℕ) (r : ServiceRequest) (d : Db)
    → r.pk ≢ 0
    → (keep_receiving now r d).0 ≡ ok tt
    → ((keep_receiving now r d).1.interests ≡ d.interests)
      × ((keep_receiving now r d).1.requests
          ≡ update
              (λ q. q.pk == r.pk)
              (λ q. record q { status = RequestStatus.partially_filled })
              d.requests)
unfolding keep_receiving
keep_receiving-ok now r d h e = grind (arith, save_request-write_unless)

-- The last steps of a selection touch neither table.
announce_selection-frame :
    (i : Interest) (r : ServiceRequest) (actor : Option ℕ) (d : Db)
    → ((announce_selection i r actor d).0 ≡ ok tt)
      × ((announce_selection i r actor d).1.interests ≡ d.interests)
      × ((announce_selection i r actor d).1.requests ≡ d.requests)
unfolding announce_selection get_or_create_conversation log_event
announce_selection-frame i r actor d = ground arith

pub select-ok :
    (now : ℕ) (i : Interest) (r : ServiceRequest) (actor : Option ℕ) (d : Db) {a : Interest}
    → r.pk ≢ 0
    → (select_interest now i r actor d).0 ≡ ok a
    → IsSelection now i r d (select_interest now i r actor d).1
unfolding select_interest selected_count
select-ok now i r actor d h e =
    let d₁ = record d { interests = with_status (chosen i) d.interests } in
    ground (
      arith,
      save_interest-write_unless (chosen i) r d,
      fill_request-ok now r d₁,
      keep_receiving-ok now r d₁,
      announce_selection-frame (chosen i) r actor (fill_request now r d₁).1,
      announce_selection-frame (chosen i) r actor (keep_receiving now r d₁).1,
    )
