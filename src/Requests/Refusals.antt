-- ===== src/Requests/Refusals.antt =====
-- When `select_interest` goes through, and what it leaves behind when the last save is refused.
use tucano.Prelude.{
  ℕ, ◌≡◌, true, Option, some, [], ◌∷◌, ◌≤◌, ◌==◌, arith, count, update, ◌+++◌, count-append,
  count-first-pos, Option-cases, first, inl, inr,
}
use tucano.Models.{
  InterestStatus, RequestStatus, ServiceRequest, Interest, is_receiving, is_applied,
}
use tucano.Db.{Db, ok, err, validation_error, recent_duplicate}
use tucano.Audit.{log_event}
use tucano.Requests.Clean.{interest_faults, request_field_faults}
use tucano.Requests.Services.{
  is_remaining, select_interest, fill_request, keep_receiving, announce_selection,
  finalize_remaining_interests, selected_count, get_or_create_conversation,
}
use tucano.Requests.Saves.{
  Passes, save-Passes, Clashes, save-Clashes, save_interest-write_unless, with_status,
}
use tucano.Requests.Selection.{chosen, interests_after}

fill_request-Passes :
    (now : ℕ) (r : ServiceRequest) (d : Db) → Passes now r d → (fill_request now r d).0 ≡ ok tt
unfolding fill_request finalize_remaining_interests request_field_faults
fill_request-Passes now r d h =
    let filled = record r { status = RequestStatus.filled; closed_at = some now } in
    let d₁ =
      finalize_remaining_interests filled InterestStatus.not_selected "interest.not_selected"
        ("Outro profissional foi escolhido para \"" +++ r.title +++ "\".") d in
    let passes : Passes now filled d₁ = record {
      stored = h.stored;
      fields = h.fields;
      window = h.window;
      single = h.single;
    } in
    ground (
      arith,
      save-Passes now filled (λ q. record q { status = RequestStatus.filled; closed_at = some now })
          d₁ passes,
    )

keep_receiving-Passes :
    (now : ℕ) (r : ServiceRequest) (d : Db) → Passes now r d → (keep_receiving now r d).0 ≡ ok tt
unfolding keep_receiving request_field_faults
keep_receiving-Passes now r d h = grind (arith, save-Passes)

announce_selection-conversation :
    (i : Interest) (r : ServiceRequest) (actor : Option ℕ) (d : Db)
    → ((announce_selection i r actor d).0 ≡ ok tt)
      × (1 ≤ count (λ c. c.interest == i.pk) (announce_selection i r actor d).1.conversations)
unfolding announce_selection get_or_create_conversation log_event count
announce_selection-conversation i r actor d =
    elim (Option-cases (first (λ c. c.interest == i.pk) d.conversations)) [
      | inl none_yet ↦ ground (
        arith,
        count-append (λ c. c.interest == i.pk) d.conversations
            ((record { pk = d.next_pk; interest = i.pk }) ∷ []),
      )
      | inr (c, there) ↦ ground (arith, count-first-pos (λ c. c.interest == i.pk) d.conversations c)
    ]

-- A selection goes through if the call receives interests, the interest is still open, and neither
-- save has a fault; the interest then has a conversation.
pub select_interest-total :
    (now : ℕ) (i : Interest) (r : ServiceRequest) (actor : Option ℕ) (d : Db)
    → is_receiving r.status ≡ true
    → is_applied i.status ≡ true
    → interest_faults (chosen i) r d ≡ []
    → Passes now r d
    → ((select_interest now i r actor d).0 ≡ ok (chosen i))
      × (1 ≤ count (λ c. c.interest == i.pk) (select_interest now i r actor d).1.conversations)
unfolding select_interest selected_count
select_interest-total now i r actor d receiving applied sound h =
    let d₁ = record d { interests = with_status (chosen i) d.interests } in
    let passes : Passes now r d₁ = record {
      stored = h.stored;
      fields = h.fields;
      window = h.window;
      single = h.single;
    } in
    ground (
      arith,
      save_interest-write_unless (chosen i) r d,
      fill_request-Passes now r d₁ passes,
      keep_receiving-Passes now r d₁ passes,
      announce_selection-conversation (chosen i) r actor (fill_request now r d₁).1,
      announce_selection-conversation (chosen i) r actor (keep_receiving now r d₁).1,
    )

-- What `fill_request` leaves behind when its save is refused.
fill_request-refused :
    (now : ℕ) (r : ServiceRequest) (d : Db)
    → Clashes now r d
    → ((fill_request now r d).0 ≡ err (validation_error (recent_duplicate ∷ [])))
      × ((fill_request now r d).1.interests
          ≡ update
              (is_remaining r)
              (λ j. record j { status = InterestStatus.not_selected })
              d.interests)
      × ((fill_request now r d).1.requests ≡ d.requests)
      × ((fill_request now r d).1.conversations ≡ d.conversations)
unfolding fill_request finalize_remaining_interests request_field_faults
fill_request-refused now r d h =
    let filled = record r { status = RequestStatus.filled; closed_at = some now } in
    let d₁ =
      finalize_remaining_interests filled InterestStatus.not_selected "interest.not_selected"
        ("Outro profissional foi escolhido para \"" +++ r.title +++ "\".") d in
    let clashes : Clashes now filled d₁ = record {
      stored = h.stored;
      fields = h.fields;
      window = h.window;
      duplicate = h.duplicate;
    } in
    ground (
      arith,
      save-Clashes now filled
          (λ q. record q { status = RequestStatus.filled; closed_at = some now }) d₁ clashes,
    )

keep_receiving-refused :
    (now : ℕ) (r : ServiceRequest) (d : Db)
    → Clashes now r d
    → keep_receiving now r d ≡ (err (validation_error (recent_duplicate ∷ [])), d)
unfolding keep_receiving request_field_faults
keep_receiving-refused now r d h =
    save-Clashes now (record r { status = RequestStatus.partially_filled })
      (λ q. record q { status = RequestStatus.partially_filled }) d
      (record { stored = h.stored; fields = h.fields; window = h.window; duplicate = h.duplicate })

-- Where the call receives interests, the interest is still open, and no save has a fault but that
-- the client published another call of the category within five minutes, the selection is
-- refused for it after the interest was saved: the interest stays selected, and turned down are
-- the others if it took the last position, but the call keeps its status and no conversation
-- begins.
pub select_interest-half_done :
    (now : ℕ) (i : Interest) (r : ServiceRequest) (actor : Option ℕ) (d : Db)
    → is_receiving r.status ≡ true
    → is_applied i.status ≡ true
    → interest_faults (chosen i) r d ≡ []
    → Clashes now r d
    → ((select_interest now i r actor d).0 ≡ err (validation_error (recent_duplicate ∷ [])))
      × ((select_interest now i r actor d).1.interests ≡ interests_after i r d)
      × ((select_interest now i r actor d).1.requests ≡ d.requests)
      × ((select_interest now i r actor d).1.conversations ≡ d.conversations)
unfolding select_interest selected_count
select_interest-half_done now i r actor d receiving applied sound h =
    let d₁ = record d { interests = with_status (chosen i) d.interests } in
    let clashes : Clashes now r d₁ = record {
      stored = h.stored;
      fields = h.fields;
      window = h.window;
      duplicate = h.duplicate;
    } in
    ground (
      arith,
      save_interest-write_unless (chosen i) r d,
      fill_request-refused now r d₁ clashes,
      keep_receiving-refused now r d₁ clashes,
    )
