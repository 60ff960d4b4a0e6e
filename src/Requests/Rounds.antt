-- ===== src/Requests/Rounds.antt =====
-- One round of the sweep of calls whose window has ended, `expire_due_requests`.
use tucano.Prelude.{
  ℕ, ◌≤◌, ◌≡◌, ◌≢◌, refl, sym, subst, false, some, String, List, [], ◌∷◌, ◌&&◌, leb, ltb, arith,
  count, count-update_fewer, Bool-cases, inl, inr, ◌+++◌,
}
use tucano.Models.{ServiceRequest, InterestStatus, is_applied}
use tucano.Db.{Db, Fault}
use tucano.Audit.{log_event}
use tucano.Requests.Services.{
  is_remaining, is_selected_in, finalize_remaining_interests, selected_count, ending_status,
  end_interests, expire_request,
}
use tucano.Requests.Saves.{request_faults, save_request-write_unless}
use tucano.Requests.Capacity.{count-finalize}
use tucano.Requests.Closing.{end_interests-Ends}

-- A round opens no interest, in any call, and selects nobody.
pub record Shrinks (d d' : Db) : Type 0 where
  pub fewer :
      (q : ServiceRequest)
      → count (is_remaining q) d'.interests ≤ count (is_remaining q) d.interests
  pub kept :
      (q : ServiceRequest)
      → count (is_selected_in q) d'.interests ≡ count (is_selected_in q) d.interests

finalize-Shrinks :
    (r : ServiceRequest) (final : InterestStatus) (event_type body : String) (d : Db)
    → is_applied final ≡ false
    → final ≢ InterestStatus.selected
    → Shrinks d (finalize_remaining_interests r final event_type body d)
unfolding finalize_remaining_interests
finalize-Shrinks r final event_type body d not_applied not_selected = record {
  fewer = λ q.
      count-update_fewer (is_remaining r) (λ i. record i { status = final }) (is_remaining q)
        (λ i e. ground arith) d.interests;
  kept = λ q. count-finalize q r final d.interests not_selected;
}

end_interests-Shrinks :
    (r : ServiceRequest) (selected : ℕ) (chosen_body none_body : String) (d : Db)
    → Shrinks d (end_interests r selected chosen_body none_body d)
unfolding end_interests
end_interests-Shrinks r selected chosen_body none_body d =
    let turned_down =
      finalize-Shrinks r InterestStatus.not_selected "interest.not_selected" chosen_body d refl
        (λ e. cc) in
    let lapsed =
      finalize-Shrinks r InterestStatus.expired "interest.expired" none_body d refl (λ e. cc) in
    elim (Bool-cases (leb r.positions_count selected && ltb 0 r.positions_count)) [
      | inl full ↦ rw full turned_down
      | inr free ↦ rw free (elim (Bool-cases (ltb 0 selected)) [
        | inl some_selected ↦ rw some_selected turned_down
        | inr nobody ↦ rw nobody lapsed
      ])
    ]

-- The call as its round ends it.
abbrev pub expired_call : ℕ → ServiceRequest → Db → ServiceRequest
expired_call now r d = record r {
  status = ending_status (count (is_selected_in r) d.interests) r.positions_count;
  closed_at = some now;
}

-- The database before the save of a round.
abbrev pub before_save : ℕ → ServiceRequest → Db → Db
before_save now r d =
    end_interests (expired_call now r d) (count (is_selected_in r) d.interests)
      ("O chamado \"" +++ r.title +++ "\" expirou — outro profissional foi escolhido.")
      ("O chamado \"" +++ r.title +++ "\" expirou sem seleção.") d

expire_request-interests :
    (now : ℕ) (r : ServiceRequest) (d : Db)
    → r.pk ≢ 0
    → (expire_request now r d).1.interests ≡ (before_save now r d).interests
unfolding expire_request selected_count log_event
expire_request-interests now r d stored = go (request_faults now ended (before_save now r d)) refl
  where
    ended : ServiceRequest
    ended = expired_call now r d

    write : ServiceRequest → ServiceRequest
    write q = record q { status = ended.status; closed_at = some now }

    go :
        (fs : List Fault)
        → request_faults now ended (before_save now r d) ≡ fs
        → (expire_request now r d).1.interests ≡ (before_save now r d).interests
    go [] e =
        let saved = save_request-write_unless now ended write (before_save now r d) stored in
        ground arith
    go (f ∷ fs) e =
        let saved = save_request-write_unless now ended write (before_save now r d) stored in
        ground arith

pub expire_request-Ends :
    (now : ℕ) (r : ServiceRequest) (d : Db)
    → r.pk ≢ 0
    → (count (is_remaining r) (expire_request now r d).1.interests ≡ 0)
      × Shrinks d (expire_request now r d).1
expire_request-Ends now r d stored =
    let same = expire_request-interests now r d stored in
    let e =
      end_interests-Ends (expired_call now r d) (count (is_selected_in r) d.interests) _ _ d in
    let s =
      end_interests-Shrinks (expired_call now r d) (count (is_selected_in r) d.interests) _ _ d in
    (
      subst (λ is. count (is_remaining r) is ≡ 0) (sym same) e.settled,
      record {
        fewer = λ q.
            subst (λ is. count (is_remaining q) is ≤ count (is_remaining q) d.interests) (sym same)
              (s.fewer q);
        kept = λ q.
            subst (λ is. count (is_selected_in q) is ≡ count (is_selected_in q) d.interests)
              (sym same) (s.kept q);
      },
    )
