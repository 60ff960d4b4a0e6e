-- ===== src/Market/Pieces.antt =====
-- The parts of the services of apps/requests, as steps of the specification.
use tucano.Prelude.{
  ℕ, suc, ◌≡◌, ◌≢◌, ◌⊎◌, inl, inr, refl, sym, subst, true, false, Option, some, String, List, [],
  ◌∷◌, ◌++◌, ◌==◌, ◌&&◌, leb, ltb, first, exists, update, arith, Bool-cases, Option-cases, ◌+++◌,
}
use tucano.Models.{
  RequestStatus, ServiceRequest, InterestStatus, Interest, Conversation, is_receiving, is_selected,
}
use tucano.Db.{Db, Result, Fault, ok, err}
use tucano.Audit.{log_event}
use tucano.Subscriptions.Limits.{for_user, can_client_publish_request}
use tucano.Requests.Clean.{
  full_clean, clean_request, check_window, check_duplicate, check_quota, insert_request,
  with_expiry, save_request, request_field_faults,
}
use tucano.Requests.Services.{
  finalize_remaining_interests, fill_request, keep_receiving, end_interests, announce_selection,
  get_or_create_conversation,
}
use tucano.Requests.Saves.{written, write_unless, request_faults, save_request-write_unless}
use tucano.Market.Spec.{
  Market, view, is_final, may_become, Rewrites, Step, publish, settle, turn, talk, Steps, done,
  later, Steps-append,
}
use tucano.Market.Laws.{is_chosen}

pub one_step : {m n : Market} → Step m n → Steps m n
one_step s = later done s

-- The same tables.
pub Steps-same : (m n : Market) → n ≡ m → Steps m n
Steps-same m n e = subst (Steps m) (sym e) done

pub Steps-into : (m n o : Market) → o ≡ n → Steps m n → Steps m o
Steps-into m n o e s = subst (Steps m) (sym e) s

pub finalize-Steps :
    (r : ServiceRequest) (s : InterestStatus) (event_type body : String) (d : Db)
    → is_final s ≡ true
    → is_selected s ≡ false
    → Steps (view d) (view (finalize_remaining_interests r s event_type body d))
unfolding finalize_remaining_interests
finalize-Steps r s event_type body d final unselected = one_step (settle r s final unselected)

pub end_interests-Steps :
    (r : ServiceRequest) (selected : ℕ) (chosen_body none_body : String) (d : Db)
    → Steps (view d) (view (end_interests r selected chosen_body none_body d))
unfolding end_interests
end_interests-Steps r selected chosen_body none_body d =
    let turned_down =
      finalize-Steps r InterestStatus.not_selected "interest.not_selected" chosen_body d refl
        refl in
    let lapsed = finalize-Steps r InterestStatus.expired "interest.expired" none_body d refl refl in
    elim (Bool-cases (leb r.positions_count selected && ltb 0 r.positions_count)) [
      | inl full ↦ rw full turned_down
      | inr free ↦ rw free (elim (Bool-cases (ltb 0 selected)) [
        | inl some_selected ↦ rw some_selected turned_down
        | inr nobody ↦ rw nobody lapsed
      ])
    ]

-- A stored call, in the table of the calls.
abbrev pub IsStored : ServiceRequest → Db → Type 0
IsStored r d = first (λ q. q.pk == r.pk) d.requests ≡ some r

-- The save of a stored call `r` as `q` is one step or, refused, none.
pub save-Steps :
    (now : ℕ) (q r : ServiceRequest) (write : ServiceRequest → ServiceRequest) (d : Db)
    → q.pk ≡ r.pk
    → r.pk ≢ 0
    → IsStored r d
    → ((x : ServiceRequest) → Rewrites x (write x))
    → may_become r.status (write r).status ≡ true
    → Steps (view d) (view (save_request now q write d).1)
save-Steps now q r write d same stored found terms way = go (request_faults now q d) refl
  where
    saved : save_request now q write d ≡ write_unless (request_faults now q d) (written q write d) d
    saved = save_request-write_unless now q write d (subst (λ k. k ≢ 0) (sym same) stored)

    turned : Steps (view d) (view (written q write d))
    turned =
        subst
          (λ k.
            Steps (view d)
              (record (view d) { requests = update (λ x. x.pk == k) write d.requests }))
          (sym same) (one_step (turn r write found terms way))

    go :
        (fs : List Fault)
        → request_faults now q d ≡ fs
        → Steps (view d) (view (save_request now q write d).1)
    go [] e = Steps-into (view d) (view (written q write d)) _ (ground (arith, saved)) turned
    go (f ∷ fs) e = Steps-same (view d) _ (ground (arith, saved))

pub fill_request-Steps :
    (now : ℕ) (r : ServiceRequest) (d : Db)
    → r.pk ≢ 0
    → IsStored r d
    → is_receiving r.status ≡ true
    → Steps (view d) (view (fill_request now r d).1)
unfolding fill_request finalize_remaining_interests
fill_request-Steps now r d stored found receiving =
    let filled = record r { status = RequestStatus.filled; closed_at = some now } in
    let body = "Outro profissional foi escolhido para \"" +++ r.title +++ "\"." in
    let d₁ =
      finalize_remaining_interests filled InterestStatus.not_selected "interest.not_selected" body
        d in
    Steps-append
      (finalize-Steps filled InterestStatus.not_selected "interest.not_selected" body d refl refl)
      (save-Steps now filled r
        (λ q. record q { status = RequestStatus.filled; closed_at = some now }) d₁ refl stored found
        (λ q. ground arith) (ground arith))

pub keep_receiving-Steps :
    (now : ℕ) (r : ServiceRequest) (d : Db)
    → r.pk ≢ 0
    → IsStored r d
    → is_receiving r.status ≡ true
    → Steps (view d) (view (keep_receiving now r d).1)
unfolding keep_receiving
keep_receiving-Steps now r d stored found receiving =
    save-Steps now (record r { status = RequestStatus.partially_filled }) r
      (λ q. record q { status = RequestStatus.partially_filled }) d refl stored found
      (λ q. ground arith) (ground arith)

pub announce_selection-Steps :
    (i : Interest) (r : ServiceRequest) (actor : Option ℕ) (d : Db)
    → exists (is_chosen i.pk) d.interests ≡ true
    → Steps (view d) (view (announce_selection i r actor d).1)
unfolding announce_selection get_or_create_conversation log_event
announce_selection-Steps i r actor d chosen =
    elim (Option-cases (first (λ c. c.interest == i.pk) d.conversations)) [
      | inr (c, there) ↦ Steps-same (view d) _ (ground arith)
      | inl none_yet ↦
          let made : Conversation = record { pk = d.next_pk; interest = i.pk } in
          Steps-into (view d)
            (record (view d) {
              next_pk = suc d.next_pk;
              conversations = d.conversations ++ (made ∷ []);
            })
            _ (ground arith) (one_step (talk made refl chosen))
    ]

-- Validation makes a subscription row at most.
clean_request-view :
    (now : ℕ) (r : ServiceRequest) (d : Db) → view (clean_request now r d).1 ≡ view d
unfolding clean_request check_window check_duplicate check_quota can_client_publish_request for_user
clean_request-view now r d = ground arith

-- A new call that is inserted.
abbrev inserted : ServiceRequest → Db → ServiceRequest
inserted r d = record r { pk = d.next_pk; expires_at = with_expiry r }

insert_request-view :
    (now : ℕ) (r : ServiceRequest) (d : Db)
    → (view (insert_request now r d).1 ≡ view d)
      ⊎ (view (insert_request now r d).1 ≡ record (view d) {
        next_pk = suc d.next_pk;
        requests = d.requests ++ (inserted r d ∷ []);
      })
unfolding insert_request
insert_request-view now r d =
    go (full_clean (request_field_faults r) (clean_request now r) d).0 refl
  where
    go :
        (o : Result (Unit {0}))
        → (full_clean (request_field_faults r) (clean_request now r) d).0 ≡ o
        → (view (insert_request now r d).1 ≡ view d)
          ⊎ (view (insert_request now r d).1 ≡ record (view d) {
            next_pk = suc d.next_pk;
            requests = d.requests ++ (inserted r d ∷ []);
          })
    go (ok x) e = inr (ground (arith, clean_request-view now r d))
    go (err x) e = inl (ground (arith, clean_request-view now r d))

pub insert_request-Steps :
    (now : ℕ) (r : ServiceRequest) (d : Db)
    → is_receiving r.status ≡ true
    → Steps (view d) (view (insert_request now r d).1)
insert_request-Steps now r d receiving = elim (insert_request-view now r d) [
  | inl same ↦ Steps-same (view d) _ same
  | inr grown ↦ Steps-into (view d) _ _ grown (one_step (publish (inserted r d) refl receiving))
]
