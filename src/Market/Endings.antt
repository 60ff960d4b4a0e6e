-- ===== src/Market/Endings.antt =====
-- The ends of a call of apps/requests/services.py, as steps of the specification.
use tucano.Prelude.{
  ℕ, ◌≡◌, ◌≢◌, ◌⊎◌, inl, inr, refl, sym, subst, true, Option, some, String, ◌==◌, first, count,
  update, arith, Bool-cases, ◌+++◌,
}
use tucano.Models.{RequestStatus, ServiceRequest, InterestStatus, is_receiving}
use tucano.Db.{is_ok, Db, Action}
use tucano.Audit.{log_event}
use tucano.Requests.Clean.{save_request}
use tucano.Requests.Services.{
  is_selected_in, finalize_remaining_interests, selected_count, ending_status, end_interests,
  close_request_now, is_over, cancel_request, expire_request,
}
use tucano.Requests.Saves.{request_faults, save_request-write_unless}
use tucano.Requests.Closing.{end_interests-requests}
use tucano.Market.Spec.{view, Steps, Steps-append}
use tucano.Market.Pieces.{
  Steps-same, Steps-into, IsStored, finalize-Steps, end_interests-Steps, save-Steps,
}
use tucano.Market.Services.{no_faults}

-- A call with the status that it comes to when it ends.
abbrev pub ended_call : ℕ → ServiceRequest → Db → ServiceRequest
ended_call now r d = record r {
  status = ending_status (count (is_selected_in r) d.interests) r.positions_count;
  closed_at = some now;
}

-- The end of a call: its interests are settled, and it is saved with its new status.
abbrev pub ending : ℕ → ServiceRequest → String → String → Action (Unit {0})
ending now r chosen_body none_body d =
    let ended = ended_call now r d in
    save_request now ended (λ q. record q { status = ended.status; closed_at = some now })
      (end_interests ended (count (is_selected_in r) d.interests) chosen_body none_body d)

ending-Steps :
    (now : ℕ) (r : ServiceRequest) (chosen_body none_body : String) (d : Db)
    → r.pk ≢ 0
    → IsStored r d
    → is_receiving r.status ≡ true
    → Steps (view d) (view (ending now r chosen_body none_body d).1)
ending-Steps now r chosen_body none_body d stored found receiving =
    let selected = count (is_selected_in r) d.interests in
    let ended = ended_call now r d in
    let d₁ = end_interests ended selected chosen_body none_body d in
    let still : IsStored r d₁ =
      subst (λ rs. first (λ q. q.pk == r.pk) rs ≡ some r)
        (sym (end_interests-requests ended selected chosen_body none_body d)) found in
    Steps-append (end_interests-Steps ended selected chosen_body none_body d) (
      save-Steps now ended r (λ q. record q { status = ended.status; closed_at = some now }) d₁ refl
        stored still (λ q. ground arith) (ground arith))

pub close_request_now-Steps :
    (now : ℕ) (r : ServiceRequest) (actor : Option ℕ) (d : Db)
    → r.pk ≢ 0
    → IsStored r d
    → Steps (view d) (view (close_request_now now r actor d).1)
unfolding close_request_now selected_count log_event
close_request_now-Steps now r actor d stored found = elim (Bool-cases (is_receiving r.status)) [
  | inr over ↦ Steps-same (view d) _ (ground arith)
  | inl receiving ↦
      let chosen_body =
        "O chamado \"" +++ r.title +++ "\" foi encerrado — outro profissional foi escolhido." in
      let none_body = "O chamado \"" +++ r.title +++ "\" foi encerrado sem seleção." in
      let saved = ending now r chosen_body none_body d in
      let same : view (close_request_now now r actor d).1 ≡ view saved.1 =
        elim (Bool-cases (is_ok saved.0)) [
          | inl through ↦ ground arith
          | inr refused ↦ ground arith
        ] in
      Steps-into (view d) (view saved.1) _ same
        (ending-Steps now r chosen_body none_body d stored found receiving)
]

pub expire_request-Steps :
    (now : ℕ) (r : ServiceRequest) (d : Db)
    → r.pk ≢ 0
    → IsStored r d
    → is_receiving r.status ≡ true
    → Steps (view d) (view (expire_request now r d).1)
unfolding expire_request selected_count log_event
expire_request-Steps now r d stored found receiving =
    let chosen_body =
      "O chamado \"" +++ r.title +++ "\" expirou — outro profissional foi escolhido." in
    let none_body = "O chamado \"" +++ r.title +++ "\" expirou sem seleção." in
    let saved = ending now r chosen_body none_body d in
    let same : view (expire_request now r d).1 ≡ view saved.1 = elim (Bool-cases (is_ok saved.0)) [
      | inl through ↦ ground arith
      | inr refused ↦ ground arith
    ] in
    Steps-into (view d) (view saved.1) _ same
      (ending-Steps now r chosen_body none_body d stored found receiving)

pub cancel_request-Steps :
    (now : ℕ) (r : ServiceRequest) (actor : Option ℕ) (reason : String) (d : Db)
    → r.pk ≢ 0
    → IsStored r d
    → Steps (view d) (view (cancel_request now r actor reason d).1)
unfolding cancel_request log_event
cancel_request-Steps now r actor reason d stored found = elim (Bool-cases (is_over r.status)) [
  | inl over ↦ Steps-same (view d) _ (ground arith)
  | inr going ↦
      let write : ServiceRequest → ServiceRequest = λ q. record q {
        status = RequestStatus.cancelled;
        cancel_reason = reason;
        closed_at = some now;
      } in
      let gone = write r in
      let body = "O chamado \"" +++ r.title +++ "\" foi cancelado. Motivo: " +++ reason in
      let saved = save_request now gone write d in
      let once : Steps (view d) (view saved.1) =
        save-Steps now gone r write d refl stored found (λ q. ground arith) (ground arith) in
      let d₂ =
        finalize_remaining_interests gone InterestStatus.expired "service_request.cancelled" body
          saved.1 in
      elim (Bool-cases (is_ok saved.0)) [
        | inl through ↦ Steps-into (view d) (view d₂) _ (ground arith) (
            Steps-append once (
              finalize-Steps gone InterestStatus.expired "service_request.cancelled" body saved.1
                refl refl))
        | inr refused ↦ Steps-into (view d) (view saved.1) _ (ground arith) once
      ]
]

-- The end of a call writes its own row, or none.
pub expire_request-requests :
    (now : ℕ) (r : ServiceRequest) (d : Db)
    → r.pk ≢ 0
    → ((expire_request now r d).1.requests ≡ d.requests)
      ⊎ ((expire_request now r d).1.requests
          ≡ update
              (λ q. q.pk == r.pk)
              (λ q. record q { status = (ended_call now r d).status; closed_at = some now })
              d.requests)
unfolding expire_request selected_count log_event
expire_request-requests now r d stored =
    let chosen_body =
      "O chamado \"" +++ r.title +++ "\" expirou — outro profissional foi escolhido." in
    let none_body = "O chamado \"" +++ r.title +++ "\" expirou sem seleção." in
    let ended = ended_call now r d in
    let d₁ = end_interests ended (count (is_selected_in r) d.interests) chosen_body none_body d in
    let kept =
      end_interests-requests ended (count (is_selected_in r) d.interests) chosen_body none_body d in
    let saved =
      save_request-write_unless now ended
        (λ q. record q { status = ended.status; closed_at = some now }) d₁ stored in
    elim (Bool-cases (no_faults (request_faults now ended d₁))) [
      | inl through ↦ inr (ground arith)
      | inr refused ↦ inl (ground arith)
    ]
