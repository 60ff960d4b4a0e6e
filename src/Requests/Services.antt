-- ===== src/Requests/Services.antt =====
-- apps/requests/services.py. An operation works on the objects that its view has loaded: `i` is
-- the interest in memory and `r` its `service_request`, which Django loads once and keeps on the
-- object. Each operation reads the clock once, as `now`.
use tucano.Prelude.{
  ℕ, ◌+◌, suc, Bool, true, false, Option, none, some, String, List, [], ◌∷◌, ◌++◌, ◌&&◌, not, ◌==◌,
  leb, ltb, ◌+++◌, first, filter, order_by, count, update, if◌then◌else◌,
}
use tucano.Models.{
  InterestWindow, two_hours, five_hours, RequestStatus, ServiceRequest, InterestStatus, Interest,
  is_receiving, is_applied, is_selected, Conversation, ProfessionalProfile, Subject, Meta,
}
use tucano.Db.{
  Db, Mail, not_open_for_selection, not_selectable, not_withdrawable, already_closed,
  not_cancellable, ok, Action, pure, gets, ◌>>=◌, ◌>>◌, modify, refuse_if,
}
use tucano.Audit.{log_event}
use tucano.Notifications.{dispatch_notification, notify_professionals}
use tucano.Requests.Clean.{save_request, save_interest_status}

-- The interests that `_finalize_remaining_interests` asks for.
abbrev pub is_remaining : ServiceRequest → Interest → Bool
is_remaining r i = i.service_request == r.pk && is_applied i.status

-- `_finalize_remaining_interests`
unfoldable pub finalize_remaining_interests :
    ServiceRequest → InterestStatus → String → String → Db → Db
finalize_remaining_interests r final_status event_type notify_body d =
    let interests = filter (is_remaining r) d.interests in
    record d {
      interests = update (is_remaining r) (λ i. record i { status = final_status }) d.interests;
      mail = notify_professionals interests event_type r.title notify_body d.mail;
    }

-- `URGENT_WINDOWS`
abbrev pub is_urgent : InterestWindow → Bool
is_urgent two_hours = true
is_urgent five_hours = true
is_urgent _ = false

-- The loop of `notify_compatible_professionals` over the professionals of the call's category.
unfoldable pub notify_compatible : List ProfessionalProfile → String → String → Bool → Mail → Mail
notify_compatible [] title body urgent m = m
notify_compatible (p ∷ ps) title body urgent m =
    notify_compatible ps title body urgent
      (dispatch_notification p.user "service_request.compatible" title body urgent m)

-- `notify_compatible_professionals`; `describe` prints the category, the region and the window.
unfoldable pub notify_compatible_professionals :
    (ServiceRequest → String) → ServiceRequest → Db → Db
notify_compatible_professionals describe r d =
    let professionals = filter (λ p. p.main_category == r.category) d.professionals in
    record d {
      mail =
          notify_compatible professionals ("Novo chamado: " +++ r.title) (describe r)
            (is_urgent r.interest_window) d.mail;
    }

-- `service_request.interests.filter(status=SELECTED)`
abbrev pub is_selected_in : ServiceRequest → Interest → Bool
is_selected_in r i = i.service_request == r.pk && is_selected i.status

unfoldable pub selected_count : ServiceRequest → Db → ℕ
selected_count r d = count (is_selected_in r) d.interests

-- `Conversation.objects.get_or_create(interest=interest)`
unfoldable pub get_or_create_conversation : Interest → Action Conversation
get_or_create_conversation i d = elim (first (λ c. c.interest == i.pk) d.conversations) [
  | some c ↦ (ok c, d)
  | none ↦
      let made : Conversation = record { pk = d.next_pk; interest = i.pk } in
      (
        ok made,
        record d { next_pk = suc d.next_pk; conversations = d.conversations ++ (made ∷ []) },
      )
]

-- `save(update_fields=["status", "closed_at"])`
abbrev pub save_outcome : ℕ → ServiceRequest → Action (Unit {0})
save_outcome now r =
    save_request now r (λ q. record q { status = r.status; closed_at = r.closed_at })

-- The last position is taken: the call is filled and the other interests are turned down.
unfoldable pub fill_request : ℕ → ServiceRequest → Action (Unit {0})
fill_request now r = do
  let filled = record r { status = RequestStatus.filled; closed_at = some now }
  modify (
      finalize_remaining_interests filled InterestStatus.not_selected "interest.not_selected"
        ("Outro profissional foi escolhido para \"" +++ r.title +++ "\"."))
  save_outcome now filled

-- Positions are left: the call goes on receiving interests.
unfoldable pub keep_receiving : ℕ → ServiceRequest → Action (Unit {0})
keep_receiving now r =
    save_request now (record r { status = RequestStatus.partially_filled })
      (λ q. record q { status = RequestStatus.partially_filled })

-- What follows the two saves of `select_interest`: the conversation, the message, the audit row.
unfoldable pub announce_selection : Interest → ServiceRequest → Option ℕ → Action (Unit {0})
announce_selection i r actor = do
  conversation ← get_or_create_conversation i
  modify (λ d. record d {
    mail =
        dispatch_notification i.professional.user "interest.selected"
          ("Você foi selecionado para \"" +++ r.title +++ "\"")
          "Combine os detalhes diretamente com o contratante pelo chat." false d.mail;
  })
  modify (
      log_event actor "interest.selected" (Subject.interest i.pk)
        (("service_request_id", Meta.key r.pk) ∷ []))

-- `select_interest`
unfoldable pub select_interest : ℕ → Interest → ServiceRequest → Option ℕ → Action Interest
select_interest now i r actor = do
  refuse_if (not (is_receiving r.status)) not_open_for_selection
  refuse_if (not (is_applied i.status)) not_selectable
  let chosen = record i { status = InterestStatus.selected }
  save_interest_status chosen r
  selected ← gets (selected_count r)
  if leb r.positions_count selected then fill_request now r else keep_receiving now r
  announce_selection chosen r actor
  pure chosen

-- `withdraw_interest`
unfoldable pub withdraw_interest : Interest → ServiceRequest → Option ℕ → Action Interest
withdraw_interest i r actor = do
  refuse_if (not (is_applied i.status)) not_withdrawable
  let gone = record i { status = InterestStatus.withdrawn }
  save_interest_status gone r
  modify (log_event actor "interest.withdrawn" (Subject.interest i.pk) [])
  pure gone

-- How a call that stops receiving ends, by the number of professionals that were selected.
abbrev pub ending_status : ℕ → ℕ → RequestStatus
ending_status selected positions =
    if leb positions selected && ltb 0 positions
    then RequestStatus.filled
    else if ltb 0 selected
    then RequestStatus.partially_filled
    else RequestStatus.expired

-- The branches that `close_request_now` and `expire_due_requests` share: the status of the call,
-- and what becomes of the interests that are still open. `chosen_body` is the text where someone
-- was selected, `none_body` where nobody was.
unfoldable pub end_interests : ServiceRequest → ℕ → String → String → Db → Db
end_interests r selected chosen_body none_body =
    if leb r.positions_count selected && ltb 0 r.positions_count
    then finalize_remaining_interests r InterestStatus.not_selected "interest.not_selected"
        chosen_body
    else if ltb 0 selected
    then finalize_remaining_interests r InterestStatus.not_selected "interest.not_selected"
        chosen_body
    else finalize_remaining_interests r InterestStatus.expired "interest.expired" none_body

-- `close_request_now`
unfoldable pub close_request_now : ℕ → ServiceRequest → Option ℕ → Action ServiceRequest
close_request_now now r actor = do
  refuse_if (not (is_receiving r.status)) already_closed
  selected ← gets (selected_count r)
  let ended = record r { status = ending_status selected r.positions_count; closed_at = some now }
  modify (
      end_interests ended selected
        ("O chamado \"" +++ r.title +++ "\" foi encerrado — outro profissional foi escolhido.")
        ("O chamado \"" +++ r.title +++ "\" foi encerrado sem seleção."))
  save_outcome now ended
  modify (log_event actor "service_request.closed_manually" (Subject.service_request r.pk) [])
  pure ended

-- `status in (CANCELLED, COMPLETED)`
abbrev pub is_over : RequestStatus → Bool
is_over RequestStatus.cancelled = true
is_over RequestStatus.completed = true
is_over _ = false

-- `cancel_request`
unfoldable pub cancel_request : ℕ → ServiceRequest → Option ℕ → String → Action ServiceRequest
cancel_request now r actor reason = do
  refuse_if (is_over r.status) not_cancellable
  let gone = record r {
    status = RequestStatus.cancelled;
    cancel_reason = reason;
    closed_at = some now;
  }
  save_request now gone (λ q. record q {
    status = RequestStatus.cancelled;
    cancel_reason = reason;
    closed_at = some now;
  })
  modify (
      finalize_remaining_interests gone InterestStatus.expired "service_request.cancelled"
        ("O chamado \"" +++ r.title +++ "\" foi cancelado. Motivo: " +++ reason))
  modify (
      log_event actor "service_request.cancelled" (Subject.service_request r.pk)
        (("reason", Meta.text reason) ∷ []))
  pure gone

-- The calls that `expire_due_requests` asks for.
abbrev pub is_due : ℕ → ServiceRequest → Bool
is_due now r = is_receiving r.status && elim r.expires_at [ none ↦ false | some t ↦ leb t now ]

-- `ServiceRequest.Meta.ordering`: the newest first.
abbrev pub is_published_later : ServiceRequest → ServiceRequest → Bool
is_published_later a b = leb b.published_at a.published_at

-- The calls of the sweep, in their order.
abbrev pub due_requests : ℕ → Db → List ServiceRequest
due_requests now d = order_by is_published_later (filter (is_due now) d.requests)

-- One round of the loop of `expire_due_requests`.
unfoldable pub expire_request : ℕ → ServiceRequest → Action (Unit {0})
expire_request now r = do
  selected ← gets (selected_count r)
  let ended = record r { status = ending_status selected r.positions_count; closed_at = some now }
  modify (
      end_interests ended selected
        ("O chamado \"" +++ r.title +++ "\" expirou — outro profissional foi escolhido.")
        ("O chamado \"" +++ r.title +++ "\" expirou sem seleção."))
  save_outcome now ended
  modify (log_event none "service_request.expired" (Subject.service_request r.pk) [])

-- The loop, over the calls that were due when it began; an exception ends it.
unfoldable pub expire_each : ℕ → List ServiceRequest → ℕ → Action ℕ
expire_each now [] expired_count d = (ok expired_count, d)
expire_each now (r ∷ rs) expired_count d =
    (expire_request now r >>= λ _. expire_each now rs (expired_count + 1)) d

-- `expire_due_requests`
unfoldable pub expire_due_requests : ℕ → Action ℕ
expire_due_requests now d = expire_each now (due_requests now d) 0 d
