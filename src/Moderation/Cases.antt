-- ===== src/Moderation/Cases.antt =====
-- apps/moderation/services.py, and the view and the admin actions that call it. An operation works
-- on the case that its caller has loaded, `c`, and reads the clock once.
use tucano.Prelude.{
  ℕ, Bool, true, false, Option, none, some, String, List, [], ◌∷◌, ◌++◌, ◌&&◌, not, ◌==◌, is_blank,
  first, filter, reverse, update, if◌then◌else◌,
}
use tucano.Models.{
  CaseStatus, opened, under_review, decided, appealed, Decision, undecided, dismissed, warning,
  suspension, AppealDecision, ModerationCase, Subject, Meta,
}
use tucano.Db.{
  Db, case_not_open, case_decided, not_the_reported, not_decided, already_appealed, no_appeal,
  Action, pure, gets, or_404, ◌>>=◌, ◌>>◌, modify, refuse_if, fits_column, fresh_pk, attempt,
}
use tucano.Http.{Response, redirect, login_required}
use tucano.Audit.{log_event}
use tucano.Requests.Views.{respond}

-- `open_case`
unfoldable pub open_case : Option ℕ → ℕ → ℕ → String → String → Action ModerationCase
open_case actor reporter reported_user reason context_repr = do
  fits_column 255 context_repr
  pk ← fresh_pk
  let case : ModerationCase = record {
    pk = pk;
    reporter = reporter;
    reported_user = reported_user;
    reason = reason;
    context_repr = context_repr;
    status = CaseStatus.opened;
    decision = Decision.undecided;
    decision_notes = "";
    appeal_reason = "";
    appeal_decision = none;
    decided_at = none;
    appeal_decided_at = none;
  }
  modify (λ d. record d { cases = d.cases ++ (case ∷ []) })
  modify (log_event actor "moderation_case.opened" (Subject.moderation_case pk) [])
  pure case

-- `case.save(update_fields=...)`: `write` sets those columns.
unfoldable pub save_case : ModerationCase → (ModerationCase → ModerationCase) → Db → Db
save_case c write d = record d { cases = update (λ x. x.pk == c.pk) write d.cases }

-- `case.reported_user.is_active = value`, and its save.
unfoldable pub set_active : ℕ → Bool → Db → Db
set_active user value d = record d {
  users = update (λ u. u.pk == user) (λ u. record u { is_active = value }) d.users;
}

abbrev pub is_opened : CaseStatus → Bool
is_opened opened = true
is_opened _ = false

-- `status in (OPEN, UNDER_REVIEW)`
abbrev pub is_undecided : CaseStatus → Bool
is_undecided opened = true
is_undecided under_review = true
is_undecided _ = false

abbrev pub is_decided : CaseStatus → Bool
is_decided decided = true
is_decided _ = false

abbrev pub is_appealed : CaseStatus → Bool
is_appealed appealed = true
is_appealed _ = false

abbrev pub is_suspension : Decision → Bool
is_suspension suspension = true
is_suspension _ = false

-- `start_review`
unfoldable pub start_review : ModerationCase → Option ℕ → Action ModerationCase
start_review c moderator = do
  refuse_if (not (is_opened c.status)) case_not_open
  modify (save_case c (λ x. record x { status = CaseStatus.under_review }))
  modify (log_event moderator "moderation_case.review_started" (Subject.moderation_case c.pk) [])
  pure (record c { status = CaseStatus.under_review })

-- The value that a decision is kept by.
abbrev pub decision_value : Decision → String
decision_value undecided = "none"
decision_value dismissed = "dismissed"
decision_value warning = "warning"
decision_value suspension = "suspension"

-- `decide_case`
unfoldable pub decide_case :
    ℕ → ModerationCase → Option ℕ → Decision → String → Action ModerationCase
decide_case now c moderator decision notes = do
  refuse_if (not (is_undecided c.status)) case_decided
  let write = λ (x : ModerationCase). record x {
    decision = decision;
    decision_notes = notes;
    status = CaseStatus.decided;
    decided_at = some now;
  }
  modify (save_case c write)
  modify (λ d. if is_suspension decision then set_active c.reported_user false d else d)
  modify (
      log_event moderator "moderation_case.decided" (Subject.moderation_case c.pk)
        (("decision", Meta.text (decision_value decision)) ∷ ("notes", Meta.text notes) ∷ []))
  pure (write c)

-- `appeal_case`
unfoldable pub appeal_case : ModerationCase → ℕ → String → Action ModerationCase
appeal_case c user reason = do
  refuse_if (not (user == c.reported_user)) not_the_reported
  refuse_if (not (is_decided c.status)) not_decided
  refuse_if (not (is_blank c.appeal_reason)) already_appealed
  let write = λ (x : ModerationCase). record x {
    appeal_reason = reason;
    appeal_decision = some AppealDecision.pending;
    status = CaseStatus.appealed;
  }
  modify (save_case c write)
  modify (
      log_event (some user) "moderation_case.appealed" (Subject.moderation_case c.pk)
        (("reason", Meta.text reason) ∷ []))
  pure (write c)

abbrev pub appeal_outcome : Bool → AppealDecision
appeal_outcome true = AppealDecision.approved
appeal_outcome false = AppealDecision.rejected

-- `resolve_appeal`
unfoldable pub resolve_appeal :
    ℕ → ModerationCase → Option ℕ → Bool → String → Action ModerationCase
resolve_appeal now c moderator approved notes = do
  refuse_if (not (is_appealed c.status)) no_appeal
  let write = λ (x : ModerationCase). record x {
    appeal_decision = some (appeal_outcome approved);
    appeal_decided_at = some now;
    status = CaseStatus.closed;
  }
  modify (save_case c write)
  modify
      (λ d. if approved && is_suspension c.decision then set_active c.reported_user true d else d)
  modify (
      log_event moderator "moderation_case.appeal_resolved" (Subject.moderation_case c.pk)
        (("approved", Meta.flag approved) ∷ ("notes", Meta.text notes) ∷ []))
  pure (write c)

-- The actions of `ModerationCaseAdmin` on one case of the query set.
pub data AdminAction : Type 0 where
  review : AdminAction
  decide : Decision → AdminAction
  resolve : Bool → AdminAction

unfoldable pub admin_action : ℕ → Option ℕ → AdminAction → ModerationCase → Action ModerationCase
admin_action now moderator review c = start_review c moderator
admin_action now moderator (decide decision) c = decide_case now c moderator decision ""
admin_action now moderator (resolve approved) c = resolve_appeal now c moderator approved ""

-- `_run_for_each`: a refusal is shown, and the loop goes on.
unfoldable pub run_for_each :
    (ModerationCase → Action ModerationCase) → List ModerationCase → Db → Db
run_for_each action [] d = d
run_for_each action (c ∷ cs) d = run_for_each action cs (attempt (action c) d).1

-- `AppealCaseView.post`, reached with a valid form.
unfoldable pub appeal_case_view : Option ℕ → ℕ → String → Action Response
appeal_case_view user pk reason = login_required user λ u. do
  c ← or_404 (← gets (λ d. first (λ c. c.pk == pk && c.reported_user == u) d.cases))
  respond (appeal_case c u reason)

-- `ReportUserCreateView.post`, reached with a valid form.
unfoldable pub report_user : Option ℕ → ℕ → String → String → Action Response
report_user user user_id reason context = login_required user λ u. do
  reported ← or_404 (← gets (λ d. first (λ r. r.pk == user_id) d.users))
  case ← open_case (some u) u reported.pk reason context
  pure redirect

-- `MyModerationCasesListView.get_queryset`: the newest first.
unfoldable pub my_cases : ℕ → Db → List ModerationCase
my_cases user d = reverse (filter (λ c. c.reported_user == user) d.cases)
