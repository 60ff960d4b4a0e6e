-- ===== src/Site/Casework.antt =====
-- Every operation of apps/moderation keeps the history.
use tucano.Prelude.{ℕ, refl, ◌⊎◌, inl, inr, Option, some, String, List, Bool, arith}
use tucano.Models.{Upload, ModerationCase, CaseStatus, Decision, AppealDecision, VerificationStatus}
use tucano.Db.{Fault}
use tucano.Moderation.Cases.{
  open_case, save_case, set_active, start_review, decide_case, appeal_case, appeal_outcome,
  resolve_appeal, AdminAction, review, decide, resolve, admin_action, appeal_case_view, report_user,
}
use tucano.Moderation.Verifications.{verification_valid, verification_request, review_verifications}
use tucano.Site.Parts.{Part, may_write}
use tucano.Site.History.{Keeps-refl}
use tucano.Site.Rows.{SameCase}
use tucano.Site.Rules.{raise_faults-Safe, Safe, SafeWrite, rules}
use tucano.Site.Writes.{writes, cases_updated-Safe, users_updated-Safe, verifications_updated-Safe}

save_case-Safe :
    (c : ModerationCase) (f : ModerationCase → ModerationCase)
    → ((x : ModerationCase) → SameCase x (f x))
    → SafeWrite (may_write Part.cases) (save_case c f)
unfolding save_case
save_case-Safe c f s = cases_updated-Safe _ f s refl

set_active-Safe :
    (user : ℕ) (value : Bool) → SafeWrite (may_write Part.cases) (set_active user value)
unfolding set_active
set_active-Safe user value = users_updated-Safe _ _ (λ x. (refl, refl, refl)) refl

open_case-Safe :
    (actor : Option ℕ) (reporter reported_user : ℕ) (reason context_repr : String)
    → Safe (may_write Part.cases) (open_case actor reporter reported_user reason context_repr)
unfolding open_case
open_case-Safe actor reporter reported_user reason context_repr = search (rules, writes) depth 20

reviewed_same : (x : ModerationCase) → SameCase x (record x { status = CaseStatus.under_review })
reviewed_same x = ground arith

start_review-Safe :
    (c : ModerationCase) (moderator : Option ℕ)
    → Safe (may_write Part.cases) (start_review c moderator)
unfolding start_review
start_review-Safe c moderator = search (rules, writes, save_case-Safe, reviewed_same) depth 20

decided_same :
    (now : ℕ) (decision : Decision) (notes : String) (x : ModerationCase)
    → SameCase x (record x {
      decision = decision;
      decision_notes = notes;
      status = CaseStatus.decided;
      decided_at = some now;
    })
decided_same now decision notes x = ground arith

decide_case-Safe :
    (now : ℕ) (c : ModerationCase) (moderator : Option ℕ) (decision : Decision) (notes : String)
    → Safe (may_write Part.cases) (decide_case now c moderator decision notes)
unfolding decide_case
decide_case-Safe now c moderator decision notes =
    search (rules, writes, save_case-Safe, decided_same, set_active-Safe) depth 20

appealed_same :
    (reason : String) (x : ModerationCase)
    → SameCase x (record x {
      appeal_reason = reason;
      appeal_decision = some AppealDecision.pending;
      status = CaseStatus.appealed;
    })
appealed_same reason x = ground arith

appeal_case-Safe :
    (c : ModerationCase) (user : ℕ) (reason : String)
    → Safe (may_write Part.cases) (appeal_case c user reason)
unfolding appeal_case
appeal_case-Safe c user reason = search (rules, writes, save_case-Safe, appealed_same) depth 20

resolved_same :
    (now : ℕ) (approved : Bool) (x : ModerationCase)
    → SameCase x (record x {
      appeal_decision = some (appeal_outcome approved);
      appeal_decided_at = some now;
      status = CaseStatus.closed;
    })
resolved_same now approved x = ground arith

resolve_appeal-Safe :
    (now : ℕ) (c : ModerationCase) (moderator : Option ℕ) (approved : Bool) (notes : String)
    → Safe (may_write Part.cases) (resolve_appeal now c moderator approved notes)
unfolding resolve_appeal
resolve_appeal-Safe now c moderator approved notes =
    search (rules, writes, save_case-Safe, resolved_same, set_active-Safe) depth 20

pub admin_action-Safe :
    (now : ℕ) (moderator : Option ℕ) (a : AdminAction) (c : ModerationCase)
    → Safe (may_write Part.cases) (admin_action now moderator a c)
unfolding admin_action
admin_action-Safe now moderator review c = record { at = (start_review-Safe c moderator).at }
admin_action-Safe now moderator (decide decision) c = record {
  at = (decide_case-Safe now c moderator decision "").at;
}
admin_action-Safe now moderator (resolve approved) c = record {
  at = (resolve_appeal-Safe now c moderator approved "").at;
}

pub appeal_case_view-Safe :
    (user : Option ℕ) (pk : ℕ) (reason : String)
    → Safe (may_write Part.cases) (appeal_case_view user pk reason)
unfolding appeal_case_view
appeal_case_view-Safe user pk reason = search (rules, appeal_case-Safe) depth 20

pub report_user-Safe :
    (user : Option ℕ) (user_id : ℕ) (reason context : String)
    → Safe (may_write Part.cases) (report_user user user_id reason context)
unfolding report_user
report_user-Safe user user_id reason context = search (rules, open_case-Safe) depth 20

verification_valid-Safe :
    (now user : ℕ) (document : Upload) (found : List Fault ⊎ Unit {0})
    → Safe (may_write Part.verifications) (verification_valid now user document found)
unfolding verification_valid
verification_valid-Safe now user document (inl faults) = record { at = Keeps-refl }
verification_valid-Safe now user document (inr _) = search (rules, writes) depth 20

pub verification_request-Safe :
    (now : ℕ) (user : Option ℕ) (consent : Bool) (document : Upload)
    → Safe (may_write Part.verifications) (verification_request now user consent document)
unfolding verification_request
verification_request-Safe now user consent document =
    search (rules, raise_faults-Safe, verification_valid-Safe) depth 20

pub review_verifications-Safe :
    (now moderator : ℕ) (status : VerificationStatus) (ticked : List ℕ)
    → SafeWrite (may_write Part.verifications) (review_verifications now moderator status ticked)
unfolding review_verifications
review_verifications-Safe now moderator status ticked =
    verifications_updated-Safe _ _ (λ x. ground arith) refl
