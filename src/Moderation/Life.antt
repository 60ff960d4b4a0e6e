-- ===== src/Moderation/Life.antt =====
-- The life of a moderation case: it only moves forward, its decision is final, it is appealed once.
use Prim.Native.String.{count as text_length}
use tucano.Prelude.{
  ltb, Bool-cases, ℕ, ◌≤◌, ◌<◌, ◌≡◌, ◌⊎◌, refl, sym, subst, subst₂, Bool, true, false, Option, none,
  some, String, ◌&&◌, ◌==◌, is_blank, arith, first, first-test, first-weaken, ==→eq, ==_refl,
  update, if◌then◌else◌, inl, inr, Option-cases, Grows, Grows-refl, Grows-append,
  Grows-update_found, IsKeyed, IsKeyed-update, IsKeyed-append,
}
use tucano.Models.{
  CaseStatus, opened, under_review, decided, appealed, closed, Decision, pending, ModerationCase,
}
use tucano.Db.{Db, attempt}
use tucano.Audit.{log_event}
use tucano.Moderation.Cases.{
  open_case, save_case, set_active, is_opened, is_undecided, is_decided, is_appealed, start_review,
  decide_case, appeal_case, appeal_outcome, resolve_appeal, AdminAction, review, decide, resolve,
  admin_action, appeal_case_view, report_user,
}

-- How far a case has come.
abbrev pub stage : CaseStatus → ℕ
stage opened = 0
stage under_review = 1
stage decided = 2
stage appealed = 3
stage closed = 4

-- What may become of a case: its parties, reason and context stay, it moves forward or stays as it
-- is, a decision once taken is final, and so is an appeal once closed.
pub record KeepsCase (x y : ModerationCase) : Type 0 where
  pub pk : y.pk ≡ x.pk
  pub reporter : y.reporter ≡ x.reporter
  pub reported_user : y.reported_user ≡ x.reported_user
  pub context_repr : y.context_repr ≡ x.context_repr
  pub reason : y.reason ≡ x.reason
  pub forward : (y ≡ x) ⊎ (stage x.status < stage y.status)
  pub decision_final : is_undecided x.status ≡ false → y.decision ≡ x.decision
  pub notes_final : is_undecided x.status ≡ false → y.decision_notes ≡ x.decision_notes
  pub appeal_final : 3 ≤ stage x.status → y.appeal_reason ≡ x.appeal_reason

pub KeepsCase-refl : (x : ModerationCase) → KeepsCase x x
KeepsCase-refl x = ground arith

pub KeepsCase-trans : (x y z : ModerationCase) → KeepsCase x y → KeepsCase y z → KeepsCase x z
KeepsCase-trans x y z a b = ground arith

abbrev pub CaseKeys : Db → Type 0
CaseKeys d = IsKeyed (λ c. c.pk) d.next_pk d.cases

-- What one request does to the cases, and that keys stay distinct.
pub record Advances (d d' : Db) : Type 0 where
  pub cases : Grows KeepsCase d.cases d'.cases
  pub keys : CaseKeys d'

Advances-refl : (d : Db) → CaseKeys d → Advances d d
Advances-refl d keys = record { cases = Grows-refl KeepsCase KeepsCase-refl d.cases; keys = keys }

-- An operation on a case that stands in the table writes it, or refuses and writes nothing.
module _ (d : Db) (c : ModerationCase) (found : first (λ x. x.pk == c.pk) d.cases ≡ some c)
    (keys : CaseKeys d) where
  guarded-Advances :
      (allowed : Bool) (write : ModerationCase → ModerationCase) (d' : Db)
      → d'.cases ≡ (if allowed then update (λ x. x.pk == c.pk) write d.cases else d.cases)
      → d'.next_pk ≡ d.next_pk
      → ((x : ModerationCase) → (write x).pk ≡ x.pk)
      → (allowed ≡ true → KeepsCase c (write c))
      → Advances d d'
  guarded-Advances true write d' e next same step = record {
    cases = subst (Grows KeepsCase d.cases) (sym e) (
        Grows-update_found KeepsCase (λ x. x.pk == c.pk) write KeepsCase-refl d.cases c found
          (keys.unique c.pk) (step refl));
    keys =
        subst₂ (IsKeyed (λ x. x.pk)) (sym next) (sym e)
          (IsKeyed-update (λ x. x.pk) (λ x. x.pk == c.pk) write d.next_pk d.cases same keys);
  }
  guarded-Advances false write d' e next same step = record {
    cases = subst (Grows KeepsCase d.cases) (sym e) (Grows-refl KeepsCase KeepsCase-refl d.cases);
    keys = subst₂ (IsKeyed (λ x. x.pk)) (sym next) (sym e) keys;
  }

  start_review-Advances : (moderator : Option ℕ) → Advances d (start_review c moderator d).1
  unfolding start_review save_case log_event
  start_review-Advances moderator =
      guarded-Advances (is_opened c.status) (λ x. record x { status = under_review })
        (start_review c moderator d).1 (ground arith) (ground arith) (λ x. refl)
        (λ allowed. ground arith)

  decide_case-Advances :
      (now : ℕ) (moderator : Option ℕ) (decision : Decision) (notes : String)
      → Advances d (decide_case now c moderator decision notes d).1
  unfolding decide_case save_case log_event set_active
  decide_case-Advances now moderator decision notes =
      guarded-Advances (is_undecided c.status)
        (λ x. record x {
          decision = decision;
          decision_notes = notes;
          status = CaseStatus.decided;
          decided_at = some now;
        })
        (decide_case now c moderator decision notes d).1 (ground arith) (ground arith) (λ x. refl)
        (λ allowed. ground arith)

  appeal_case-Advances : (user : ℕ) (reason : String) → Advances d (appeal_case c user reason d).1
  unfolding appeal_case save_case log_event
  appeal_case-Advances user reason =
      guarded-Advances
        ((user == c.reported_user) && is_decided c.status && is_blank c.appeal_reason)
        (λ x. record x {
          appeal_reason = reason;
          appeal_decision = some pending;
          status = CaseStatus.appealed;
        })
        (appeal_case c user reason d).1 (ground arith) (ground arith) (λ x. refl)
        (λ allowed. ground arith)

  resolve_appeal-Advances :
      (now : ℕ) (moderator : Option ℕ) (approved : Bool) (notes : String)
      → Advances d (resolve_appeal now c moderator approved notes d).1
  unfolding resolve_appeal save_case log_event set_active
  resolve_appeal-Advances now moderator approved notes =
      guarded-Advances (is_appealed c.status)
        (λ x. record x {
          appeal_decision = some (appeal_outcome approved);
          appeal_decided_at = some now;
          status = CaseStatus.closed;
        })
        (resolve_appeal now c moderator approved notes d).1 (ground arith) (ground arith)
        (λ x. refl) (λ allowed. ground arith)

  admin_action-Advances :
      (now : ℕ) (moderator : Option ℕ) (a : AdminAction)
      → Advances d (admin_action now moderator a c d).1
  unfolding admin_action
  admin_action-Advances now moderator review = start_review-Advances moderator
  admin_action-Advances now moderator (decide decision) =
      decide_case-Advances now moderator decision ""
  admin_action-Advances now moderator (resolve approved) =
      resolve_appeal-Advances now moderator approved ""

-- A request to the application that concerns moderation. An admin action is on one case.
pub data CaseCall : Type 0 where
  report : Option ℕ → ℕ → String → String → CaseCall
  admin : ℕ → Option ℕ → AdminAction → ℕ → CaseCall
  appeal : Option ℕ → ℕ → String → CaseCall

abbrev with_case : Option ModerationCase → (ModerationCase → Db → Db) → Db → Db
with_case none f d = d
with_case (some c) f d = f c d

-- The database after the request, which loads the case that it is about.
unfoldable pub run_case_call : CaseCall → Db → Db
run_case_call (report user user_id reason context) d = (report_user user user_id reason context d).1
run_case_call (admin now moderator a pk) d =
    with_case (first (λ c. c.pk == pk) d.cases)
      (λ c e. (attempt (admin_action now moderator a c) e).1) d
run_case_call (appeal user pk reason) d = (appeal_case_view user pk reason d).1

report_user-Advances :
    (user : Option ℕ) (user_id : ℕ) (reason context : String) (d : Db)
    → CaseKeys d
    → Advances d (report_user user user_id reason context d).1
unfolding report_user open_case log_event
report_user-Advances none user_id reason context d keys = Advances-refl d keys
report_user-Advances (some u) user_id reason context d keys =
    elim (Option-cases (first (λ r. r.pk == user_id) d.users)) [
      | inl no_user ↦ rw no_user (Advances-refl d keys)
      | inr (r, there) ↦ elim (Bool-cases (ltb 255 (text_length context))) [
        | inl long ↦ rw (there, long) (Advances-refl d keys)
        | inr short ↦
            rw (there, short)
              (record {
                cases = Grows-append KeepsCase KeepsCase-refl d.cases _;
                keys = IsKeyed-append (λ c. c.pk) d.next_pk d.cases _ refl keys;
              })
      ]
    ]

admin-Advances :
    (now : ℕ) (moderator : Option ℕ) (a : AdminAction) (pk : ℕ) (d : Db)
    → CaseKeys d
    → Advances d (run_case_call (admin now moderator a pk) d)
unfolding run_case_call
admin-Advances now moderator a pk d keys = elim (Option-cases (first (λ c. c.pk == pk) d.cases)) [
  | inl no_case ↦ rw no_case (Advances-refl d keys)
  | inr (c, found) ↦
      let key : c.pk ≡ pk = ==→eq _ _ (first-test (λ x. x.pk == pk) d.cases c found) in
      rw found (
        admin_action-Advances d c
          (subst (λ k. first (λ x. x.pk == k) d.cases ≡ some c) (sym key) found) keys now moderator
          a)
]

appeal-Advances :
    (user : Option ℕ) (pk : ℕ) (reason : String) (d : Db)
    → CaseKeys d
    → Advances d (run_case_call (appeal user pk reason) d)
unfolding run_case_call appeal_case_view
appeal-Advances none pk reason d keys = Advances-refl d keys
appeal-Advances (some u) pk reason d keys = elim (Option-cases (first own d.cases)) [
  | inl no_case ↦
      let same : run_case_call (appeal (some u) pk reason) d ≡ d = ground arith in
      subst (Advances d) (sym same) (Advances-refl d keys)
  | inr (c, there) ↦
      let same : run_case_call (appeal (some u) pk reason) d ≡ (appeal_case c u reason d).1 =
        ground arith in
      subst (Advances d) (sym same) (
        appeal_case-Advances d c
          (first-weaken own (λ x. x.pk == c.pk) d.cases c there (==_refl c.pk) (keys.unique c.pk))
          keys u reason)
]
  where
    own : ModerationCase → Bool
    own x = x.pk == pk && x.reported_user == u

pub run_case_call-Advances : (x : CaseCall) (d : Db) → CaseKeys d → Advances d (run_case_call x d)
unfolding run_case_call
run_case_call-Advances (report user user_id reason context) d keys =
    report_user-Advances user user_id reason context d keys
run_case_call-Advances (admin now moderator a pk) d keys = admin-Advances now moderator a pk d keys
run_case_call-Advances (appeal user pk reason) d keys = appeal-Advances user pk reason d keys
