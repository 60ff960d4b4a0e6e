-- ===== src/Moderation/Appeals.antt =====
-- What a case comes to for its user, and who can appeal: `AppealCaseView` is behind the login,
-- which Django's `ModelBackend` and allauth's, the backends of the settings, give to active users
-- alone. They are a parameter: the user that a session stands for.
use tucano.Prelude.{
  first, first-update, ℕ, ◌≡◌, refl, Bool, true, false, Option, none, String, List, [], ◌∷◌, ◌==◌,
  ◌&&◌, exists, update, arith, ==_refl, is_blank, some, if◌then◌else◌,
}
use tucano.Models.{User, ModerationCase, CaseStatus, Decision, suspension, pending, AppealDecision}
use tucano.Db.{Db, Action, ok, ◌>>=◌}
use tucano.Http.{login_redirect}
use tucano.Audit.{log_event}
use tucano.Moderation.Cases.{
  is_undecided, save_case, is_suspension, set_active, decide_case, appeal_case, appeal_outcome,
  resolve_appeal, appeal_case_view,
}

abbrev pub is_user : ℕ → List User → Bool
is_user k users = exists (λ u. u.pk == k) users

-- Some row is this user's, and active.
abbrev pub is_active_user : ℕ → List User → Bool
is_active_user k users = exists (λ u. u.pk == k && u.is_active) users

-- What `set_active` does to the users.
abbrev write_active : ℕ → Bool → List User → List User
write_active j value users = update (λ u. u.pk == j) (λ u. record u { is_active = value }) users

write_active-user :
    (k j : ℕ) (value : Bool) (users : List User)
    → is_user k (write_active j value users) ≡ is_user k users
unfolding exists update
write_active-user k j value [] = refl
write_active-user k j value (u ∷ users) = ground (arith, write_active-user k j value users)

write_active-access :
    (k j : ℕ) (value : Bool) (users : List User)
    → is_active_user k (write_active j value users)
      ≡ (if k == j then value && is_user k users else is_active_user k users)
unfolding exists update
write_active-access k j value [] = ground arith
write_active-access k j value (u ∷ users) = ground (arith, write_active-access k j value users)

-- Where a session stands for no user that is not active: once a case is decided by a suspension,
-- every appeal that the suspended user sends, of this or another case, is sent to the login, and
-- changes nothing.
pub decide_case-locked_out :
    (current_user : List User → ℕ → Option ℕ)
    → ((users : List User) (k : ℕ) → is_active_user k users ≡ false → current_user users k ≡ none)
    → (now : ℕ) (c : ModerationCase) (moderator : Option ℕ) (notes : String) (pk : ℕ)
      (reason : String) (d : Db)
    → is_undecided c.status ≡ true
    → let d' = (decide_case now c moderator suspension notes d).1 in
      appeal_case_view (current_user d'.users c.reported_user) pk reason d'
      ≡ (ok login_redirect, d')
unfolding decide_case save_case set_active log_event appeal_case_view
decide_case-locked_out current_user active_only now c moderator notes pk reason d undecided =
    let d' = (decide_case now c moderator suspension notes d).1 in
    let users : d'.users ≡ write_active c.reported_user false d.users = ground arith in
    let nobody : current_user d'.users c.reported_user ≡ none =
      active_only d'.users c.reported_user (
        rw users
          (ground (arith, write_active-access c.reported_user c.reported_user false d.users))) in
    rw nobody refl

-- A case from its decision over its appeal to the end of the appeal.
module _ (now : ℕ) (c : ModerationCase) (moderator : Option ℕ) (decision : Decision)
    (notes reason : String) (later : ℕ) (second : Option ℕ) (approved : Bool)
    (outcome : String) where
  abbrev pub whole_case : Action ModerationCase
  whole_case = do
    decided ← decide_case now c moderator decision notes
    appealed ← appeal_case decided c.reported_user reason
    resolve_appeal later appealed second approved outcome

  abbrev pub closed_case : ModerationCase
  closed_case = record c {
    decision = decision;
    decision_notes = notes;
    decided_at = some now;
    appeal_reason = reason;
    appeal_decision = some (if approved then AppealDecision.approved else AppealDecision.rejected);
    appeal_decided_at = some later;
    status = CaseStatus.closed;
  }

  outcome_lem :
      appeal_outcome approved
      ≡ (if approved then AppealDecision.approved else AppealDecision.rejected)
  outcome_lem = ground arith

  -- The three saves of the case.
  whole_case-cases :
      (d : Db)
      → is_undecided c.status ≡ true
      → is_blank c.appeal_reason ≡ true
      → first (λ x. x.pk == c.pk) d.cases ≡ some c
      → first (λ x. x.pk == c.pk) (whole_case d).1.cases ≡ some closed_case
  unfolding decide_case appeal_case resolve_appeal save_case set_active log_event
  whole_case-cases d undecided blank found =
      let is_it : ModerationCase → Bool = λ x. x.pk == c.pk in
      let decide : ModerationCase → ModerationCase = λ x. record x {
        decision = decision;
        decision_notes = notes;
        status = CaseStatus.decided;
        decided_at = some now;
      } in
      let appeal : ModerationCase → ModerationCase = λ x. record x {
        appeal_reason = reason;
        appeal_decision = some pending;
        status = CaseStatus.appealed;
      } in
      let resolve : ModerationCase → ModerationCase = λ x. record x {
        appeal_decision = some (appeal_outcome approved);
        appeal_decided_at = some later;
        status = CaseStatus.closed;
      } in
      let saves : (whole_case d).1.cases
          ≡ update is_it resolve (update is_it appeal (update is_it decide d.cases)) =
        ground (arith, ==_refl c.reported_user) in
      let one = first-update is_it decide d.cases c (λ x h. h) found in
      let two = first-update is_it appeal (update is_it decide d.cases) _ (λ x h. h) one in
      rw (saves, ← outcome_lem)
        (first-update is_it resolve (update is_it appeal (update is_it decide d.cases)) _ (λ x h. h)
          two)

  whole_case-users :
      (d : Db)
      → is_undecided c.status ≡ true
      → is_blank c.appeal_reason ≡ true
      → (whole_case d).1.users ≡ (
          if is_suspension decision
          then if approved
            then write_active c.reported_user true (write_active c.reported_user false d.users)
            else write_active c.reported_user false d.users
          else d.users)
  unfolding decide_case appeal_case resolve_appeal save_case set_active log_event
  whole_case-users d undecided blank = ground (arith, ==_refl c.reported_user)

  -- Where the case stands in the table, undecided and with no appeal, the services decide it, take
  -- the reported user's appeal and resolve that: the case stands closed in the table, with the
  -- decision, the appeal and its outcome. Who is active: where the decision is a suspension, the
  -- reported user exactly if the appeal was approved, whatever other cases suspend that user for;
  -- all other users, and with another decision the reported user too, as before.
  pub decide_case-appealed :
      (d : Db)
      → is_undecided c.status ≡ true
      → is_blank c.appeal_reason ≡ true
      → first (λ x. x.pk == c.pk) d.cases ≡ some c
      → ((whole_case d).0 ≡ ok closed_case)
        × (first (λ x. x.pk == c.pk) (whole_case d).1.cases ≡ some closed_case)
        × ((k : ℕ)
            → is_active_user k (whole_case d).1.users ≡ (
                if k == c.reported_user && is_suspension decision
                then approved && is_user k d.users
                else is_active_user k d.users))
  unfolding decide_case appeal_case resolve_appeal save_case set_active log_event
  decide_case-appealed d undecided blank found = (
    ground (arith, ==_refl c.reported_user),
    whole_case-cases d undecided blank found,
    λ k.
        let banned = write_active c.reported_user false d.users in
        rw (whole_case-users d undecided blank) (
          ground (
            arith,
            write_active-access k c.reported_user false d.users,
            write_active-user k c.reported_user false d.users,
            write_active-access k c.reported_user true banned,
          )),
  )
