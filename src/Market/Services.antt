-- ===== src/Market/Services.antt =====
-- A selection and a withdrawal of apps/requests/services.py, as steps of the specification.
use tucano.Prelude.{
  ℕ, ◌≡◌, ◌≢◌, ◌⊎◌, inl, inr, refl, Bool, true, false, Option, some, List, [], ◌∷◌, ◌==◌, ==_refl,
  ◌&&◌, first, exists, exists-update_found, arith, Bool-cases, if◌then◌else◌,
}
use tucano.Models.{ServiceRequest, InterestStatus, Interest, is_receiving, is_applied}
use tucano.Db.{is_ok, Db, Fault, Action}
use tucano.Audit.{log_event}
use tucano.Requests.Clean.{interest_faults}
use tucano.Requests.Services.{
  selected_count, fill_request, keep_receiving, announce_selection, select_interest,
  withdraw_interest,
}
use tucano.Requests.Saves.{with_status, save_interest-write_unless}
use tucano.Requests.Selection.{chosen, fills}
use tucano.Market.Spec.{view, decide, Steps, Steps-append}
use tucano.Market.Laws.{is_chosen, Sound, Steps-Sound, Steps-Grows, Grows-chosen}
use tucano.Market.Pieces.{
  one_step, Steps-same, Steps-into, IsStored, fill_request-Steps, keep_receiving-Steps,
  announce_selection-Steps,
}

-- The second save of a selection.
abbrev settle_request : ℕ → Interest → ServiceRequest → Db → Action (Unit {0})
settle_request now i r d = if fills i r d then fill_request now r else keep_receiving now r

abbrev pub no_faults : List Fault → Bool
no_faults [] = true
no_faults (f ∷ fs) = false

-- What `select_interest` comes to.
select_interest-stages :
    (now : ℕ) (i : Interest) (r : ServiceRequest) (actor : Option ℕ) (d : Db)
    → let d₁ : Db = record d { interests = with_status (chosen i) d.interests } in
      let d₂ = (settle_request now i r d d₁).1 in
      let d' = (select_interest now i r actor d).1 in
      (d' ≡ d)
      ⊎ (is_receiving r.status ≡ true)
        × (is_applied i.status ≡ true)
        × ((d' ≡ d₂) ⊎ (d' ≡ (announce_selection (chosen i) r actor d₂).1))
unfolding select_interest selected_count
select_interest-stages now i r actor d =
    elim (Bool-cases (is_receiving r.status && is_applied i.status)) [
      | inr refused ↦ inl (ground arith)
      | inl may ↦
          let saved = save_interest-write_unless (chosen i) r d in
          elim (Bool-cases (no_faults (interest_faults (chosen i) r d))) [
            | inr faulty ↦ inl (ground arith)
            | inl sound ↦
                let d₁ : Db = record d { interests = with_status (chosen i) d.interests } in
                elim (Bool-cases (is_ok (settle_request now i r d d₁).0)) [
                  | inl through ↦ inr (ground arith, ground arith, inr (ground arith))
                  | inr stopped ↦ inr (ground arith, ground arith, inl (ground arith))
                ]
          ]
    ]

-- An interest with the key of `i`, in the table of the interests.
abbrev pub IsOpen : Interest → Db → Type 0
IsOpen i d = first (λ j. j.pk == i.pk) d.interests ≡ some i

settle_request-Steps :
    (now : ℕ) (i : Interest) (r : ServiceRequest) (d d₁ : Db)
    → r.pk ≢ 0
    → IsStored r d₁
    → is_receiving r.status ≡ true
    → Steps (view d₁) (view (settle_request now i r d d₁).1)
settle_request-Steps now i r d d₁ stored found receiving = elim (Bool-cases (fills i r d)) [
  | inl full ↦ rw full (fill_request-Steps now r d₁ stored found receiving)
  | inr part ↦ rw part (keep_receiving-Steps now r d₁ stored found receiving)
]

pub select_interest-Steps :
    (now : ℕ) (i : Interest) (r : ServiceRequest) (actor : Option ℕ) (d : Db)
    → Sound (view d)
    → IsOpen i d
    → IsStored r d
    → r.pk ≢ 0
    → Steps (view d) (view (select_interest now i r actor d).1)
select_interest-Steps now i r actor d sound open_ found stored =
    elim (select_interest-stages now i r actor d) [
      | inl same ↦ rw same (Steps-same (view d) (view d) refl)
      | inr (receiving, applied, outcome) ↦
          let d₁ : Db = record d { interests = with_status (chosen i) d.interests } in
          let d₂ = (settle_request now i r d d₁).1 in
          let chose : Steps (view d) (view d₁) =
            one_step (decide i InterestStatus.selected open_ applied refl) in
          let settled = settle_request-Steps now i r d d₁ stored found receiving in
          let both : Steps (view d) (view d₂) = Steps-append chose settled in
          let here : exists (is_chosen i.pk) d₁.interests ≡ true =
            exists-update_found (λ j. j.pk == i.pk) (is_chosen i.pk)
              (λ j. record j { status = InterestStatus.selected }) d.interests i open_
              (ground (arith, ==_refl i.pk)) in
          let still : exists (is_chosen i.pk) d₂.interests ≡ true =
            Grows-chosen i.pk d₁.interests d₂.interests
              (Steps-Grows (view d₁) (view d₂) settled
                (Steps-Sound (view d) (view d₁) chose sound)).1
              here in
          elim outcome [
            | inl stopped ↦ Steps-into (view d) (view d₂) _ (ground arith) both
            | inr through ↦
                Steps-into (view d) (view (announce_selection (chosen i) r actor d₂).1) _
                  (ground arith)
                  (Steps-append both (announce_selection-Steps (chosen i) r actor d₂ still))
          ]
    ]

pub withdraw_interest-Steps :
    (i : Interest) (r : ServiceRequest) (actor : Option ℕ) (d : Db)
    → IsOpen i d
    → Steps (view d) (view (withdraw_interest i r actor d).1)
unfolding withdraw_interest log_event
withdraw_interest-Steps i r actor d open_ =
    let gone = record i { status = InterestStatus.withdrawn } in
    let saved = save_interest-write_unless gone r d in
    elim (Bool-cases (is_applied i.status && no_faults (interest_faults gone r d))) [
      | inr refused ↦ Steps-same (view d) _ (ground arith)
      | inl through ↦
          Steps-into (view d) (record (view d) { interests = with_status gone d.interests }) _
            (ground arith) (one_step (decide i InterestStatus.withdrawn open_ (ground arith) refl))
    ]
