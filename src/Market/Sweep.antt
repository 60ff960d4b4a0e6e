-- ===== src/Market/Sweep.antt =====
-- The sweep `expire_due_requests`, as steps of the specification.
use tucano.Prelude.{
  order_by-All, order_by-count, All-both, All-filter_of, filter-All_fit, count-filter-le, ℕ, ◌+◌,
  ◌≡◌, ◌≢◌, inl, inr, refl, sym, subst, Bool, true, false, some, List, [], ◌∷◌, ◌==◌, first, filter,
  update, arith, All, All-imp, Distinct, keyed-Distinct, keyed-found,
}
use tucano.Models.{ServiceRequest, is_receiving}
use tucano.Db.{Db, Result}
use tucano.Requests.Services.{
  is_published_later, due_requests, is_due, expire_request, expire_each, expire_due_requests,
}
use tucano.Requests.Expiry.{expire_each-step}
use tucano.Market.Spec.{view, Steps, Steps-append}
use tucano.Market.Laws.{Sound}
use tucano.Market.Pieces.{Steps-same, IsStored}
use tucano.Market.Endings.{ended_call, expire_request-Steps, expire_request-requests}

-- A call that the loop still has to end.
abbrev Waits : Db → ServiceRequest → Type 0
Waits d r = IsStored r d × (r.pk ≢ 0) × (is_receiving r.status ≡ true)

-- A write of other rows is not seen.
first-update_other {ℓ} :
    {A : Type ℓ} (p q : A → Bool) (f : A → A) (xs : List A)
    → ((x : A) → q x ≡ true → (p x ≡ false) × (p (f x) ≡ false))
    → first p (update q f xs) ≡ first p xs
unfolding first update
first-update_other p q f [] apart = refl
first-update_other p q f (x ∷ xs) apart = ground (arith, apart x, first-update_other p q f xs apart)

round-Waits :
    (now : ℕ) (r : ServiceRequest) (d : Db)
    → r.pk ≢ 0
    → (q : ServiceRequest) → q.pk ≢ r.pk
    → Waits d q
    → Waits (expire_request now r d).1 q
round-Waits now r d stored q other (found, saved, receiving) =
    let d' = (expire_request now r d).1 in
    let still : IsStored q d' = elim (expire_request-requests now r d stored) [
      | inl same ↦ subst (λ rs. first (λ x. x.pk == q.pk) rs ≡ some q) (sym same) found
      | inr written ↦
          let unseen =
            first-update_other (λ x. x.pk == q.pk) (λ x. x.pk == r.pk)
              (λ x. record x { status = (ended_call now r d).status; closed_at = some now })
              d.requests (λ x here. (ground arith, ground arith)) in
          subst (λ rs. first (λ x. x.pk == q.pk) rs ≡ some q) (sym written) (rw unseen found)
    ] in
    (still, saved, receiving)

rest-Waits :
    (now : ℕ) (r : ServiceRequest) (d : Db) (rs : List ServiceRequest)
    → r.pk ≢ 0
    → All (λ q. q.pk ≢ r.pk) rs
    → All (Waits d) rs
    → All (Waits (expire_request now r d).1) rs
rest-Waits now r d [] stored others waits = tt
rest-Waits now r d (q ∷ rs) stored others waits =
    (round-Waits now r d stored q others.0 waits.0, rest-Waits now r d rs stored others.1 waits.1)

expire_each-Steps :
    (now : ℕ) (rs : List ServiceRequest) (n : ℕ) (d : Db)
    → All (Waits d) rs
    → Distinct (λ q. q.pk) rs
    → Steps (view d) (view (expire_each now rs n d).1)
unfolding expire_each
expire_each-Steps now [] n d waits apart = Steps-same (view d) _ refl
expire_each-Steps now (r ∷ rs) n d waits apart =
    let (found, stored, receiving) = waits.0 in
    let d₁ = (expire_request now r d).1 in
    let round = expire_request-Steps now r d stored found receiving in
    elim (expire_each-step now r rs n d) [
      | inl (through, same) ↦
          let rest =
            expire_each-Steps now rs (n + 1) d₁ (rest-Waits now r d rs stored apart.0 waits.1)
              apart.1 in
          subst (λ (o : Result ℕ × Db). Steps (view d) (view o.1)) (sym same)
            (Steps-append round rest)
      | inr (e, same) ↦ subst (λ (o : Result ℕ × Db). Steps (view d) (view o.1)) (sym same) round
    ]

pub expire_due_requests-Steps :
    (now : ℕ) (d : Db) → Sound (view d) → Steps (view d) (view (expire_due_requests now d).1)
unfolding expire_due_requests
expire_due_requests-Steps now d sound =
    let due = filter (is_due now) d.requests in
    let keyed : Distinct (λ q. q.pk) d.requests =
      keyed-Distinct (λ q. q.pk) d.requests sound.requests.unique in
    let sorted = due_requests now d in
    let apart : Distinct (λ q. q.pk) sorted =
      keyed-Distinct (λ q. q.pk) sorted
        (λ k. omega (
          arith,
          order_by-count is_published_later (λ q. q.pk == k) due,
          count-filter-le (is_due now) (λ q. q.pk == k) d.requests,
          sound.requests.unique k,
        )) in
    let found =
      All-filter_of (is_due now) (λ r. IsStored r d × (r.pk ≢ 0)) d.requests
        (All-both (λ r. IsStored r d) (λ r. r.pk ≢ 0) d.requests
          (keyed-found (λ q. q.pk) d.requests keyed) sound.saved) in
    expire_each-Steps now sorted 0 d
      (order_by-All is_published_later (Waits d) due (
        All-imp (λ r. (IsStored r d × (r.pk ≢ 0)) × (is_due now r ≡ true)) (Waits d)
          (λ r h. (h.0.0, h.0.1, ground (arith, h.1))) due
          (All-both (λ r. IsStored r d × (r.pk ≢ 0)) (λ r. is_due now r ≡ true) due found
            (filter-All_fit (is_due now) d.requests))))
      apart
