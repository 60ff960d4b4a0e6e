-- ===== src/Requests/Expiry.antt =====
-- The periodic sweep of calls whose window has ended, `expire_due_requests`.
use Prim.Native.Nat.add
use tucano.Prelude.{
  order_by-All, order_by-All_back, length-order_by, All-filter_of, ℕ, ◌+◌, ◌≤◌, ◌<◌, ◌≡◌, ◌≢◌, refl,
  sym, subst, ◌∙◌, true, some, List, [], ◌∷◌, ◌==◌, ◌&&◌, arith, count, first, filter, exists,
  exists-update_found, All, inl, inr, ◌⊎◌, length,
}
use tucano.Models.{ServiceRequest}
use tucano.Db.{Db, Result, ok, err, Error}
use tucano.Audit.{log_event}
use tucano.Requests.Clean.{request_field_faults}
use tucano.Requests.Services.{
  is_remaining, is_selected_in, selected_count, is_due, expire_request, expire_each,
  is_published_later, due_requests, expire_due_requests,
}
use tucano.Requests.Saves.{Passes, save-Passes}
use tucano.Requests.Closing.{end_interests-requests}
use tucano.Requests.Rounds.{Shrinks, expired_call, before_save, expire_request-Ends}

Shrinks-trans : (d e f : Db) → Shrinks d e → Shrinks e f → Shrinks d f
Shrinks-trans d e f a b = record {
  fewer = λ q. omega (arith, a.fewer q, b.fewer q);
  kept = λ q. b.kept q ∙ a.kept q;
}

-- The loop goes on behind a round that went through, and ends at one that did not.
pub expire_each-step :
    (now : ℕ) (r : ServiceRequest) (rs : List ServiceRequest) (n : ℕ) (d : Db)
    → (((expire_request now r d).0 ≡ ok tt)
        × (expire_each now (r ∷ rs) n d ≡ expire_each now rs (n + 1) (expire_request now r d).1))
      ⊎ ((e : Error) × (expire_each now (r ∷ rs) n d ≡ (err e, (expire_request now r d).1)))
unfolding expire_each
expire_each-step now r rs n d = go (expire_request now r d).0 refl
  where
    go :
        (o : Result (Unit {0}))
        → (expire_request now r d).0 ≡ o
        → (((expire_request now r d).0 ≡ ok tt)
            × (expire_each now (r ∷ rs) n d
                ≡ expire_each now rs (n + 1) (expire_request now r d).1))
          ⊎ ((e : Error) × (expire_each now (r ∷ rs) n d ≡ (err e, (expire_request now r d).1)))
    go (ok tt) h = inl (h, ground arith)
    go (err e) h = inr (e, ground arith)

expire_each-Shrinks :
    (now : ℕ) (rs : List ServiceRequest) (n : ℕ) (d : Db)
    → All (λ r. r.pk ≢ 0) rs
    → Shrinks d (expire_each now rs n d).1
unfolding expire_each
expire_each-Shrinks now [] n d stored = record { fewer = λ q. omega arith; kept = λ q. refl }
expire_each-Shrinks now (r ∷ rs) n d stored =
    let (settled, shrinks) = expire_request-Ends now r d stored.0 in
    elim (expire_each-step now r rs n d) [
      | inl (through, same) ↦
          subst (λ (o : Result ℕ × Db). Shrinks d o.1) (sym same)
            (Shrinks-trans d (expire_request now r d).1 _ shrinks
              (expire_each-Shrinks now rs (n + 1) (expire_request now r d).1 stored.1))
      | inr (e, same) ↦ subst (λ (o : Result ℕ × Db). Shrinks d o.1) (sym same) shrinks
    ]

expire_each-settles :
    (now : ℕ) (rs : List ServiceRequest) (n m : ℕ) (d : Db)
    → All (λ r. r.pk ≢ 0) rs
    → (expire_each now rs n d).0 ≡ ok m
    → (m ≡ n + length rs)
      × All (λ r. count (is_remaining r) (expire_each now rs n d).1.interests ≡ 0) rs
unfolding expire_each
expire_each-settles now [] n m d stored h = (ground arith, tt)
expire_each-settles now (r ∷ rs) n m d stored h =
    let (settled, shrinks) = expire_request-Ends now r d stored.0 in
    elim (expire_each-step now r rs n d) [
      | inl (through, same) ↦
          let d₁ = (expire_request now r d).1 in
          let rest = expire_each-settles now rs (n + 1) m d₁ stored.1 (rw same at h) in
          let later = expire_each-Shrinks now rs (n + 1) d₁ stored.1 in
          subst
            (λ (o : Result ℕ × Db).
              (m ≡ n + length (r ∷ rs))
              × All (λ q. count (is_remaining q) o.1.interests ≡ 0) (r ∷ rs))
            (sym same) (omega (arith, rest.0), (omega (arith, settled, later.fewer r), rest.1))
      | inr (e, same) ↦ absurd (ground arith)
    ]

-- Where no stored call has the key of an unsaved one: whether or not an exception ends it, the
-- sweep opens no interest in any call and changes nobody's selection. Where it returns, it returns
-- how many calls were due, and none of them has an interest left that is still open.
pub expire_due_requests-settles :
    (now : ℕ) (d : Db)
    → All (λ r. r.pk ≢ 0) d.requests
    → let due = filter (is_due now) d.requests in
      let d' = (expire_due_requests now d).1 in
      Shrinks d d'
      × ((m : ℕ)
          → (expire_due_requests now d).0 ≡ ok m
          → (m ≡ length due) × All (λ r. count (is_remaining r) d'.interests ≡ 0) due)
unfolding expire_due_requests
expire_due_requests-settles now d stored =
    let due = filter (is_due now) d.requests in
    let sorted = due_requests now d in
    let keyed : All (λ r. r.pk ≢ 0) sorted =
      order_by-All is_published_later (λ r. r.pk ≢ 0) due
        (All-filter_of (is_due now) (λ r. r.pk ≢ 0) d.requests stored) in
    (
      expire_each-Shrinks now sorted 0 d keyed,
      λ m h.
          let (total, settled) = expire_each-settles now sorted 0 m d keyed h in
          (
            total ∙ add.zero (length sorted) ∙ length-order_by is_published_later due,
            order_by-All_back is_published_later
                (λ r. count (is_remaining r) (expire_due_requests now d).1.interests ≡ 0) due
                settled,
          ),
    )

-- A stored call that is due with some of its positions filled, but not all, and whose save has no
-- fault, is due again once its round
-- has gone through: the status that it gets still receives interests.
pub expire_request-still_due :
    (now : ℕ) (r : ServiceRequest) (d : Db)
    → first (λ q. q.pk == r.pk) d.requests ≡ some r
    → is_due now r ≡ true
    → 1 ≤ count (is_selected_in r) d.interests
    → count (is_selected_in r) d.interests < r.positions_count
    → Passes now r d
    → ((expire_request now r d).0 ≡ ok tt)
      × (exists (λ q. q.pk == r.pk && is_due now q) (expire_request now r d).1.requests ≡ true)
unfolding expire_request selected_count log_event request_field_faults
expire_request-still_due now r d found due some_selected some_free h =
    let ended = expired_call now r d in
    let write : ServiceRequest → ServiceRequest =
      λ q. record q { status = ended.status; closed_at = some now } in
    let d₁ = before_save now r d in
    let same : d₁.requests ≡ d.requests =
      end_interests-requests ended (count (is_selected_in r) d.interests) _ _ d in
    let passes : Passes now ended d₁ = record {
      stored = h.stored;
      fields = h.fields;
      window = h.window;
      single = ground (arith, h.single);
    } in
    let saved = save-Passes now ended write d₁ passes in
    let again =
      exists-update_found (λ q. q.pk == r.pk) (λ q. q.pk == r.pk && is_due now q) write d.requests r
        found (ground arith) in
    (ground arith, ground arith)
