-- ===== src/Requests/Totality.antt =====
-- When the sweep `expire_due_requests` gets through all its calls.
use Prim.Native.Nat.add
use tucano.Prelude.{
  order_by-All, length-order_by, some, ℕ, ◌+◌, ◌≡◌, ◌≢◌, refl, ap, ◌∙◌, Bool, false, List, [], ◌∷◌,
  ◌==◌, ◌&&◌, not, leb, ltb, arith, filter, count, update, exists, exists-none, exists-update_same,
  All, All-imp, length,
}
use tucano.Models.{ServiceRequest, window_duration}
use tucano.Db.{Db, ok}
use tucano.Audit.{log_event}
use tucano.Requests.Clean.{request_field_faults, is_duplicate}
use tucano.Requests.Services.{
  is_selected_in, selected_count, is_remaining, is_due, expire_request, expire_each,
  is_published_later, due_requests, expire_due_requests,
}
use tucano.Requests.Saves.{Passes, save-Passes}
use tucano.Requests.Closing.{end_interests-requests}
use tucano.Requests.Rounds.{expired_call, before_save}
use tucano.Requests.Expiry.{expire_due_requests-settles}

-- Another call of the same client and category, at most five minutes old, in whatever state.
abbrev pub is_twin : ℕ → ServiceRequest → ServiceRequest → Bool
is_twin now r q =
    q.client.pk == r.client.pk
    && q.category == r.category
    && leb now (q.published_at + 300)
    && not (q.pk == r.pk)

-- A call that was valid when it was published, and has no such twin.
pub record IsValid (now : ℕ) (d : Db) (r : ServiceRequest) : Type 0 where
  pub stored : r.pk ≢ 0
  pub fields : request_field_faults r ≡ []
  pub window : ltb r.scheduled_start (r.published_at + window_duration r.interest_window) ≡ false
  pub alone : exists (is_twin now r) d.requests ≡ false

-- A round for a valid call goes through, and writes that call alone.
expire_request-valid :
    (now : ℕ) (r : ServiceRequest) (d : Db)
    → IsValid now d r
    → ((expire_request now r d).0 ≡ ok tt)
      × ((expire_request now r d).1.requests
          ≡ update
              (λ q. q.pk == r.pk)
              (λ q. record q { status = (expired_call now r d).status; closed_at = some now })
              d.requests)
unfolding expire_request selected_count log_event request_field_faults
expire_request-valid now r d v =
    let ended = expired_call now r d in
    let write : ServiceRequest → ServiceRequest =
      λ q. record q { status = ended.status; closed_at = some now } in
    let d₁ = before_save now r d in
    let same : d₁.requests ≡ d.requests =
      end_interests-requests ended (count (is_selected_in r) d.interests) _ _ d in
    let single : exists (is_duplicate now r) d.requests ≡ false =
      exists-none (is_duplicate now r) (is_twin now r) (λ q e. ground arith) d.requests v.alone in
    let passes : Passes now ended d₁ = record {
      stored = v.stored;
      fields = v.fields;
      window = v.window;
      single = ground (arith, single);
    } in
    let saved = save-Passes now ended write d₁ passes in (ground arith, ground arith)

-- A round leaves the other calls valid.
round-IsValid :
    (now : ℕ) (r q : ServiceRequest) (d : Db)
    → IsValid now d r
    → IsValid now d q
    → IsValid now (expire_request now r d).1 q
round-IsValid now r q d v w = record {
  stored = w.stored;
  fields = w.fields;
  window = w.window;
  alone =
      ap (exists (is_twin now q)) (expire_request-valid now r d v).1
      ∙ exists-update_same (is_twin now q) (λ x. x.pk == r.pk)
          (λ x. record x { status = (expired_call now r d).status; closed_at = some now })
          (λ x. refl) d.requests
      ∙ w.alone;
}

expire_each-total :
    (now : ℕ) (rs : List ServiceRequest) (n : ℕ) (d : Db)
    → All (IsValid now d) rs
    → (expire_each now rs n d).0 ≡ ok (n + length rs)
unfolding expire_each
expire_each-total now [] n d valid = ground arith
expire_each-total now (r ∷ rs) n d valid =
    let through = (expire_request-valid now r d valid.0).0 in
    let d₁ = (expire_request now r d).1 in
    let rest = expire_each-total now rs (n + 1) d₁ (
      All-imp (IsValid now d) (IsValid now d₁) (λ q. round-IsValid now r q d valid.0) rs valid.1) in
    ground arith

-- Where each call that is due was valid when it was published, and no other call of its client and
-- category is at most five minutes old, the sweep gets through all of them: it returns how many
-- there were, and none of them has an interest left that is still open.
pub expire_due_requests-total :
    (now : ℕ) (d : Db)
    → All (λ r. r.pk ≢ 0) d.requests
    → All (IsValid now d) (filter (is_due now) d.requests)
    → let due = filter (is_due now) d.requests in
      ((expire_due_requests now d).0 ≡ ok (length due))
      × All (λ r. count (is_remaining r) (expire_due_requests now d).1.interests ≡ 0) due
unfolding expire_due_requests
expire_due_requests-total now d stored valid =
    let due = filter (is_due now) d.requests in
    let sorted = due_requests now d in
    let through =
      expire_each-total now sorted 0 d (order_by-All is_published_later (IsValid now d) due valid)
      ∙ ap ok (add.zero (length sorted) ∙ length-order_by is_published_later due) in
    (through, ((expire_due_requests-settles now d stored).1 (length due) through).1)
