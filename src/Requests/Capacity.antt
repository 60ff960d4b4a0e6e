-- ===== src/Requests/Capacity.antt =====
-- A call never has more selected professionals than positions.
use tucano.Prelude.{
  ℕ, ◌+◌, ◌≤◌, ◌≡◌, ◌≢◌, sym, subst, ◌∙◌, true, false, some, List, ◌==◌, arith, first, count,
  update, ap, All, All-first, All-of, All-imp, All-both, first_unique, first-test, All-update,
  count-update_same, count-update-le, Bool-cases, ==→eq, inl, inr,
}
use tucano.Models.{RequestStatus, ServiceRequest, InterestStatus, Interest, is_receiving}
use tucano.Db.{Db}
use tucano.Requests.Services.{is_remaining, is_selected_in}
use tucano.Requests.Saves.{with_status}
use tucano.Requests.Selection.{chosen, fills, interests_after, requests_after, IsSelection}

-- A call that receives interests has a free position, and no call has more than it offers.
pub record HasRoom (interests : List Interest) (r : ServiceRequest) : Type 0 where
  pub free :
      is_receiving r.status ≡ true → count (is_selected_in r) interests + 1 ≤ r.positions_count
  pub bound : count (is_selected_in r) interests ≤ r.positions_count

abbrev pub WithinCapacity : Db → Type 0
WithinCapacity d = All (HasRoom d.interests) d.requests

-- Primary keys: at most one row has each, and no stored call has the key of an unsaved one.
pub record KeysUnique (d : Db) : Type 0 where
  pub requests : (k : ℕ) → count (λ q. q.pk == k) d.requests ≤ 1
  pub interests : (k : ℕ) → count (λ j. j.pk == k) d.interests ≤ 1
  pub saved : All (λ q. q.pk ≢ 0) d.requests

-- Turning the remaining interests down changes no count of selected ones.
pub count-finalize :
    (q r : ServiceRequest) (final : InterestStatus) (xs : List Interest)
    → final ≢ InterestStatus.selected
    → count (is_selected_in q) (update (is_remaining r) (λ j. record j { status = final }) xs)
      ≡ count (is_selected_in q) xs
count-finalize q r final xs h =
    count-update_same (is_remaining r) (λ j. record j { status = final }) (is_selected_in q) xs
      (All-of
        (λ j.
          is_remaining r j ≡ true
          → is_selected_in q (record j { status = final }) ≡ is_selected_in q j)
        (λ j e. ground arith) xs)

module _ (now : ℕ) (i : Interest) (r : ServiceRequest) (d : Db)
    (found : first (λ j. j.pk == i.pk) d.interests ≡ some i)
    (target : first (λ q. q.pk == i.service_request) d.requests ≡ some r)
    (keys : KeysUnique d) where
  -- The call in memory is the one that the interest points to.
  target_key : r.pk ≡ i.service_request
  target_key = ==→eq _ _ (first-test (λ q. q.pk == i.service_request) d.requests r target)

  -- The rows with the key of the call are the call.
  rows_of_r : All (λ q. (q.pk == r.pk) ≡ true → q ≡ r) d.requests
  rows_of_r =
      subst (λ k. All (λ q. (q.pk == k) ≡ true → q ≡ r) d.requests) (sym target_key)
        (first_unique (λ q. q.pk == i.service_request) d.requests r target
          (keys.requests i.service_request))

  -- Another call sees no change.
  count-select_other :
      (q : ServiceRequest)
      → q.pk ≢ r.pk
      → count (is_selected_in q) (with_status (chosen i) d.interests)
        ≡ count (is_selected_in q) d.interests
  count-select_other q ne =
      count-update_same (λ j. j.pk == i.pk) select (is_selected_in q) d.interests
        (All-imp (λ j. (j.pk == i.pk) ≡ true → j ≡ i)
          (λ j. (j.pk == i.pk) ≡ true → is_selected_in q (select j) ≡ is_selected_in q j)
          (λ j same e.
            let here : j.service_request ≡ i.service_request =
              ap (λ (k : Interest). k.service_request) (same e) in
            ground (arith, target_key))
          d.interests (first_unique (λ j. j.pk == i.pk) d.interests i found (keys.interests i.pk)))
    where
      select : Interest → Interest
      select j = record j { status = InterestStatus.selected }

  -- The call itself has at most one more.
  count-select_own :
      count (is_selected_in r) (with_status (chosen i) d.interests)
      ≤ count (is_selected_in r) d.interests + 1
  count-select_own = omega (
    arith,
    count-update-le (λ j. j.pk == i.pk) (λ j. record j { status = InterestStatus.selected })
        (is_selected_in r) d.interests,
    keys.interests i.pk,
  )

  -- Rows that a selection writes, and rows of other calls, where `f` is what it writes and `after`
  -- the interests that it leaves.
  rows-HasRoom :
      (f : ServiceRequest → ServiceRequest) (after : List Interest)
      → HasRoom after (f r)
      → ((q : ServiceRequest)
          → q.pk ≢ r.pk
          → count (is_selected_in q) after ≡ count (is_selected_in q) d.interests)
      → WithinCapacity d
      → All (HasRoom after) (update (λ q. q.pk == r.pk) f d.requests)
  rows-HasRoom f after own other room =
      All-update (λ q. q.pk == r.pk) f
        (λ q. HasRoom d.interests q × ((q.pk == r.pk) ≡ true → q ≡ r)) (HasRoom after)
        (λ q e h. subst (λ x. HasRoom after (f x)) (sym (h.1 e)) own)
        (λ q e h. record {
          free = λ o. omega (arith, other q (ground arith), h.0.free o);
          bound = omega (arith, other q (ground arith), h.0.bound);
        })
        d.requests
        (All-both (HasRoom d.interests) (λ q. (q.pk == r.pk) ≡ true → q ≡ r) d.requests room
          rows_of_r)

  filled-HasRoom :
      fills i r d ≡ true
      → is_receiving r.status ≡ true
      → WithinCapacity d
      → All (HasRoom (interests_after i r d)) (requests_after now i r d)
  filled-HasRoom full receiving room =
      let own : HasRoom d.interests r =
        All-first (λ q. q.pk == i.service_request) (HasRoom d.interests) d.requests r room target in
      rw full (
        rows-HasRoom (λ q. record q { status = RequestStatus.filled; closed_at = some now })
          (update (is_remaining r) (λ j. record j { status = InterestStatus.not_selected })
            (with_status (chosen i) d.interests))
          (record {
            free = λ o. absurd (cc);
            bound = omega (
              arith,
              own.free receiving,
              count-select_own,
              count-finalize r r InterestStatus.not_selected (with_status (chosen i) d.interests)
                  (λ e. cc),
            );
          })
          (λ q ne.
            count-finalize q r InterestStatus.not_selected (with_status (chosen i) d.interests)
              (λ e. cc)
            ∙ count-select_other q ne)
          room)

  kept-HasRoom :
      fills i r d ≡ false
      → WithinCapacity d
      → All (HasRoom (interests_after i r d)) (requests_after now i r d)
  kept-HasRoom part room = rw part (
      rows-HasRoom (λ q. record q { status = RequestStatus.partially_filled })
        (with_status (chosen i) d.interests)
        (record { free = λ o. ground arith; bound = ground arith }) count-select_other room)

  pub selection-WithinCapacity :
      (d' : Db) → IsSelection now i r d d' → WithinCapacity d → WithinCapacity d'
  selection-WithinCapacity d' s room =
      subst (λ rs. All (HasRoom d'.interests) rs) (sym s.requests)
        (subst (λ is. All (HasRoom is) (requests_after now i r d)) (sym s.interests)
          (elim (Bool-cases (fills i r d)) [
            | inl full ↦ filled-HasRoom full s.receiving room
            | inr part ↦ kept-HasRoom part room
          ]))
