-- ===== src/Requests/Publishing.antt =====
-- What a call has passed when it is published: `ServiceRequest.save` of a new row.
use tucano.Prelude.{
  ℕ, ◌+◌, ◌≤◌, ◌≡◌, Bool, true, false, none, some, [], ◌∷◌, ◌++◌, leb, arith, count, count-append,
  ◌||◌, not, exists,
}
use tucano.Models.{ServiceRequest, window_duration, is_premium}
use tucano.Db.{Db, ok}
use tucano.Subscriptions.Limits.{counts_for_quota, can_client_publish_request, for_user}
use tucano.Subscriptions.Premium.{has_premium, for_user-premium}
use tucano.Requests.Clean.{
  insert_request, clean_request, check_window, check_duplicate, check_quota, is_duplicate,
}

for_user-requests : (user : ℕ) (d : Db) → (for_user user d).1.requests ≡ d.requests
unfolding for_user
for_user-requests user d = ground arith

-- What the client's plan lets through.
record Quota (now user : ℕ) (d : Db) : Type 0 where
  allowed : Bool
  answer : (can_client_publish_request now user d).0 ≡ ok allowed
  requests : (can_client_publish_request now user d).1.requests ≡ d.requests
  bound :
      allowed ≡ true
      → has_premium user d ≡ false
      → count (counts_for_quota now user) d.requests + 1 ≤ 5

can_publish-Quota : (now user : ℕ) (d : Db) → Quota now user d
unfolding can_client_publish_request
can_publish-Quota now user d =
    let (s, found, owner, same, was) = for_user-premium user user d in
    let keeps = for_user-requests user d in
    let published = count (counts_for_quota now user) d.requests in
    record {
      allowed = is_premium s || not (leb 5 published);
      answer = ground arith;
      requests = ground arith;
      bound = λ a free. ground arith;
    }

-- A new call, given no expiry, that is stored stands behind the others with the end of its window
-- as its expiry, no later than the service; the client had no other recent call of the category
-- that receives interests; and a client without Premium now has five calls in thirty days at most.
pub insert_request-checked :
    (now : ℕ) (r : ServiceRequest) (d : Db) (s : ServiceRequest)
    → r.pk ≡ 0
    → r.expires_at ≡ none
    → (insert_request now r d).0 ≡ ok s
    → ((insert_request now r d).1.requests ≡ d.requests ++ (s ∷ []))
      × (s.expires_at ≡ some (r.published_at + window_duration r.interest_window))
      × (r.published_at + window_duration r.interest_window ≤ s.scheduled_start)
      × (exists (is_duplicate now r) d.requests ≡ false)
      × (has_premium r.client.user d ≡ false
          → count (counts_for_quota now r.client.user) (insert_request now r d).1.requests ≤ 5)
unfolding insert_request clean_request check_window check_duplicate check_quota count
insert_request-checked now r d s new no_expiry e =
    let q = can_publish-Quota now r.client.user d in
    let stored : (insert_request now r d).1.requests ≡ d.requests ++ (s ∷ []) = ground arith in
    (
      stored,
      ground arith,
      ground arith,
      ground arith,
      λ free. ground (arith, count-append (counts_for_quota now r.client.user) d.requests (s ∷ [])),
    )
