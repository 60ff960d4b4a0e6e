-- ===== src/Market/Spec.antt =====
-- An abstract specification of apps/requests: what may happen to calls, interests and
-- conversations, one small step at a time, and nothing about who asks, validation, notifications
-- or the audit.
use tucano.Prelude.{
  ℕ, suc, ◌≤◌, ◌≡◌, Bool, true, false, List, [], ◌∷◌, ◌++◌, ◌==◌, ◌&&◌, some, first, exists, update,
}
use tucano.Models.{
  RequestStatus, ServiceRequest, InterestStatus, Interest, Conversation, is_receiving, is_applied,
  is_selected,
}
use tucano.Db.{Db}
use tucano.Requests.Services.{is_remaining}

-- The tables that the specification speaks of.
pub record Market : Type 0 where
  pub next_pk : ℕ
  pub requests : List ServiceRequest
  pub interests : List Interest
  pub conversations : List Conversation

abbrev pub view : Db → Market
view d = record {
  next_pk = d.next_pk;
  requests = d.requests;
  interests = d.interests;
  conversations = d.conversations;
}

-- What an open interest may become.
abbrev pub is_final : InterestStatus → Bool
is_final InterestStatus.selected = true
is_final InterestStatus.not_selected = true
is_final InterestStatus.withdrawn = true
is_final InterestStatus.expired = true
is_final _ = false

-- What a call may become: one that receives interests may come to any state but a draft or a
-- completed one; one that does not may only be cancelled, and that only once.
abbrev pub may_become : RequestStatus → RequestStatus → Bool
may_become RequestStatus.receiving RequestStatus.draft = false
may_become RequestStatus.receiving RequestStatus.completed = false
may_become RequestStatus.receiving RequestStatus.receiving = false
may_become RequestStatus.receiving _ = true
may_become RequestStatus.partially_filled RequestStatus.draft = false
may_become RequestStatus.partially_filled RequestStatus.completed = false
may_become RequestStatus.partially_filled RequestStatus.receiving = false
may_become RequestStatus.partially_filled _ = true
may_become RequestStatus.draft RequestStatus.cancelled = true
may_become RequestStatus.filled RequestStatus.cancelled = true
may_become RequestStatus.expired RequestStatus.cancelled = true
may_become _ _ = false

-- A call with nothing but its status, closing time and reason written.
pub record Rewrites (r q : ServiceRequest) : Type 0 where
  pub pk : q.pk ≡ r.pk
  pub client : q.client ≡ r.client
  pub category : q.category ≡ r.category
  pub positions_count : q.positions_count ≡ r.positions_count
  pub scheduled_start : q.scheduled_start ≡ r.scheduled_start
  pub published_at : q.published_at ≡ r.published_at
  pub expires_at : q.expires_at ≡ r.expires_at

pub data Step (m : Market) : Market → Type 0 where
  -- A new call stands behind the others, with the next key, and receives interests.
  publish :
      (r : ServiceRequest)
      → r.pk ≡ m.next_pk
      → is_receiving r.status ≡ true
      → Step m (record m { next_pk = suc m.next_pk; requests = m.requests ++ (r ∷ []) })
  -- A new interest is an open one, in a call that receives interests.
  apply :
      (r : ServiceRequest) (i : Interest)
      → i.pk ≡ m.next_pk
      → is_applied i.status ≡ true
      → first (λ q. q.pk == i.service_request) m.requests ≡ some r
      → is_receiving r.status ≡ true
      → Step m (record m { next_pk = suc m.next_pk; interests = m.interests ++ (i ∷ []) })
  -- One open interest is decided.
  decide :
      (i : Interest) (s : InterestStatus)
      → first (λ j. j.pk == i.pk) m.interests ≡ some i
      → is_applied i.status ≡ true
      → is_final s ≡ true
      → Step m (record m {
        interests = update (λ j. j.pk == i.pk) (λ j. record j { status = s }) m.interests;
      })
  -- All open interests of a call are turned down or lapse.
  settle :
      (r : ServiceRequest) (s : InterestStatus)
      → is_final s ≡ true
      → is_selected s ≡ false
      → Step m (record m {
        interests = update (is_remaining r) (λ j. record j { status = s }) m.interests;
      })
  -- A call comes to another state.
  turn :
      (r : ServiceRequest) (write : ServiceRequest → ServiceRequest)
      → first (λ q. q.pk == r.pk) m.requests ≡ some r
      → ((q : ServiceRequest) → Rewrites q (write q))
      → may_become r.status (write r).status ≡ true
      → Step m (record m { requests = update (λ q. q.pk == r.pk) write m.requests })
  -- A conversation begins, about a selected interest.
  talk :
      (c : Conversation)
      → c.pk ≡ m.next_pk
      → exists (λ i. i.pk == c.interest && is_selected i.status) m.interests ≡ true
      → Step m (record m { next_pk = suc m.next_pk; conversations = m.conversations ++ (c ∷ []) })
  -- Other parts of the program take keys.
  elsewhere : (n : ℕ) → m.next_pk ≤ n → Step m (record m { next_pk = n })

-- Any number of steps.
pub data Steps (m : Market) : Market → Type 0 where
  done : Steps m m
  later : {o n : Market} → Steps m o → Step o n → Steps m n

pub Steps-append : {m n o : Market} → Steps m n → Steps n o → Steps m o
Steps-append a done = a
Steps-append a (later b s) = later (Steps-append a b) s
