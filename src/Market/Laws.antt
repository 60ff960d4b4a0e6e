-- ===== src/Market/Laws.antt =====
-- What every sequence of steps of the specification keeps true.
use tucano.Prelude.{
  ℕ, ◌≤◌, ◌≡◌, ◌≢◌, ◌⊎◌, inr, refl, sym, subst, Bool, true, List, [], ◌∷◌, ◌==◌, ◌&&◌, exists,
  arith, All, All-of, All-imp, All-append, All-update, Grows, Grows-refl, Grows-trans, Grows-append,
  Grows-update, Grows-update_found, IsKeyed, IsKeyed-update, IsKeyed-append, IsKeyed-weaken,
}
use tucano.Models.{RequestStatus, ServiceRequest, Interest, Conversation, is_applied, is_selected}
use tucano.Requests.Services.{is_remaining}
use tucano.Market.Spec.{
  Market, is_final, may_become, Rewrites, Step, publish, apply, decide, settle, turn, talk,
  elsewhere, Steps, done, later,
}

-- What may become of a call: its terms stay, and its state comes where it may or stays.
pub record KeepsCall (x y : ServiceRequest) : Type 0 where
  pub terms : Rewrites x y
  pub status : (y.status ≡ x.status) ⊎ (may_become x.status y.status ≡ true)

-- What may become of an interest: its call, professional and message stay, and it is decided once
-- at most.
pub record KeepsInterest (x y : Interest) : Type 0 where
  pub pk : y.pk ≡ x.pk
  pub service_request : y.service_request ≡ x.service_request
  pub professional : y.professional ≡ x.professional
  pub message : y.message ≡ x.message
  pub status : (y.status ≡ x.status) ⊎ ((is_applied x.status ≡ true) × (is_final y.status ≡ true))

KeepsCall-refl : (x : ServiceRequest) → KeepsCall x x
KeepsCall-refl x = ground arith

may_become_trans :
    (a b c : RequestStatus) → may_become a b ≡ true → may_become b c ≡ true → may_become a c ≡ true
may_become_trans a b c h k = ground arith

KeepsCall-trans : (x y z : ServiceRequest) → KeepsCall x y → KeepsCall y z → KeepsCall x z
KeepsCall-trans x y z a b = ground (arith, may_become_trans x.status y.status z.status)

KeepsInterest-refl : (x : Interest) → KeepsInterest x x
KeepsInterest-refl x = ground arith

KeepsInterest-trans : (x y z : Interest) → KeepsInterest x y → KeepsInterest y z → KeepsInterest x z
KeepsInterest-trans x y z a b = ground arith

abbrev pub is_chosen : ℕ → Interest → Bool
is_chosen pk i = i.pk == pk && is_selected i.status

-- Keys are distinct and were handed out, and each conversation is about a selected interest.
pub record Sound (m : Market) : Type 0 where
  pub requests : IsKeyed (λ r. r.pk) m.next_pk m.requests
  pub interests : IsKeyed (λ i. i.pk) m.next_pk m.interests
  pub conversations : IsKeyed (λ c. c.pk) m.next_pk m.conversations
  pub positive : 1 ≤ m.next_pk
  pub saved : All (λ r. r.pk ≢ 0) m.requests
  pub talks : All (λ c. exists (is_chosen c.interest) m.interests ≡ true) m.conversations

-- A selected interest stays one.
pub Grows-chosen :
    (k : ℕ) (xs ys : List Interest)
    → Grows KeepsInterest xs ys
    → exists (is_chosen k) xs ≡ true
    → exists (is_chosen k) ys ≡ true
unfolding exists
Grows-chosen k [] ys g h = absurd (cc)
Grows-chosen k (x ∷ xs) [] g h = absurd g
Grows-chosen k (x ∷ xs) (y ∷ ys) g h = ground (arith, g.0, Grows-chosen k xs ys g.1)

Grows-talks :
    (cs : List Conversation) (xs ys : List Interest)
    → Grows KeepsInterest xs ys
    → All (λ c. exists (is_chosen c.interest) xs ≡ true) cs
    → All (λ c. exists (is_chosen c.interest) ys ≡ true) cs
Grows-talks cs xs ys g h =
    All-imp (λ c. exists (is_chosen c.interest) xs ≡ true)
      (λ c. exists (is_chosen c.interest) ys ≡ true) (λ c e. Grows-chosen c.interest xs ys g e) cs h

-- One step on the tables of interests.
pub Step-interests :
    (m n : Market) → Step m n → Sound m → Grows KeepsInterest m.interests n.interests
Step-interests m n (publish r key receiving) s =
    Grows-refl KeepsInterest KeepsInterest-refl m.interests
Step-interests m n (apply r i key open_ found receiving) s =
    Grows-append KeepsInterest KeepsInterest-refl m.interests (i ∷ [])
Step-interests m n (decide i st found open_ final) s =
    Grows-update_found KeepsInterest (λ j. j.pk == i.pk) (λ j. record j { status = st })
      KeepsInterest-refl m.interests i found (s.interests.unique i.pk) (ground arith)
Step-interests m n (settle r st final unselected) s =
    Grows-update KeepsInterest (is_remaining r) (λ j. record j { status = st }) KeepsInterest-refl
      m.interests
      (All-of (λ j. is_remaining r j ≡ true → KeepsInterest j (record j { status = st }))
        (λ j e. ground arith) m.interests)
Step-interests m n (turn r write found terms way) s =
    Grows-refl KeepsInterest KeepsInterest-refl m.interests
Step-interests m n (talk c key chosen) s = Grows-refl KeepsInterest KeepsInterest-refl m.interests
Step-interests m n (elsewhere k le) s = Grows-refl KeepsInterest KeepsInterest-refl m.interests

pub Step-requests : (m n : Market) → Step m n → Sound m → Grows KeepsCall m.requests n.requests
Step-requests m n (publish r key receiving) s =
    Grows-append KeepsCall KeepsCall-refl m.requests (r ∷ [])
Step-requests m n (apply r i key open_ found receiving) s =
    Grows-refl KeepsCall KeepsCall-refl m.requests
Step-requests m n (decide i st found open_ final) s = Grows-refl KeepsCall KeepsCall-refl m.requests
Step-requests m n (settle r st final unselected) s = Grows-refl KeepsCall KeepsCall-refl m.requests
Step-requests m n (turn r write found terms way) s =
    Grows-update_found KeepsCall (λ q. q.pk == r.pk) write KeepsCall-refl m.requests r found
      (s.requests.unique r.pk) (record { terms = terms r; status = inr way })
Step-requests m n (talk c key chosen) s = Grows-refl KeepsCall KeepsCall-refl m.requests
Step-requests m n (elsewhere k le) s = Grows-refl KeepsCall KeepsCall-refl m.requests

pub Step-Sound : (m n : Market) → Step m n → Sound m → Sound n
unfolding exists
Step-Sound m n (publish r key receiving) s = record {
  requests = IsKeyed-append (λ q. q.pk) m.next_pk m.requests r key s.requests;
  interests = IsKeyed-weaken (λ i. i.pk) m.interests (omega arith) s.interests;
  conversations = IsKeyed-weaken (λ c. c.pk) m.conversations (omega arith) s.conversations;
  positive = omega arith;
  saved =
      let pos = s.positive in
      All-append (λ q. q.pk ≢ 0) m.requests (r ∷ []) s.saved (ground arith, tt);
  talks = s.talks;
}
Step-Sound m n (apply r i key open_ found receiving) s = record {
  requests = IsKeyed-weaken (λ q. q.pk) m.requests (omega arith) s.requests;
  interests = IsKeyed-append (λ j. j.pk) m.next_pk m.interests i key s.interests;
  conversations = IsKeyed-weaken (λ c. c.pk) m.conversations (omega arith) s.conversations;
  positive = omega arith;
  saved = s.saved;
  talks =
      Grows-talks m.conversations m.interests _
        (Step-interests m _ (apply r i key open_ found receiving) s) s.talks;
}
Step-Sound m n (decide i st found open_ final) s = record {
  requests = s.requests;
  interests =
      IsKeyed-update (λ j. j.pk) (λ j. j.pk == i.pk) (λ j. record j { status = st }) m.next_pk
        m.interests (λ j. refl) s.interests;
  conversations = s.conversations;
  positive = s.positive;
  saved = s.saved;
  talks =
      Grows-talks m.conversations m.interests _
        (Step-interests m _ (decide i st found open_ final) s) s.talks;
}
Step-Sound m n (settle r st final unselected) s = record {
  requests = s.requests;
  interests =
      IsKeyed-update (λ j. j.pk) (is_remaining r) (λ j. record j { status = st }) m.next_pk
        m.interests (λ j. refl) s.interests;
  conversations = s.conversations;
  positive = s.positive;
  saved = s.saved;
  talks =
      Grows-talks m.conversations m.interests _
        (Step-interests m _ (settle r st final unselected) s) s.talks;
}
Step-Sound m n (turn r write found terms way) s = record {
  requests =
      IsKeyed-update (λ q. q.pk) (λ q. q.pk == r.pk) write m.next_pk m.requests (λ q. (terms q).pk)
        s.requests;
  interests = s.interests;
  conversations = s.conversations;
  positive = s.positive;
  saved =
      All-update (λ q. q.pk == r.pk) write (λ q. q.pk ≢ 0) (λ q. q.pk ≢ 0)
        (λ q here h. subst (λ k. k ≢ 0) (sym (terms q).pk) h) (λ q other h. h) m.requests s.saved;
  talks = s.talks;
}
Step-Sound m n (talk c key chosen) s = record {
  requests = IsKeyed-weaken (λ q. q.pk) m.requests (omega arith) s.requests;
  interests = IsKeyed-weaken (λ j. j.pk) m.interests (omega arith) s.interests;
  conversations = IsKeyed-append (λ x. x.pk) m.next_pk m.conversations c key s.conversations;
  positive = omega arith;
  saved = s.saved;
  talks =
      All-append (λ x. exists (is_chosen x.interest) m.interests ≡ true) m.conversations (c ∷ [])
        s.talks (chosen, tt);
}
Step-Sound m n (elsewhere k le) s = record {
  requests = IsKeyed-weaken (λ q. q.pk) m.requests le s.requests;
  interests = IsKeyed-weaken (λ i. i.pk) m.interests le s.interests;
  conversations = IsKeyed-weaken (λ c. c.pk) m.conversations le s.conversations;
  positive = (let p = s.positive in omega arith);
  saved = s.saved;
  talks = s.talks;
}

pub Steps-Sound : (m n : Market) → Steps m n → Sound m → Sound n
Steps-Sound m n done s = s
Steps-Sound m n (later {o} a b) s = Step-Sound o n b (Steps-Sound m o a s)

-- Over any number of steps no call and no interest is lost; each keeps its terms and only comes
-- where it may.
pub Steps-Grows :
    (m n : Market)
    → Steps m n
    → Sound m
    → Grows KeepsCall m.requests n.requests × Grows KeepsInterest m.interests n.interests
Steps-Grows m n done s = (
  Grows-refl KeepsCall KeepsCall-refl m.requests,
  Grows-refl KeepsInterest KeepsInterest-refl m.interests,
)
Steps-Grows m n (later {o} a b) s =
    let (calls, interests) = Steps-Grows m o a s in
    let sound = Steps-Sound m o a s in
    (
      Grows-trans KeepsCall KeepsCall-trans m.requests o.requests n.requests calls
          (Step-requests o n b sound),
      Grows-trans KeepsInterest KeepsInterest-trans m.interests o.interests n.interests interests
          (Step-interests o n b sound),
    )
