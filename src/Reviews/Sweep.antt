-- ===== src/Reviews/Sweep.antt =====
-- The periodic question of `create_pending_confirmations`: each pending interest is asked once.
use Prim.Native.Nat.add
use mathlib.Core.Path.{ap₂}
use tucano.Prelude.{
  ℕ, ◌+◌, ◌≡◌, refl, sym, subst, ap, ◌∙◌, Bool, true, false, List, [], ◌∷◌, ◌==◌, arith, exists,
  exists-append, filter, All, All-imp, All-filter, filter-nil, length,
}
use tucano.Models.{ServiceRequest, Interest}
use tucano.Db.{Db, Result, ok}
use tucano.Reviews.Services.{
  new_confirmation, create_confirmation, with_request, is_pending, ask_both, ask_each, pending,
  create_pending_confirmations,
}

-- The interest with this key was asked about.
abbrev pub asked : ℕ → Db → Bool
asked k d = exists (λ c. c.interest == k) d.confirmations

-- One round asks about its interest, forgets no other, and touches neither interests nor calls.
record Asks (k : ℕ) (d d' : Db) : Type 0 where
  here : asked k d' ≡ true
  others : (j : ℕ) → asked j d ≡ true → asked j d' ≡ true
  requests : d'.requests ≡ d.requests
  interests : d'.interests ≡ d.interests

ask_both-ok : (i : Interest) (r : ServiceRequest) (d : Db) → (ask_both i r d).0 ≡ ok tt
unfolding ask_both create_confirmation
ask_both-ok i r d = ground arith

ask_both-Asks : (i : Interest) (r : ServiceRequest) (d : Db) → Asks i.pk d (ask_both i r d).1
unfolding ask_both create_confirmation exists
ask_both-Asks i r d = record {
  here = ground (
    arith,
    exists-append (λ c. c.interest == i.pk) d.confirmations (new_confirmation d.next_pk i.pk ∷ []),
  );
  others = λ j e. ground (
    arith,
    exists-append (λ c. c.interest == j) d.confirmations (new_confirmation d.next_pk i.pk ∷ []),
  );
  requests = refl;
  interests = refl;
}

-- The whole loop.
record AsksAll (ps : List (Interest × ServiceRequest)) (d d' : Db) : Type 0 where
  here : All (λ p. asked p.0.pk d' ≡ true) ps
  others : (j : ℕ) → asked j d ≡ true → asked j d' ≡ true
  requests : d'.requests ≡ d.requests
  interests : d'.interests ≡ d.interests

ask_each-step :
    (i : Interest) (r : ServiceRequest) (ps : List (Interest × ServiceRequest)) (n : ℕ) (d : Db)
    → ask_each ((i, r) ∷ ps) n d ≡ ask_each ps (n + 1) (ask_both i r d).1
unfolding ask_each
ask_each-step i r ps n d = ground (arith, ask_both-ok i r d)

ask_each-ok :
    (ps : List (Interest × ServiceRequest)) (n : ℕ) (d : Db)
    → (ask_each ps n d).0 ≡ ok (n + length ps)
unfolding ask_each
ask_each-ok [] n d = ground arith
ask_each-ok ((i, r) ∷ ps) n d =
    ground (arith, ask_each-step i r ps n d, ask_each-ok ps (n + 1) (ask_both i r d).1)

ask_each-AsksAll :
    (ps : List (Interest × ServiceRequest)) (n : ℕ) (d : Db) → AsksAll ps d (ask_each ps n d).1
unfolding ask_each
ask_each-AsksAll [] n d = record { here = tt; others = λ j e. e; requests = refl; interests = refl }
ask_each-AsksAll ((i, r) ∷ ps) n d =
    let step = ask_both-Asks i r d in
    let rest = ask_each-AsksAll ps (n + 1) (ask_both i r d).1 in
    let all : AsksAll ((i, r) ∷ ps) d (ask_each ps (n + 1) (ask_both i r d).1).1 = record {
      here = (rest.others i.pk step.here, rest.here);
      others = λ j e. rest.others j (step.others j e);
      requests = rest.requests ∙ step.requests;
      interests = rest.interests ∙ step.interests;
    } in
    subst (λ (o : Result ℕ × Db). AsksAll ((i, r) ∷ ps) d o.1) (sym (ask_each-step i r ps n d)) all

-- Once every interest that was pending has been asked about, none is pending.
AsksAll-pending : (now : ℕ) (d d' : Db) → AsksAll (pending now d) d d' → pending now d' ≡ []
unfolding pending
AsksAll-pending now d d' all =
    let rows = with_request d.requests d.interests in
    ap₂ (λ rs is. filter (is_pending now d') (with_request rs is)) all.requests all.interests
    ∙ filter-nil (is_pending now d') rows (
        All-imp (λ p. is_pending now d p ≡ true → asked p.0.pk d' ≡ true)
          (λ p. is_pending now d' p ≡ false) (settled d d' all.others) rows
          (All-filter (is_pending now d) (λ p. asked p.0.pk d' ≡ true) rows all.here))
  where
    settled :
        (d d' : Db)
        → ((j : ℕ) → asked j d ≡ true → asked j d' ≡ true)
        → (p : Interest × ServiceRequest) → (is_pending now d p ≡ true → asked p.0.pk d' ≡ true)
        → is_pending now d' p ≡ false
    settled d d' others (i, r) h = ground (arith, others i.pk)

-- The sweep never fails and returns how many interests were pending, and after it none is pending
-- at that time: each was asked about, so a second sweep asks nobody again.
pub create_pending_confirmations-settles :
    (now : ℕ) (d : Db)
    → ((create_pending_confirmations now d).0 ≡ ok (length (pending now d)))
      × (pending now (create_pending_confirmations now d).1 ≡ [])
unfolding create_pending_confirmations
create_pending_confirmations-settles now d = (
  ask_each-ok (pending now d) 0 d ∙ ap ok (add.zero (length (pending now d))),
  AsksAll-pending now d _ (ask_each-AsksAll (pending now d) 0 d),
)
