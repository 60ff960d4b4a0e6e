-- ===== src/Prelude/Updates.antt =====
-- What an update does to the rows of a table and to the queries over it.
use Prim.Native.Nat.{◌+◌, ◌≤◌}
use mathlib.Core.Path.{◌≡◌, refl, sym, ◌∙◌}
use mathlib.Core.Logic.{inl, inr}
use mathlib.Core.Bool.{Bool, true, false, ◌||◌, false≢true}
use mathlib.Core.Option.{none, some}
use mathlib.Core.List.{List, [], ◌∷◌, ◌++◌}
use native.Mathlib.Omega.{arith}
use tucano.Prelude.Tests.{Bool-cases}
use tucano.Prelude.Lists.{All}
use tucano.Prelude.QuerySet.{filter, exists, count, first, update}

-- What an update does to every row, and to a count over the rows.
module _ {ℓ} {A : Type ℓ} (q : A → Bool) (f : A → A) where
  pub All-update {κ μ} :
      (P : A → Type κ) (Q : A → Type μ)
      → ((x : A) → q x ≡ true → P x → Q (f x))
      → ((x : A) → q x ≡ false → P x → Q x)
      → (xs : List A) → All P xs
      → All Q (update q f xs)
  unfolding update
  All-update P Q hit miss [] h = tt
  All-update P Q hit miss (x ∷ xs) h = (
    elim (Bool-cases (q x)) [
      | inl here ↦ rw here (hit x here h.0)
      | inr there ↦ rw there (miss x there h.0)
    ],
    All-update P Q hit miss xs h.1,
  )

  pub count-update_same :
      (p : A → Bool) (xs : List A)
      → All (λ x. q x ≡ true → p (f x) ≡ p x) xs
      → count p (update q f xs) ≡ count p xs
  unfolding update count
  count-update_same p [] same = refl
  count-update_same p (x ∷ xs) same = ground (arith, same.0, count-update_same p xs same.1)

  pub count-update-le :
      (p : A → Bool) (xs : List A) → count p (update q f xs) ≤ count p xs + count q xs
  unfolding update count
  count-update-le p [] = omega arith
  count-update-le p (x ∷ xs) = ground (arith, count-update-le p xs)

  pub count-update_fewer :
      (p : A → Bool)
      → ((x : A) → q x ≡ true → p (f x) ≡ false)
      → (xs : List A) → count p (update q f xs) ≤ count p xs
  unfolding update count
  count-update_fewer p gone [] = omega arith
  count-update_fewer p gone (x ∷ xs) = ground (arith, gone x, count-update_fewer p gone xs)

  pub count-update_none :
      (p : A → Bool)
      → ((x : A) → p x ≡ true → q x ≡ true)
      → ((x : A) → q x ≡ true → p (f x) ≡ false)
      → (xs : List A) → count p (update q f xs) ≡ 0
  unfolding update count
  count-update_none p only gone [] = refl
  count-update_none p only gone (x ∷ xs) =
      ground (arith, only x, gone x, count-update_none p only gone xs)

-- A row that is found by a sharper question is the one row that fits a question with one answer.
module _ {ℓ} {A : Type ℓ} (q p : A → Bool) where
  count-pos : (xs : List A) (c : A) → first q xs ≡ some c → p c ≡ true → 1 ≤ count p xs
  unfolding first count
  count-pos [] c e h = absurd (cc)
  count-pos (x ∷ xs) c e h = elim (Bool-cases (q x)) [
    | inl here ↦ ground arith
    | inr there ↦ ground (arith, count-pos xs c (rw there at e) h)
  ]

  pub first-weaken :
      (xs : List A) (c : A)
      → first q xs ≡ some c
      → p c ≡ true
      → count p xs ≤ 1
      → first p xs ≡ some c
  unfolding first count
  first-weaken [] c e h le = absurd (cc)
  first-weaken (x ∷ xs) c e h le = elim (Bool-cases (q x)) [
    | inl here ↦ ground arith
    | inr there ↦
        let later : first q xs ≡ some c = rw there at e in
        ground (arith, count-pos xs c later h, first-weaken xs c later h)
  ]

-- A row that was found and written fits what its new columns say.
pub exists-update_found {ℓ} :
    {A : Type ℓ} (q p : A → Bool) (f : A → A) (xs : List A) (a : A)
    → first q xs ≡ some a
    → p (f a) ≡ true
    → exists p (update q f xs) ≡ true
unfolding first update exists
exists-update_found q p f [] a e h = absurd (cc)
exists-update_found q p f (x ∷ xs) a e h = elim (Bool-cases (q x)) [
  | inl here ↦ ground arith
  | inr there ↦ ground (arith, exists-update_found q p f xs a (rw there at e) h)
]

-- Whether some row fits, after rows were added or written.
module _ {ℓ} {A : Type ℓ} (p : A → Bool) where
  pub exists-append : (xs ys : List A) → exists p (xs ++ ys) ≡ (exists p xs || exists p ys)
  unfolding exists
  exists-append [] ys = refl
  exists-append (x ∷ xs) ys = ground (arith, exists-append xs ys)

  pub exists-first :
      (q : A → Bool) (xs : List A) (a : A) → first q xs ≡ some a → p a ≡ true → exists p xs ≡ true
  unfolding exists first
  exists-first q [] a e h = absurd (cc)
  exists-first q (x ∷ xs) a e h = ground (arith, exists-first q xs a)

  pub exists-update :
      (q : A → Bool) (f : A → A) (b : Bool)
      → ((x : A) → q x ≡ true → p (f x) ≡ true → (p x || b) ≡ true)
      → (xs : List A) → exists p (update q f xs) ≡ true
      → (exists p xs || b) ≡ true
  unfolding exists update
  exists-update q f b h [] e = absurd (cc)
  exists-update q f b h (x ∷ xs) e = ground (arith, h x, exists-update q f b h xs)

module _ {ℓ} {A : Type ℓ} (p : A → Bool) where
  pub filter-nil : (xs : List A) → All (λ x. p x ≡ false) xs → filter p xs ≡ []
  unfolding filter
  filter-nil [] h = refl
  filter-nil (x ∷ xs) h = ground (arith, filter-nil xs h.1)

  -- What holds of the rows that are asked for, holds of each row that fits.
  pub All-filter {κ} :
      (Q : A → Type κ) (xs : List A) → All Q (filter p xs) → All (λ x. p x ≡ true → Q x) xs
  unfolding filter
  All-filter Q [] h = tt
  All-filter Q (x ∷ xs) h = elim (Bool-cases (p x)) [
    | inl here ↦ let k : All Q (x ∷ filter p xs) = rw here at h in (λ _. k.0, All-filter Q xs k.1)
    | inr there ↦
        let k : All Q (filter p xs) = rw there at h in
        (λ e. absurd (false≢true (sym there ∙ e)), All-filter Q xs k)
  ]

module _ {ℓ} {A : Type ℓ} (p : A → Bool) where
  -- The rows that are asked for, fit, and hold what all rows hold.
  pub filter-All_fit : (xs : List A) → All (λ x. p x ≡ true) (filter p xs)
  unfolding filter
  filter-All_fit [] = tt
  filter-All_fit (x ∷ xs) = elim (Bool-cases (p x)) [
    | inl here ↦ rw here (here, filter-All_fit xs)
    | inr there ↦ rw there (filter-All_fit xs)
  ]

  pub All-filter_of {κ} : (P : A → Type κ) (xs : List A) → All P xs → All P (filter p xs)
  unfolding filter
  All-filter_of P [] h = tt
  All-filter_of P (x ∷ xs) h = elim (Bool-cases (p x)) [
    | inl here ↦ rw here (h.0, All-filter_of P xs h.1)
    | inr there ↦ rw there (All-filter_of P xs h.1)
  ]

  pub count-filter-le : (q : A → Bool) (xs : List A) → count q (filter p xs) ≤ count q xs
  unfolding filter count
  count-filter-le q [] = omega arith
  count-filter-le q (x ∷ xs) = ground (arith, count-filter-le q xs)

  pub filter-append : (xs ys : List A) → filter p (xs ++ ys) ≡ filter p xs ++ filter p ys
  unfolding filter
  filter-append [] ys = refl
  filter-append (x ∷ xs) ys = ground (arith, filter-append xs ys)

  -- Rows that do not fit may be taken away first.
  pub filter-filter :
      (q : A → Bool) (xs : List A)
      → All (λ x. q x ≡ false → p x ≡ false) xs
      → filter p (filter q xs) ≡ filter p xs
  unfolding filter
  filter-filter q [] h = refl
  filter-filter q (x ∷ xs) h = ground (arith, h.0, filter-filter q xs h.1)

module _ {ℓ} {A : Type ℓ} (p : A → Bool) where
  -- A sharper question finds nothing either.
  pub exists-none :
      (q : A → Bool)
      → ((x : A) → p x ≡ true → q x ≡ true)
      → (xs : List A) → exists q xs ≡ false
      → exists p xs ≡ false
  unfolding exists
  exists-none q h [] e = refl
  exists-none q h (x ∷ xs) e = ground (arith, h x, exists-none q h xs)

  -- A write that no question sees.
  pub exists-update_same :
      (q : A → Bool) (f : A → A)
      → ((x : A) → p (f x) ≡ p x)
      → (xs : List A) → exists p (update q f xs) ≡ exists p xs
  unfolding exists update
  exists-update_same q f h [] = refl
  exists-update_same q f h (x ∷ xs) = ground (arith, h x, exists-update_same q f h xs)

pub first-update {ℓ} :
    {A : Type ℓ} (q : A → Bool) (f : A → A) (xs : List A) (a : A)
    → ((x : A) → q x ≡ true → q (f x) ≡ true)
    → first q xs ≡ some a
    → first q (update q f xs) ≡ some (f a)
unfolding first update
first-update q f [] a same e = absurd (cc)
first-update q f (x ∷ xs) a same e = elim (Bool-cases (q x)) [
  | inl here ↦ ground (arith, same x)
  | inr there ↦ ground (arith, first-update q f xs a same (rw there at e))
]

pub first-append_new {ℓ} :
    {A : Type ℓ} (q : A → Bool) (xs : List A) (a : A)
    → first q xs ≡ none
    → q a ≡ true
    → first q (xs ++ (a ∷ [])) ≡ some a
unfolding first
first-append_new q [] a e h = ground arith
first-append_new q (x ∷ xs) a e h = elim (Bool-cases (q x)) [
  | inl here ↦ absurd (ground arith)
  | inr there ↦ ground (arith, first-append_new q xs a (rw there at e) h)
]
