-- ===== src/Prelude/QuerySet.antt =====
-- The ORM's query sets over a table kept as a list of rows in order of insertion: `filter`,
-- `exists`, `count`, `first` and `update` with a Boolean condition.
use Prim.Native.Nat.{ℕ, ◌+◌, ◌≤◌}
use mathlib.Core.Path.{◌≡◌, refl, subst}
use mathlib.Core.Logic.{inl, inr}
use mathlib.Core.Bool.{Bool, true, false, ◌||◌}
use mathlib.Core.Option.{Option, none, some}
use mathlib.Core.List.{List, [], ◌∷◌, ◌++◌}
use native.Mathlib.Omega.{arith}
use tucano.Prelude.Tests.{if◌then◌else◌, Bool-cases}
use tucano.Prelude.Lists.{All, All-imp}

abbrev pub one_if : Bool → ℕ
one_if true = 1
one_if false = 0

module _ {ℓ} {A : Type ℓ} where
  unfoldable pub filter : (A → Bool) → List A → List A
  filter p [] = []
  filter p (x ∷ xs) = let rest = filter p xs in if p x then x ∷ rest else rest

  unfoldable pub exists : (A → Bool) → List A → Bool
  exists p [] = false
  exists p (x ∷ xs) = p x || exists p xs

  unfoldable pub count : (A → Bool) → List A → ℕ
  count p [] = 0
  count p (x ∷ xs) = one_if (p x) + count p xs

  unfoldable pub first : (A → Bool) → List A → Option A
  first p [] = none
  first p (x ∷ xs) = let rest = first p xs in if p x then some x else rest

  -- `filter(p).update(...)`: `f` sets the columns of each row that fits.
  unfoldable pub update : (A → Bool) → (A → A) → List A → List A
  update p f [] = []
  update p f (x ∷ xs) = (if p x then f x else x) ∷ update p f xs

-- What a query finds.
module _ {ℓ} {A : Type ℓ} (p : A → Bool) where
  pub first-test : (xs : List A) (a : A) → first p xs ≡ some a → p a ≡ true
  unfolding first
  first-test [] a e = cc
  first-test (x ∷ xs) a e = elim (Bool-cases (p x)) [
    | inl here ↦ ground (arith, here)
    | inr there ↦ first-test xs a (rw there at e)
  ]

  pub All-first {κ} : (P : A → Type κ) (xs : List A) (a : A) → All P xs → first p xs ≡ some a → P a
  unfolding first
  All-first P [] a h e = absurd (cc)
  All-first P (x ∷ xs) a h e = elim (Bool-cases (p x)) [
    | inl here ↦ let same : x ≡ a = ground arith in subst P same h.0
    | inr there ↦ All-first P xs a h.1 (rw there at e)
  ]

  pub count-eq-zero : (xs : List A) → exists p xs ≡ false → count p xs ≡ 0
  unfolding exists count
  count-eq-zero [] h = refl
  count-eq-zero (x ∷ xs) h = ground (arith, count-eq-zero xs)

  pub count-append : (xs ys : List A) → count p (xs ++ ys) ≡ count p xs + count p ys
  unfolding count
  count-append [] ys = omega arith
  count-append (x ∷ xs) ys = omega (arith, count-append xs ys)

  pub count-first-pos : (xs : List A) (a : A) → first p xs ≡ some a → 1 ≤ count p xs
  unfolding first count
  count-first-pos [] a e = absurd (cc)
  count-first-pos (x ∷ xs) a e = ground (arith, count-first-pos xs a)

  pub All-of_count-zero : (xs : List A) → count p xs ≡ 0 → All (λ x. p x ≡ false) xs
  unfolding count
  All-of_count-zero [] h = tt
  All-of_count-zero (x ∷ xs) h = (ground arith, All-of_count-zero xs (ground arith))

  -- Where at most one row fits, every row that fits is the one that is found.
  pub first_unique :
      (xs : List A) (a : A)
      → first p xs ≡ some a
      → count p xs ≤ 1
      → All (λ x. p x ≡ true → x ≡ a) xs
  unfolding first count
  first_unique [] a e le = tt
  first_unique (x ∷ xs) a e le = elim (Bool-cases (p x)) [
    | inl here ↦ (
      λ _. ground arith,
      All-imp (λ y. p y ≡ false) (λ y. p y ≡ true → y ≡ a) (λ y no_fit fits. absurd (cc)) xs
          (All-of_count-zero xs (ground arith)),
    )
    | inr there ↦ (λ fits. absurd (cc), first_unique xs a (rw there at e) (ground arith))
  ]
