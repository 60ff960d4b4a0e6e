-- ===== src/Prelude/Tables.antt =====
-- How a table changes over time: rows are kept in place, each related to what it becomes, and new
-- rows come behind them.
use Prim.Native.Nat.{ℕ, suc, ◌≤◌, ◌<◌}
use mathlib.Core.Path.{◌≡◌, refl, sym, subst, ap}
use mathlib.Core.Bool.{Bool, true, false}
use mathlib.Core.Option.{some}
use mathlib.Core.Logic.{◌≢◌, inl, inr}
use mathlib.Core.List.{List, [], ◌∷◌, ◌++◌}
use native.Mathlib.Omega.{arith}
use tucano.Prelude.Tests.{Bool-cases, ◌==◌, ==_refl}
use tucano.Prelude.Lists.{All, All-of, All-imp, All-both, All-append}
use tucano.Prelude.QuerySet.{
  first, count, update, filter, first_unique, All-of_count-zero, count-append,
}
use tucano.Prelude.Updates.{count-filter-le, All-filter_of, count-update_same, All-update}

abbrev pub Grows {ℓ} : {A : Type ℓ} → (A → A → Type 0) → List A → List A → Type 0
Grows P [] ys = Unit
Grows P (x ∷ xs) [] = ⊥
Grows P (x ∷ xs) (y ∷ ys) = P x y × Grows P xs ys

module _ {ℓ} {A : Type ℓ} (P : A → A → Type 0) where
  pub Grows-refl : ((x : A) → P x x) → (xs : List A) → Grows P xs xs
  Grows-refl h [] = tt
  Grows-refl h (x ∷ xs) = (h x, Grows-refl h xs)

  pub Grows-trans :
      ((x y z : A) → P x y → P y z → P x z)
      → (xs ys zs : List A) → Grows P xs ys
      → Grows P ys zs
      → Grows P xs zs
  Grows-trans h [] ys zs a b = tt
  Grows-trans h (x ∷ xs) [] zs a b = absurd a
  Grows-trans h (x ∷ xs) (y ∷ ys) [] a b = absurd b
  Grows-trans h (x ∷ xs) (y ∷ ys) (z ∷ zs) a b = (h x y z a.0 b.0, Grows-trans h xs ys zs a.1 b.1)

  pub Grows-append : ((x : A) → P x x) → (xs ys : List A) → Grows P xs (xs ++ ys)
  Grows-append h [] ys = tt
  Grows-append h (x ∷ xs) ys = (h x, Grows-append h xs ys)

  module _ (q : A → Bool) (f : A → A) where
    pub Grows-update :
        ((x : A) → P x x)
        → (xs : List A) → All (λ x. q x ≡ true → P x (f x)) xs
        → Grows P xs (update q f xs)
    unfolding update
    Grows-update h [] k = tt
    Grows-update h (x ∷ xs) k = (
      elim (Bool-cases (q x)) [ inl here ↦ rw here (k.0 here) | inr there ↦ rw there (h x) ],
      Grows-update h xs k.1,
    )

    -- A write by a key that one row has.
    pub Grows-update_found :
        ((x : A) → P x x)
        → (xs : List A) (c : A) → first q xs ≡ some c
        → count q xs ≤ 1
        → P c (f c)
        → Grows P xs (update q f xs)
    Grows-update_found h xs c found single step = Grows-update h xs (
        All-imp (λ x. q x ≡ true → x ≡ c) (λ x. q x ≡ true → P x (f x))
          (λ x same here. subst (λ y. P y (f y)) (sym (same here)) step) xs
          (first_unique q xs c found single))

-- A table whose rows have distinct keys, all of them handed out before `next`.
pub record IsKeyed {ℓ} {A : Type ℓ} (key : A → ℕ) (next : ℕ) (xs : List A) : Type ℓ where
  pub unique : (k : ℕ) → count (λ x. key x == k) xs ≤ 1
  pub below : All (λ x. key x < next) xs

module _ {ℓ} {A : Type ℓ} (key : A → ℕ) where
  pub IsKeyed-update :
      (q : A → Bool) (f : A → A) (next : ℕ) (xs : List A)
      → ((x : A) → key (f x) ≡ key x)
      → IsKeyed key next xs
      → IsKeyed key next (update q f xs)
  IsKeyed-update q f next xs same h = record {
    unique = λ k. omega (
      arith,
      count-update_same q f (λ x. key x == k) xs
          (All-of (λ x. q x ≡ true → (key (f x) == k) ≡ (key x == k))
            (λ x e. ap (λ n. n == k) (same x)) xs),
      h.unique k,
    );
    below =
        All-update q f (λ x. key x < next) (λ x. key x < next) (λ x e lt. omega (arith, same x))
          (λ x e lt. lt) xs h.below;
  }

  count-fresh :
      (next : ℕ) (xs : List A) → All (λ x. key x < next) xs → count (λ x. key x == next) xs ≡ 0
  unfolding count
  count-fresh next [] h = refl
  count-fresh next (x ∷ xs) h = ground (arith, count-fresh next xs h.1)

  pub IsKeyed-weaken :
      {next more : ℕ} (xs : List A) → next ≤ more → IsKeyed key next xs → IsKeyed key more xs
  IsKeyed-weaken {next} {more} xs le h = record {
    unique = h.unique;
    below = All-imp (λ x. key x < next) (λ x. key x < more) (λ x lt. omega arith) xs h.below;
  }

  pub IsKeyed-append :
      (next : ℕ) (xs : List A) (x : A)
      → key x ≡ next
      → IsKeyed key next xs
      → IsKeyed key (suc next) (xs ++ x ∷ [])
  unfolding count
  IsKeyed-append next xs x e h = record {
    unique = λ k. ground (
      arith,
      count-append (λ y. key y == k) xs (x ∷ []),
      h.unique k,
      count-fresh next xs h.below,
      ap (λ n. count (λ y. key y == n) xs) e,
    );
    below =
        All-append (λ y. key y < suc next) xs (x ∷ [])
          (All-imp (λ y. key y < next) (λ y. key y < suc next) (λ y lt. omega arith) xs h.below)
          (omega arith, tt);
  }

  pub IsKeyed-filter :
      (p : A → Bool) (next : ℕ) (xs : List A) → IsKeyed key next xs → IsKeyed key next (filter p xs)
  IsKeyed-filter p next xs h = record {
    unique = λ k. omega (arith, count-filter-le p (λ x. key x == k) xs, h.unique k);
    below = All-filter_of p (λ x. key x < next) xs h.below;
  }

  -- Rows with distinct keys.
  abbrev pub Distinct : List A → Type 0
  Distinct [] = Unit
  Distinct (x ∷ xs) = All (λ y. key y ≢ key x) xs × Distinct xs

  pub keyed-Distinct : (xs : List A) → ((k : ℕ) → count (λ y. key y == k) xs ≤ 1) → Distinct xs
  unfolding count
  keyed-Distinct [] one = tt
  keyed-Distinct (x ∷ xs) one = (
    All-imp (λ y. (key y == key x) ≡ false) (λ y. key y ≢ key x) (λ y h. ground arith) xs
        (All-of_count-zero (λ y. key y == key x) xs (ground (arith, one (key x), ==_refl (key x)))),
    keyed-Distinct xs (λ k. ground (arith, one k)),
  )

  -- Each row is the one that its key finds.
  pub keyed-found :
      (xs : List A) → Distinct xs → All (λ x. first (λ y. key y == key x) xs ≡ some x) xs
  unfolding first
  keyed-found [] apart = tt
  keyed-found (x ∷ xs) apart = (
    ground (arith, ==_refl (key x)),
    All-imp (λ y. (first (λ z. key z == key y) xs ≡ some y) × (key y ≢ key x))
        (λ y. first (λ z. key z == key y) (x ∷ xs) ≡ some y) (λ y h. ground (arith, h.0, h.1)) xs
        (All-both (λ y. first (λ z. key z == key y) xs ≡ some y) (λ y. key y ≢ key x) xs
          (keyed-found xs apart.1) apart.0),
  )
