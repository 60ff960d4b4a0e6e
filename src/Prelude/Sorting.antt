-- ===== src/Prelude/Sorting.antt =====
-- The ORM's `order_by`: rows that the order leaves equal come in the order of their table.
use mathlib.Core.Path.{◌≡◌, refl, sym, ap, ◌∙◌}
use mathlib.Core.Bool.{Bool, true, false}
use mathlib.Core.Logic.{inl, inr}
use mathlib.Core.List.{List, [], ◌∷◌, ◌++◌, reverse, reverse-cons}
use native.Mathlib.Omega.{arith}
use tucano.Prelude.Tests.{if◌then◌else◌, Bool-cases}
use tucano.Prelude.Lists.{All, All-imp, length}
use tucano.Prelude.QuerySet.{count}

-- Each row may stand before all that come behind it.
abbrev pub Ordered {ℓ} : {A : Type ℓ} → (A → A → Bool) → List A → Type ℓ
Ordered before [] = Unit
Ordered before (x ∷ xs) = All (λ y. before x y ≡ true) xs × Ordered before xs

module _ {ℓ} {A : Type ℓ} (before : A → A → Bool) where
  unfoldable pub insert : A → List A → List A
  insert x [] = x ∷ []
  insert x (y ∷ ys) = let rest = insert x ys in if before x y then x ∷ y ∷ ys else y ∷ rest

  -- `order_by`
  unfoldable pub order_by : List A → List A
  order_by [] = []
  order_by (x ∷ xs) = insert x (order_by xs)

  pub insert-count : (q : A → Bool) (x : A) (xs : List A) → count q (insert x xs) ≡ count q (x ∷ xs)
  unfolding insert count
  insert-count q x [] = refl
  insert-count q x (y ∷ ys) = ground (arith, insert-count q x ys)

  pub order_by-count : (q : A → Bool) (xs : List A) → count q (order_by xs) ≡ count q xs
  unfolding order_by count
  order_by-count q [] = refl
  order_by-count q (x ∷ xs) = ground (arith, insert-count q x (order_by xs), order_by-count q xs)

  pub insert-All {κ} : (P : A → Type κ) (x : A) (xs : List A) → P x → All P xs → All P (insert x xs)
  unfolding insert
  insert-All P x [] px h = (px, tt)
  insert-All P x (y ∷ ys) px h = elim (Bool-cases (before x y)) [
    | inl here ↦ rw here (px, h)
    | inr there ↦ rw there (h.0, insert-All P x ys px h.1)
  ]

  pub order_by-All {κ} : (P : A → Type κ) (xs : List A) → All P xs → All P (order_by xs)
  unfolding order_by
  order_by-All P [] h = tt
  order_by-All P (x ∷ xs) h = insert-All P x (order_by xs) h.0 (order_by-All P xs h.1)

  insert-All_back {κ} :
      (P : A → Type κ) (x : A) (xs : List A) → All P (insert x xs) → P x × All P xs
  unfolding insert
  insert-All_back P x [] h = h
  insert-All_back P x (y ∷ ys) h = elim (Bool-cases (before x y)) [
    | inl here ↦ rw here at h
    | inr there ↦
        let k : P y × All P (insert x ys) = rw there at h in
        let rest = insert-All_back P x ys k.1 in (rest.0, (k.0, rest.1))
  ]

  -- What all rows of the ordered list fit, all rows of the table fit.
  pub order_by-All_back {κ} : (P : A → Type κ) (xs : List A) → All P (order_by xs) → All P xs
  unfolding order_by
  order_by-All_back P [] h = tt
  order_by-All_back P (x ∷ xs) h =
      let k = insert-All_back P x (order_by xs) h in (k.0, order_by-All_back P xs k.1)

  length-insert : (x : A) (xs : List A) → length (insert x xs) ≡ length (x ∷ xs)
  unfolding insert
  length-insert x [] = refl
  length-insert x (y ∷ ys) = ground (arith, length-insert x ys)

  pub length-order_by : (xs : List A) → length (order_by xs) ≡ length xs
  unfolding order_by
  length-order_by [] = refl
  length-order_by (x ∷ xs) = omega (arith, length-insert x (order_by xs), length-order_by xs)

  module _ (total : (x y : A) → before x y ≡ false → before y x ≡ true)
      (trans : (x y z : A) → before x y ≡ true → before y z ≡ true → before x z ≡ true) where
    pub insert-Ordered : (x : A) (xs : List A) → Ordered before xs → Ordered before (insert x xs)
    unfolding insert
    insert-Ordered x [] h = (tt, tt)
    insert-Ordered x (y ∷ ys) h = elim (Bool-cases (before x y)) [
      | inl here ↦ rw here (
        (
          here,
          All-imp (λ z. before y z ≡ true) (λ z. before x z ≡ true) (λ z. trans x y z here) ys h.0,
        ),
        h,
      )
      | inr there ↦
          rw there (
            insert-All (λ z. before y z ≡ true) x ys (total x y there) h.0,
            insert-Ordered x ys h.1,
          )
    ]

    pub order_by-Ordered : (xs : List A) → Ordered before (order_by xs)
    unfolding order_by
    order_by-Ordered [] = tt
    order_by-Ordered (x ∷ xs) = insert-Ordered x (order_by xs) (order_by-Ordered xs)

  -- A row that may stand before none of the others comes last.
  pub insert-last :
      (x : A) (xs : List A) → All (λ y. before x y ≡ false) xs → insert x xs ≡ xs ++ (x ∷ [])
  unfolding insert
  insert-last x [] h = refl
  insert-last x (y ∷ ys) h = ground (arith, h.0, insert-last x ys h.1)

  -- Each row may stand before none of those behind it.
  abbrev pub Reversed : List A → Type ℓ
  Reversed [] = Unit
  Reversed (x ∷ xs) = All (λ y. before x y ≡ false) xs × Reversed xs

  -- Such a table comes out the other way round.
  pub order_by-reverse : (xs : List A) → Reversed xs → order_by xs ≡ reverse xs
  unfolding order_by
  order_by-reverse [] h = refl
  order_by-reverse (x ∷ xs) h =
      insert-last x (order_by xs) (order_by-All (λ y. before x y ≡ false) xs h.0)
      ∙ ap (λ ys. ys ++ (x ∷ [])) (order_by-reverse xs h.1)
      ∙ sym (reverse-cons x xs)
