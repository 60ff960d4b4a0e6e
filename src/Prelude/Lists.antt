-- ===== src/Prelude/Lists.antt =====
-- Lists measured by native numbers, and a predicate on every member.
use Prim.Native.Nat.{ℕ, zero, suc, ◌+◌, ◌≤◌}
use mathlib.Core.Path.{◌≡◌, refl, ap, ◌∙◌}
use mathlib.Core.Logic.{inl, inr}
use mathlib.Core.List.{List, [], ◌∷◌, ◌++◌, reverse, reverse-cons, reverse-reverse}
use native.Mathlib.Omega.{arith}
use tucano.Prelude.Tests.{leb, if◌then◌else◌, Bool-cases}

module _ {ℓ} {A : Type ℓ} where
  abbrev pub length : List A → ℕ
  length [] = 0
  length (x ∷ xs) = suc (length xs)

  pub length-append : (xs ys : List A) → length (xs ++ ys) ≡ length xs + length ys
  length-append [] ys = omega arith
  length-append (x ∷ xs) ys = omega (arith, length-append xs ys)

-- By recursion, so that it computes to a tuple of facts.
module _ {ℓ κ} {A : Type ℓ} where
  abbrev pub All : (A → Type κ) → List A → Type κ
  All P [] = Unit
  All P (x ∷ xs) = P x × All P xs

  pub All-append : (P : A → Type κ) (xs ys : List A) → All P xs → All P ys → All P (xs ++ ys)
  All-append P [] ys h k = k
  All-append P (x ∷ xs) ys h k = (h.0, All-append P xs ys h.1 k)

module _ {ℓ} {A : Type ℓ} where
  pub All-of {κ} : (P : A → Type κ) → ((x : A) → P x) → (xs : List A) → All P xs
  All-of P h [] = tt
  All-of P h (x ∷ xs) = (h x, All-of P h xs)

  pub All-imp {κ μ} :
      (P : A → Type κ) (Q : A → Type μ)
      → ((x : A) → P x → Q x)
      → (xs : List A) → All P xs
      → All Q xs
  All-imp P Q h [] a = tt
  All-imp P Q h (x ∷ xs) a = (h x a.0, All-imp P Q h xs a.1)

  pub All-both {κ μ} :
      (P : A → Type κ) (Q : A → Type μ) (xs : List A)
      → All P xs
      → All Q xs
      → All (λ x. P x × Q x) xs
  All-both P Q [] a b = tt
  All-both P Q (x ∷ xs) a b = ((a.0, b.0), All-both P Q xs a.1 b.1)

module _ {ℓ} {A : Type ℓ} where
  -- `xs[:n]`
  unfoldable pub take : ℕ → List A → List A
  take zero xs = []
  take (suc n) [] = []
  take (suc n) (x ∷ xs) = x ∷ take n xs

  -- The last `n`, or all where there are fewer.
  unfoldable pub latest : ℕ → List A → List A
  latest n [] = []
  latest n (x ∷ xs) = let rest = latest n xs in if leb (length (x ∷ xs)) n then x ∷ xs else rest

  take_all : (n : ℕ) (xs : List A) → length xs ≤ n → take n xs ≡ xs
  unfolding take
  take_all zero [] le = refl
  take_all zero (x ∷ xs) le = absurd (ground arith)
  take_all (suc n) [] le = refl
  take_all (suc n) (x ∷ xs) le = ground (arith, take_all n xs)

  take-append_short : (n : ℕ) (xs ys : List A) → n ≤ length xs → take n (xs ++ ys) ≡ take n xs
  unfolding take
  take-append_short zero xs ys le = refl
  take-append_short (suc n) [] ys le = absurd (ground arith)
  take-append_short (suc n) (x ∷ xs) ys le = ground (arith, take-append_short n xs ys)

  length-reverse : (xs : List A) → length (reverse xs) ≡ length xs
  length-reverse [] = refl
  length-reverse (x ∷ xs) =
      ap length (reverse-cons x xs)
      ∙ omega (arith, length-append (reverse xs) (x ∷ []), length-reverse xs)

  -- The last rows are the first ones from behind.
  pub reverse-take-reverse : (n : ℕ) (xs : List A) → reverse (take n (reverse xs)) ≡ latest n xs
  unfolding latest
  reverse-take-reverse n [] = ap reverse (take_all n [] (omega arith))
  reverse-take-reverse n (x ∷ xs) = elim (Bool-cases (leb (length (x ∷ xs)) n)) [
    | inl short ↦ rw short (
        ap reverse (take_all n (reverse (x ∷ xs)) (ground (arith, length-reverse (x ∷ xs))))
        ∙ reverse-reverse (x ∷ xs))
    | inr long ↦ rw long (
        ap (λ ys. reverse (take n ys)) (reverse-cons x xs)
        ∙ ap reverse (take-append_short n (reverse xs) (x ∷ []) (ground (arith, length-reverse xs)))
        ∙ reverse-take-reverse n xs)
  ]
