-- ===== src/Routes/Numbers.antt =====
-- The numbers in an address: what `<int:pk>` reads, the longest run of digits, and what `reverse`
-- writes for an argument, `str(pk)`.
use Prim.Native.Nat.{◌/◌, ◌%◌}
use tucano.Prelude.{
  ℕ, zero, suc, ◌+◌, ◌-◌, ◌*◌, ◌≤◌, ◌<◌, ◌≡◌, refl, ap, ◌∙◌, Bool, true, false, ◌&&◌, Option, some,
  none, List, [], ◌∷◌, ◌++◌, ltb, leb, if◌then◌else◌, All, All-append, inl, inr, ◌≢◌, arith,
  Bool-cases,
}

unfoldable pub is_digit : ℕ → Bool
is_digit c = leb b'0' c && leb c b'9'

unfoldable pub read_more : ℕ → List ℕ → ℕ × List ℕ
unfolding is_digit
read_more n [] = (n, [])
read_more n (c ∷ s) = if is_digit c then read_more (n * 10 + (c - b'0')) s else (n, c ∷ s)

-- The number at the start of a text, if there is one, and what follows it.
unfoldable pub read_int : List ℕ → Option (ℕ × List ℕ)
read_int [] = none
read_int (c ∷ s) = if is_digit c then some (read_more 0 (c ∷ s)) else none

unfoldable pub digits : ℕ → ℕ → List ℕ
digits zero n = (b'0' + n % 10) ∷ []
digits (suc fuel) n =
    let rest = digits fuel (n / 10) in
    if ltb n 10 then (b'0' + n) ∷ [] else rest ++ ((b'0' + n % 10) ∷ [])

-- A number has no more digits than it counts, so itself is enough fuel.
unfoldable pub to_url : ℕ → List ℕ
unfolding digits
to_url n = digits n n

-- What follows a run of digits in an address is not a digit.
abbrev pub Stops : List ℕ → Type 0
Stops [] = Unit
Stops (c ∷ s) = is_digit c ≡ false

value : ℕ → List ℕ → ℕ
value n [] = n
value n (c ∷ s) = value (n * 10 + (c - b'0')) s

value-append : (n c : ℕ) (s : List ℕ) → value n (s ++ (c ∷ [])) ≡ value n s * 10 + (c - b'0')
unfolding value
value-append n c [] = refl
value-append n c (d ∷ s) = value-append (n * 10 + (d - b'0')) c s

value-digits : (fuel n : ℕ) → n ≤ fuel → value 0 (digits fuel n) ≡ n
unfolding value digits
value-digits zero n h = omega arith
value-digits (suc fuel) n h = elim (Bool-cases (ltb n 10)) [
  | inl small ↦ rw small (omega arith)
  | inr large ↦ rw large (
      value-append 0 (b'0' + n % 10) (digits fuel (n / 10))
      ∙ ground (arith, value-digits fuel (n / 10)))
]

AllDigits : List ℕ → Type 0
AllDigits s = All (λ c. is_digit c ≡ true) s

read_more-value :
    (n : ℕ) (s rest : List ℕ)
    → AllDigits s
    → Stops rest
    → read_more n (s ++ rest) ≡ (value n s, rest)
unfolding read_more value AllDigits
read_more-value n [] [] h k = refl
read_more-value n [] (c ∷ rest) h k = rw k
read_more-value n (c ∷ s) rest h k = rw h.0 (read_more-value (n * 10 + (c - b'0')) s rest h.1 k)

is_digit-add : (k : ℕ) → k < 10 → is_digit (b'0' + k) ≡ true
unfolding is_digit
is_digit-add k h = ground arith

digits-AllDigits : (fuel n : ℕ) → AllDigits (digits fuel n)
unfolding AllDigits digits
digits-AllDigits zero n = (is_digit-add (n % 10) (omega arith), tt)
digits-AllDigits (suc fuel) n = elim (Bool-cases (ltb n 10)) [
  | inl small ↦ rw small (is_digit-add n (ground arith), tt)
  | inr large ↦ rw large (
      All-append (λ c. is_digit c ≡ true) (digits fuel (n / 10)) _ (digits-AllDigits fuel (n / 10))
        (is_digit-add (n % 10) (omega arith), tt))
]

append-ne-nil : (s : List ℕ) (c : ℕ) → s ++ (c ∷ []) ≢ []
append-ne-nil [] c h = cc
append-ne-nil (d ∷ s) c h = cc

digits-ne-nil : (fuel n : ℕ) → digits fuel n ≢ []
unfolding digits
digits-ne-nil zero n h = cc
digits-ne-nil (suc fuel) n h = ground (arith, append-ne-nil (digits fuel (n / 10)) (b'0' + n % 10))

read_int-value :
    (s rest : List ℕ)
    → s ≢ []
    → AllDigits s
    → Stops rest
    → read_int (s ++ rest) ≡ some (value 0 s, rest)
unfolding read_int AllDigits
read_int-value [] rest e h k = absurd (e refl)
read_int-value (c ∷ s) rest e h k = rw h.0 (ap some (read_more-value 0 (c ∷ s) rest h k))

-- What is written is read again, and nothing of what follows it.
pub read_int-to_url :
    (n : ℕ) (rest : List ℕ) → Stops rest → read_int (to_url n ++ rest) ≡ some (n, rest)
unfolding to_url
read_int-to_url n rest k =
    read_int-value (digits n n) rest (digits-ne-nil n n) (digits-AllDigits n n) k
    ∙ ap (λ v. some (v, rest)) (value-digits n n (omega arith))

-- No number starts with another character.
pub read_int-none : (c : ℕ) (s : List ℕ) → is_digit c ≡ false → read_int (c ∷ s) ≡ none
unfolding read_int
read_int-none c s h = rw h

pub read_int-nil : read_int [] ≡ none
unfolding read_int
read_int-nil = refl
