-- ===== src/Routes/Patterns.antt =====
-- Patterns of `django.urls.path`, whose only converter here is `int`, and the matching that the
-- documentation of URLconfs describes: the entries are tried in order, an entry must match the
-- whole of what the `include`s around it left, and the first that does answers.
use mathlib.Core.Option
use tucano.Prelude.{
  ℕ, Bool, true, false, not, Option, some, none, List, [], ◌∷◌, ◌++◌, ◌==◌, if◌then◌else◌,
}
use tucano.Routes.Numbers.{read_int, to_url}

-- A character of the route, `<int:…>`, or what an include leaves to the routes below it.
pub data Atom : Type 0 where
  char : ℕ → Atom
  int_arg : Atom
  anything : Atom

-- The route as it is written, `<int:pk>/interesses/`; the flag says that `<` stands open.
unfoldable pub compile : Bool → List ℕ → List Atom
compile open_ [] = []
compile false (c ∷ s) = if c == b'<' then int_arg ∷ compile true s else char c ∷ compile false s
compile true (c ∷ s) = compile (not (c == b'>')) s

-- The arguments that a path gives a pattern, where it matches.
unfoldable pub fits : List Atom → List ℕ → Option (List ℕ)
fits [] [] = some []
fits [] (c ∷ s) = none
fits (char a ∷ p) [] = none
fits (char a ∷ p) (c ∷ s) = if a == c then fits p s else none
fits (int_arg ∷ p) s = elim (read_int s) [
  | none ↦ none
  | some (n, rest) ↦ Option.map (λ args. n ∷ args) (fits p rest)
]
fits (anything ∷ p) s = some []

-- The path of a pattern at its arguments, if there are as many as it takes.
unfoldable pub spell : List Atom → List ℕ → Option (List ℕ)
spell [] [] = some []
spell [] (n ∷ args) = none
spell (char a ∷ p) args = Option.map (λ s. a ∷ s) (spell p args)
spell (int_arg ∷ p) [] = none
spell (int_arg ∷ p) (n ∷ args) = Option.map (λ s. to_url n ++ s) (spell p args)
spell (anything ∷ p) args = none
