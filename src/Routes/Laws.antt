-- ===== src/Routes/Laws.antt =====
-- No address is shadowed by an earlier one: what `reverse` writes is resolved to its own view.
use mathlib.Core.Option
use text.Mathlib.Text.{◌==◌ as str_eq}
use tucano.Prelude.{
  ℕ, suc, length, subst, ◌≡◌, refl, sym, inl, inr, Bool, true, false, ◌&&◌, not, Option, some, none,
  String, List, [], ◌∷◌, ◌++◌, ◌==◌, if◌then◌else◌, arith, Bool-cases, Option-cases,
}
use tucano.Routes.Numbers.{
  is_digit, to_url, read_int, read_int-to_url, read_int-none, read_int-nil, Stops,
}
use tucano.Routes.Patterns.{Atom, char, int_arg, anything, compile, fits, spell}
use tucano.Routes.Urls.{
  UrlPattern, Entry, page, external, find, view_match, urlpatterns, resolve, reverse,
}

-- No path is of both patterns: where they first differ, one of them is at its end, or they ask for
-- different characters, or one asks for a digit and the other for something else.
apart : List Atom → List Atom → Bool
apart [] [] = false
apart [] (anything ∷ q) = false
apart [] (char b ∷ q) = true
apart [] (int_arg ∷ q) = true
apart (char a ∷ p) [] = true
apart (char a ∷ p) (char b ∷ q) = if a == b then apart p q else true
apart (char a ∷ p) (int_arg ∷ q) = not (is_digit a)
apart (char a ∷ p) (anything ∷ q) = false
apart (int_arg ∷ p) [] = true
apart (int_arg ∷ p) (char b ∷ q) = not (is_digit b)
apart (int_arg ∷ p) (int_arg ∷ q) = apart p q
apart (int_arg ∷ p) (anything ∷ q) = false
apart (anything ∷ p) q = false

apart-fits :
    (p q : List Atom) (s args : List ℕ) → apart p q ≡ true → fits q s ≡ some args → fits p s ≡ none
unfolding apart fits
apart-fits [] [] s args h k = cc
apart-fits [] (anything ∷ q) s args h k = cc
apart-fits [] (char b ∷ q) [] args h k = cc
apart-fits [] (char b ∷ q) (c ∷ s) args h k = refl
apart-fits [] (int_arg ∷ q) [] args h k = ground (arith, read_int-nil)
apart-fits [] (int_arg ∷ q) (c ∷ s) args h k = refl
apart-fits (char a ∷ p) [] [] args h k = refl
apart-fits (char a ∷ p) [] (c ∷ s) args h k = cc
apart-fits (char a ∷ p) (char b ∷ q) [] args h k = refl
apart-fits (char a ∷ p) (char b ∷ q) (c ∷ s) args h k = ground (arith, apart-fits p q s args)
apart-fits (char a ∷ p) (int_arg ∷ q) [] args h k = refl
apart-fits (char a ∷ p) (int_arg ∷ q) (c ∷ s) args h k = ground (arith, read_int-none c s)
apart-fits (char a ∷ p) (anything ∷ q) s args h k = cc
apart-fits (int_arg ∷ p) [] [] args h k = ground (arith, read_int-nil)
apart-fits (int_arg ∷ p) [] (c ∷ s) args h k = cc
apart-fits (int_arg ∷ p) (char b ∷ q) [] args h k = cc
apart-fits (int_arg ∷ p) (char b ∷ q) (c ∷ s) args h k = ground (arith, read_int-none c s)
apart-fits (int_arg ∷ p) (int_arg ∷ q) s args h k = elim (Option-cases (read_int s)) [
  | inl e ↦ ground (arith, e)
  | inr ((n, rest), e) ↦ elim (Option-cases (fits q rest)) [
    | inl f ↦ ground (arith, e, f)
    | inr (more, f) ↦ ground (arith, e, f, apart-fits p q rest more)
  ]
]
apart-fits (int_arg ∷ p) (anything ∷ q) s args h k = cc
apart-fits (anything ∷ p) q s args h k = cc

map-eq-some {ℓ κ} :
    {A : Type ℓ} {B : Type κ} (f : A → B) (o : Option A) {b : B}
    → Option.map f o ≡ some b
    → (a : A) × (o ≡ some a) × (b ≡ f a)
map-eq-some f none h = absurd (cc)
map-eq-some f (some a) h = (a, refl, cc)

-- What follows a number in the pattern is not a digit.
stops : List Atom → Bool
stops [] = true
stops (char a ∷ p) = not (is_digit a)
stops (int_arg ∷ p) = false
stops (anything ∷ p) = true

delimited : List Atom → Bool
delimited [] = true
delimited (int_arg ∷ p) = stops p && delimited p
delimited (char a ∷ p) = delimited p
delimited (anything ∷ p) = false

spell-Stops : (p : List Atom) (args s : List ℕ) → stops p ≡ true → spell p args ≡ some s → Stops s
unfolding stops spell
spell-Stops [] [] [] h k = tt
spell-Stops [] [] (c ∷ s) h k = absurd (cc)
spell-Stops [] (n ∷ args) s h k = absurd (cc)
spell-Stops (char a ∷ p) args s h k =
    let (rest, e, f) = map-eq-some (λ t. a ∷ t) (spell p args) k in
    subst Stops (sym f) (ground arith)
spell-Stops (int_arg ∷ p) args s h k = absurd (cc)
spell-Stops (anything ∷ p) args s h k = absurd (cc)

-- A pattern matches the path that it spells, with the same arguments.
fits-spell :
    (p : List Atom) (args s : List ℕ)
    → delimited p ≡ true
    → spell p args ≡ some s
    → fits p s ≡ some args
unfolding delimited fits spell
fits-spell [] [] [] h k = refl
fits-spell [] [] (c ∷ s) h k = cc
fits-spell [] (n ∷ args) s h k = cc
fits-spell (char a ∷ p) args s h k =
    let (rest, e, f) = map-eq-some (λ t. a ∷ t) (spell p args) k in
    rw f (ground (arith, fits-spell p args rest))
fits-spell (int_arg ∷ p) [] s h k = cc
fits-spell (int_arg ∷ p) (n ∷ args) s h k =
    let (rest, e, f) = map-eq-some (λ t. to_url n ++ t) (spell p args) k in
    let h₀ : stops p ≡ true = ground arith in
    let h₁ : delimited p ≡ true = ground arith in
    rw f (
      ground
        (arith, read_int-to_url n rest (spell-Stops p args rest h₀ e), fits-spell p args rest h₁ e))
fits-spell (anything ∷ p) args s h k = cc

-- The pages of a table that a pattern could hide.
all_apart : List Atom → List Entry → Bool
all_apart p [] = true
all_apart p (page q ∷ es) = apart p q.route && all_apart p es
all_apart p (external q name ∷ es) = all_apart p es

-- No entry hides a page that stands below it.
unshadowed : List Entry → Bool
unshadowed [] = true
unshadowed (page p ∷ es) = delimited p.route && all_apart p.route es && unshadowed es
unshadowed (external p name ∷ es) = all_apart p es && unshadowed es

-- The page that a name stands for, as an entry, does not share a path with the pattern.
all_apart-find :
    (p : List Atom) (es : List Entry) (name : String) (q : UrlPattern)
    → all_apart p es ≡ true
    → find es name ≡ some q
    → apart p q.route ≡ true
unfolding all_apart find
all_apart-find p [] name q h k = absurd (cc)
all_apart-find p (external r mount ∷ es) name q h k = all_apart-find p es name q h k
all_apart-find p (page r ∷ es) name q h k = elim (Bool-cases (str_eq r.name name)) [
  | inl same ↦ ground (arith, same)
  | inr other ↦ all_apart-find p es name q (ground arith) (ground (arith, other))
]

find-delimited :
    (es : List Entry) (name : String) (q : UrlPattern)
    → unshadowed es ≡ true
    → find es name ≡ some q
    → delimited q.route ≡ true
unfolding unshadowed find
find-delimited [] name q h k = cc
find-delimited (external r mount ∷ es) name q h k = find-delimited es name q (ground arith) k
find-delimited (page r ∷ es) name q h k = elim (Bool-cases (str_eq r.name name)) [
  | inl same ↦ ground (arith, same)
  | inr other ↦ find-delimited es name q (ground arith) (ground (arith, other))
]

find-first :
    (p : UrlPattern) (es : List Entry) (name : String) (q : UrlPattern)
    → str_eq p.name name ≡ true
    → find (page p ∷ es) name ≡ some q
    → p ≡ q
unfolding find
find-first p es name q same h = let g : some p ≡ some q = ground (arith, same) in cc

-- In a table where none is hidden, a path that the named page's pattern matches is that page's.
resolve-find :
    (has_route : String → List ℕ → Bool) (es : List Entry) (name : String) (q : UrlPattern)
    (s args : List ℕ)
    → unshadowed es ≡ true
    → find es name ≡ some q
    → fits q.route s ≡ some args
    → resolve has_route es s ≡ some (view_match q.view args)
unfolding unshadowed find resolve
resolve-find has_route [] name q s args h k f = cc
resolve-find has_route (external r mount ∷ es) name q s args h k f =
    let clear = apart-fits r q.route s args (all_apart-find r es name q (ground arith) k) f in
    ground (arith, clear, resolve-find has_route es name q s args (ground arith) k f)
resolve-find has_route (page r ∷ es) name q s args h k f = elim (Bool-cases (str_eq r.name name)) [
  | inl same ↦
      subst
        (λ (p : UrlPattern).
          fits p.route s ≡ some args
          → resolve has_route (page r ∷ es) s ≡ some (view_match p.view args))
        (find-first r es name q same k) (λ g. rw g refl) f
  | inr other ↦
      let later : find es name ≡ some q = ground (arith, other) in
      let clear =
        apart-fits r.route q.route s args (all_apart-find r.route es name q (ground arith) later)
          f in
      rw clear (resolve-find has_route es name q s args (ground arith) later f)
]

urlpatterns-unshadowed : unshadowed urlpatterns ≡ true
unfolding unshadowed all_apart apart delimited stops is_digit compile urlpatterns
urlpatterns-unshadowed = refl

-- How many arguments a pattern takes.
abbrev pub arity : List Atom → ℕ
arity [] = 0
arity (int_arg ∷ p) = suc (arity p)
arity (char a ∷ p) = arity p
arity (anything ∷ p) = arity p

spell-total :
    (p : List Atom) (args : List ℕ)
    → delimited p ≡ true
    → length args ≡ arity p
    → (s : List ℕ) × (spell p args ≡ some s)
unfolding delimited spell
spell-total [] [] h e = ([], refl)
spell-total [] (n ∷ args) h e = absurd (omega arith)
spell-total (char a ∷ p) args h e = let (s, f) = spell-total p args h e in (a ∷ s, rw f refl)
spell-total (int_arg ∷ p) [] h e = absurd (omega arith)
spell-total (int_arg ∷ p) (n ∷ args) h e =
    let (s, f) = spell-total p args (ground arith) (omega arith) in (to_url n ++ s, rw f refl)
spell-total (anything ∷ p) args h e = absurd (cc)

-- With as many arguments as the page of a name takes, `reverse` returns a path, and the path is
-- resolved, whatever routes the admin site, allauth and the static files have, to the page's view
-- with the same arguments: no entry above it takes the path, and a number is read as it was
-- written.
pub resolve-reverse :
    (has_route : String → List ℕ → Bool) (name : String) (p : UrlPattern) (args : List ℕ)
    → find urlpatterns name ≡ some p
    → length args ≡ arity p.route
    → (s : List ℕ) × (reverse urlpatterns name args ≡ some s)
      × (resolve has_route urlpatterns s ≡ some (view_match p.view args))
unfolding reverse
resolve-reverse has_route name p args found count =
    let ended = find-delimited urlpatterns name p urlpatterns-unshadowed found in
    let (s, spelt) = spell-total p.route args ended count in
    (
      s,
      rw found spelt,
      resolve-find has_route urlpatterns name p s args urlpatterns-unshadowed found
          (fits-spell p.route args s ended spelt),
    )
