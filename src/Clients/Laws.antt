-- ===== src/Clients/Laws.antt =====
-- What the views of apps/clients keep true of favourites and profiles.
use tucano.Prelude.{
  ℕ, ◌≤◌, ◌≡◌, refl, Bool, true, false, Option, none, some, List, [], ◌∷◌, ◌++◌, ◌&&◌, not, ◌==◌,
  ==_refl, exists, exists-append, filter, count, count-append, count-eq-zero, Bool-cases, inl, inr,
  arith, sym, subst, subst₂, ==→eq,
}
use tucano.Models.{ClientProfile, ProfessionalProfile, Favorite}
use tucano.Db.{Db}
use tucano.Clients.Views.{is_pair, toggle, client_profile_create, professional_profile_create}

module _ {ℓ} {A : Type ℓ} (p : A → Bool) where
  exists-filter-not : (xs : List A) → exists p (filter (λ x. not (p x)) xs) ≡ false
  unfolding exists filter
  exists-filter-not [] = refl
  exists-filter-not (x ∷ xs) = ground (arith, exists-filter-not xs)

  count-filter-not :
      (q : A → Bool)
      → ((x : A) → p x ≡ true → q x ≡ false)
      → (xs : List A) → count q (filter (λ x. not (p x)) xs) ≡ count q xs
  unfolding count filter
  count-filter-not q apart [] = refl
  count-filter-not q apart (x ∷ xs) = ground (arith, apart x, count-filter-not q apart xs)

  count-filter_le : (q : A → Bool) (xs : List A) → count q (filter (λ x. not (p x)) xs) ≤ count q xs
  unfolding count filter
  count-filter_le q [] = omega arith
  count-filter_le q (x ∷ xs) = ground (arith, count-filter_le q xs)

-- A new row whose key no row has.
count-add_le {ℓ} :
    {A : Type ℓ} (key : A → ℕ) (row : A) (xs : List A) (k : ℕ)
    → exists (λ x. key x == key row) xs ≡ false
    → count (λ x. key x == k) xs ≤ 1
    → count (λ x. key x == k) (xs ++ (row ∷ [])) ≤ 1
unfolding count
count-add_le key row xs k fresh le = elim (Bool-cases (key row == k)) [
  | inr other ↦ ground (arith, count-append (λ x. key x == k) xs (row ∷ []))
  | inl same ↦
      let here : key row ≡ k = ==→eq (key row) k same in
      subst (λ j. count (λ x. key x == j) (xs ++ (row ∷ [])) ≤ 1) here
        (ground (
          arith,
          count-append (λ x. key x == key row) xs (row ∷ []),
          count-eq-zero (λ x. key x == key row) xs fresh,
        ))
]

abbrev new_pair : ℕ → ℕ → Favorite
new_pair client professional = record { client = client; professional = professional }

toggle-here :
    (client professional : ℕ) (fs : List Favorite)
    → exists (is_pair client professional) (toggle client professional fs)
      ≡ not (exists (is_pair client professional) fs)
unfolding toggle exists
toggle-here client professional fs =
    let pair = is_pair client professional in
    ground (
      arith,
      exists-filter-not pair fs,
      exists-append pair fs (new_pair client professional ∷ []),
      ==_refl client,
      ==_refl professional,
    )

toggle-others :
    (client professional : ℕ) (fs : List Favorite) (c p : ℕ)
    → (c == client && p == professional) ≡ false
    → count (is_pair c p) (toggle client professional fs) ≡ count (is_pair c p) fs
unfolding toggle count
toggle-others client professional fs c p other =
    let pair = is_pair client professional in
    ground (
      arith,
      count-filter-not pair (is_pair c p) (λ f h. ground arith) fs,
      count-append (is_pair c p) fs (new_pair client professional ∷ []),
    )

toggle-le :
    (client professional : ℕ) (fs : List Favorite) (c p : ℕ)
    → count (is_pair c p) fs ≤ 1
    → count (is_pair c p) (toggle client professional fs) ≤ 1
unfolding toggle count
toggle-le client professional fs c p le =
    let pair = is_pair client professional in
    elim (Bool-cases (c == client && p == professional)) [
      | inr other ↦ rw (toggle-others client professional fs c p other) le
      | inl same ↦
          let c_same : c ≡ client = ground arith in
          let p_same : p ≡ professional = ground arith in
          subst₂ (λ x y. count (is_pair x y) (toggle client professional fs) ≤ 1) (sym c_same)
            (sym p_same)
            (elim (Bool-cases (exists pair fs)) [
              | inl there ↦ ground (
                arith,
                count-filter_le pair pair fs,
                count-eq-zero pair (filter (λ f. not (pair f)) fs) (exists-filter-not pair fs),
              )
              | inr fresh ↦ ground (
                arith,
                count-eq-zero pair fs fresh,
                count-append pair fs (new_pair client professional ∷ []),
              )
            ])
    ]

-- Toggling a favourite turns whether the pair is there around, keeps the number of rows of any
-- other pair, and leaves at most one row of each pair where there was at most one.
pub toggle-flips :
    (client professional : ℕ) (fs : List Favorite)
    → (exists (is_pair client professional) (toggle client professional fs)
        ≡ not (exists (is_pair client professional) fs))
      × ((c p : ℕ)
          → (c == client && p == professional) ≡ false
          → count (is_pair c p) (toggle client professional fs) ≡ count (is_pair c p) fs)
      × (((c p : ℕ) → count (is_pair c p) fs ≤ 1)
          → (c p : ℕ) → count (is_pair c p) (toggle client professional fs) ≤ 1)
toggle-flips client professional fs = (
  toggle-here client professional fs,
  toggle-others client professional fs,
  λ unique c p. toggle-le client professional fs c p (unique c p),
)

abbrev pub OneProfileEach : Db → Type 0
OneProfileEach d =
    (user : ℕ)
    → (count (λ c. c.user == user) d.clients ≤ 1)
      × (count (λ p. p.user == user) d.professionals ≤ 1)

-- Making a profile, as a client or as a professional, keeps one profile of each kind for a user at
-- most, whoever asks; a visitor who is not logged in changes nothing.
pub profile_create-OneProfileEach :
    (d : Db) (visitor : Option ℕ) (category : ℕ)
    → OneProfileEach d
    → OneProfileEach (client_profile_create visitor d).1
      × OneProfileEach (professional_profile_create visitor category d).1
      × (visitor ≡ none
          → ((client_profile_create visitor d).1 ≡ d)
            × ((professional_profile_create visitor category d).1 ≡ d))
unfolding client_profile_create professional_profile_create
profile_create-OneProfileEach d none category one = (one, one, λ _. (refl, refl))
profile_create-OneProfileEach d (some u) category one = (
  λ user. elim (Bool-cases (exists (λ c. c.user == u) d.clients)) [
    | inl there ↦ rw there (one user)
    | inr fresh ↦
        let row : ClientProfile = record { pk = d.next_pk; user = u } in
        rw fresh (count-add_le (λ c. c.user) row d.clients user fresh (one user).0, (one user).1)
  ],
  λ user. elim (Bool-cases (exists (λ p. p.user == u) d.professionals)) [
    | inl there ↦ rw there (one user)
    | inr fresh ↦
        let row : ProfessionalProfile = record {
          pk = d.next_pk;
          user = u;
          main_category = category;
        } in
        rw fresh
          ((one user).0, count-add_le (λ p. p.user) row d.professionals user fresh (one user).1)
  ],
  λ e. absurd (cc),
)
