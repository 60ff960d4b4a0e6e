-- ===== src/Professionals/Categories.antt =====
-- What the saves of categories and the seed migration keep true of their table.
use text.Mathlib.Text.{◌==◌ as str_eq}
use text.Mathlib.TextEquality.{eq_iff}
use tucano.Prelude.{
  ◌≡◌, inl, inr, refl, subst, Bool, true, false, not, String, List, [], ◌∷◌, ◌++◌, exists,
  exists-append, filter, arith, is_blank, All, All-append, All-filter_of, Bool-cases,
}
use tucano.Professionals.Rows.{
  ServiceCategory, is_excluded, same_name, same_slug, Saved, stored, refused, integrity_error,
  save_category,
}
use tucano.Professionals.Soundness.{Allowed, Apart, exists-All, Apart-add, save_category_sound}
use tucano.Professionals.Seeds.{
  initial_categories, seeded, is_named, seed, seed_categories, remove_categories, CategoryCall,
  save_call, seed_call, remove_call, left, run_category_call, run_category_calls,
}

module _ (lower slugify : String → String) where
  -- Names that `ServiceCategory.clean` would let pass.
  abbrev pub Fine : List String → Type 0
  Fine names = All (λ n. (is_excluded lower n ≡ false) × (is_blank n ≡ false)) names

  abbrev Good : List ServiceCategory → Type 0
  Good cs = Allowed lower cs × Apart cs

  seed-Good :
      (names : List String) (cs cs' : List ServiceCategory)
      → Fine names
      → Good cs
      → seed slugify names cs ≡ stored cs'
      → Good cs'
  unfolding seed
  seed-Good [] cs cs' fine good e = let same : cs ≡ cs' = ground arith in subst Good same good
  seed-Good (name ∷ names) cs cs' fine good e =
      let row = seeded slugify name in
      elim (Bool-cases (exists (is_named name) cs)) [
        | inl there ↦ seed-Good names cs cs' fine.1 good (ground arith)
        | inr fresh ↦ elim (Bool-cases (exists (same_slug row) cs)) [
          | inl taken ↦ absurd (ground arith)
          | inr free ↦
              seed-Good names (cs ++ (row ∷ [])) cs' fine.1
                (
                  All-append (λ c. (is_excluded lower c.name ≡ false) × (is_blank c.name ≡ false))
                      cs (row ∷ []) good.0 (fine.0, tt),
                  Apart-add cs row good.1
                      (exists-All (same_name row) (same_slug row) cs fresh free),
                )
                (ground arith)
        ]
      ]

  Apart-filter :
      (p : ServiceCategory → Bool) (cs : List ServiceCategory) → Apart cs → Apart (filter p cs)
  unfolding filter
  Apart-filter p [] h = tt
  Apart-filter p (c ∷ cs) h = elim (Bool-cases (p c)) [
    | inl here ↦ rw here (
      All-filter_of p (λ d. (str_eq c.name d.name ≡ false) × (str_eq c.slug d.slug ≡ false)) cs h.0,
      Apart-filter p cs h.1,
    )
    | inr there ↦ rw there (Apart-filter p cs h.1)
  ]

  run_category_call-Good :
      (x : CategoryCall) (cs : List ServiceCategory)
      → Fine initial_categories
      → Good cs
      → Good (run_category_call lower slugify x cs)
  unfolding run_category_call remove_categories
  run_category_call-Good (save_call c) cs fine good = go (save_category lower slugify cs c) refl
    where
      go :
          (o : Saved (List ServiceCategory))
          → save_category lower slugify cs c ≡ o
          → Good (left o cs)
      go (stored after) e = save_category_sound lower slugify cs after c e good.0 good.1
      go (refused faults) e = good
      go integrity_error e = good
  run_category_call-Good seed_call cs fine good = go (seed_categories slugify cs) refl
    where
      go : (o : Saved (List ServiceCategory)) → seed_categories slugify cs ≡ o → Good (left o cs)
      go (stored after) e = seed-Good initial_categories cs after fine good e
      go (refused faults) e = good
      go integrity_error e = good
  run_category_call-Good remove_call cs fine good =
      let kept : ServiceCategory → Bool =
        λ c. not (exists (λ n. str_eq c.name n) initial_categories) in
      (
        All-filter_of kept (λ c. (is_excluded lower c.name ≡ false) × (is_blank c.name ≡ false)) cs
            good.0,
        Apart-filter kept cs good.1,
      )

  run_category_calls-Good :
      (xs : List CategoryCall) (cs : List ServiceCategory)
      → Fine initial_categories
      → Good cs
      → Good (run_category_calls lower slugify xs cs)
  unfolding run_category_calls
  run_category_calls-Good [] cs fine good = good
  run_category_calls-Good (x ∷ xs) cs fine good =
      run_category_calls-Good xs (run_category_call lower slugify x cs) fine
        (run_category_call-Good x cs fine good)

module _ (slugify : String → String) where
  -- No row is taken away.
  seed-exists :
      (p : ServiceCategory → Bool) (names : List String) (cs cs' : List ServiceCategory)
      → seed slugify names cs ≡ stored cs'
      → exists p cs ≡ true
      → exists p cs' ≡ true
  unfolding seed
  seed-exists p [] cs cs' e h =
      let same : cs ≡ cs' = ground arith in subst (λ t. exists p t ≡ true) same h
  seed-exists p (name ∷ names) cs cs' e h =
      let row = seeded slugify name in
      elim (Bool-cases (exists (is_named name) cs)) [
        | inl there ↦ seed-exists p names cs cs' (ground arith) h
        | inr fresh ↦ elim (Bool-cases (exists (same_slug row) cs)) [
          | inl taken ↦ absurd (ground arith)
          | inr free ↦
              seed-exists p names (cs ++ (row ∷ [])) cs' (ground arith)
                (ground (arith, h, exists-append p cs (row ∷ [])))
        ]
      ]

  -- All names are there afterwards.
  seed-names :
      (names : List String) (cs cs' : List ServiceCategory)
      → seed slugify names cs ≡ stored cs'
      → All (λ n. exists (is_named n) cs' ≡ true) names
  unfolding seed exists
  seed-names [] cs cs' e = tt
  seed-names (name ∷ names) cs cs' e =
      let row = seeded slugify name in
      elim (Bool-cases (exists (is_named name) cs)) [
        | inl there ↦
            let rest : seed slugify names cs ≡ stored cs' = ground arith in
            (seed-exists (is_named name) names cs cs' rest there, seed-names names cs cs' rest)
        | inr fresh ↦ elim (Bool-cases (exists (same_slug row) cs)) [
          | inl taken ↦ absurd (ground arith)
          | inr free ↦
              let rest : seed slugify names (cs ++ (row ∷ [])) ≡ stored cs' = ground arith in
              let here : exists (is_named name) (cs ++ (row ∷ [])) ≡ true =
                ground
                  (arith, exists-append (is_named name) cs (row ∷ []), (eq_iff name name).1 refl) in
              (
                seed-exists (is_named name) names (cs ++ (row ∷ [])) cs' rest here,
                seed-names names (cs ++ (row ∷ [])) cs' rest,
              )
        ]
      ]

  seed-there :
      (names : List String) (cs : List ServiceCategory)
      → All (λ n. exists (is_named n) cs ≡ true) names
      → seed slugify names cs ≡ stored cs
  unfolding seed
  seed-there [] cs h = refl
  seed-there (name ∷ names) cs h = rw h.0 (seed-there names cs h.1)

-- Where the initial categories have names that the model's own check lets pass, and the table has
-- no excluded and no blank name and no two rows with one name or one slug: the table stays so,
-- whatever is saved and however often the migration is run or taken back. A migration that goes
-- through has brought every initial category, and changes nothing when it is run again.
pub run_category_calls-Apart :
    (lower slugify : String → String) (xs : List CategoryCall) (cs : List ServiceCategory)
    → Fine lower slugify initial_categories
    → Allowed lower cs
    → Apart cs
    → let result = run_category_calls lower slugify xs cs in
      Allowed lower result
      × Apart result
      × ((after : List ServiceCategory)
          → seed_categories slugify result ≡ stored after
          → All (λ n. exists (is_named n) after ≡ true) initial_categories
            × (seed_categories slugify after ≡ stored after))
run_category_calls-Apart lower slugify xs cs fine allowed apart =
    let (still, separate) = run_category_calls-Good lower slugify xs cs fine (allowed, apart) in
    (
      still,
      separate,
      λ after e.
          let names =
            seed-names slugify initial_categories (run_category_calls lower slugify xs cs) after
              e in
          (names, seed-there slugify initial_categories after names),
    )
