-- ===== src/Professionals/Soundness.antt =====
-- What the checked saves of apps/professionals/models.py keep true of their tables.
use text.Mathlib.Text.{◌==◌ as str_eq}
use tucano.Prelude.{
  ◌≡◌, Bool, false, String, List, [], ◌∷◌, ◌++◌, exists, All, All-append, arith, subst, sym,
  is_blank, if◌then◌else◌,
}
use tucano.Professionals.Rows.{
  ServiceCategory, is_excluded, same_name, same_slug, save_category, stored,
}

abbrev pub Allowed : (String → String) → List ServiceCategory → Type 0
Allowed lower cs = All (λ c. (is_excluded lower c.name ≡ false) × (is_blank c.name ≡ false)) cs

-- Two rows with one name, or with one slug.
abbrev pub Apart : List ServiceCategory → Type 0
Apart [] = Unit
Apart (c ∷ cs) =
    (All (λ d. (str_eq c.name d.name ≡ false) × (str_eq c.slug d.slug ≡ false)) cs) × Apart cs

pub exists-All :
    {A : Type 0} (p q : A → Bool) (xs : List A)
    → exists p xs ≡ false
    → exists q xs ≡ false
    → All (λ x. (p x ≡ false) × (q x ≡ false)) xs
unfolding exists
exists-All p q [] h k = tt
exists-All p q (x ∷ xs) h k =
    ((ground arith, ground arith), exists-All p q xs (ground arith) (ground arith))

pub Apart-add :
    (cs : List ServiceCategory) (c : ServiceCategory)
    → Apart cs
    → All (λ d. (same_name c d ≡ false) × (same_slug c d ≡ false)) cs
    → Apart (cs ++ (c ∷ []))
Apart-add [] c h k = (tt, tt)
Apart-add (d ∷ ds) c h k = (
  All-append (λ e. (str_eq d.name e.name ≡ false) × (str_eq d.slug e.slug ≡ false)) ds (c ∷ []) h.0
      (k.0, tt),
  Apart-add ds c h.1 k.1,
)

-- What a stored category has passed.
stored-cases :
    (lower slugify : String → String) (cs cs' : List ServiceCategory) (c : ServiceCategory)
    → let row : ServiceCategory = record c {
      slug = if is_blank c.slug then slugify c.name else c.slug;
    } in
      save_category lower slugify cs c ≡ stored cs'
      → (cs' ≡ cs ++ (row ∷ []))
        × (is_excluded lower c.name ≡ false)
        × (is_blank c.name ≡ false)
        × (exists (same_name c) cs ≡ false)
        × (exists (same_slug row) cs ≡ false)
unfolding save_category
stored-cases lower slugify cs cs' c e =
    (ground arith, ground arith, ground arith, ground arith, ground arith)

-- Whatever `lower` and `slugify` answer, a category that is stored keeps the table free of excluded
-- and of blank names, and of two rows with one name or with one slug.
pub save_category_sound :
    (lower slugify : String → String) (cs cs' : List ServiceCategory) (c : ServiceCategory)
    → save_category lower slugify cs c ≡ stored cs'
    → Allowed lower cs
    → Apart cs
    → Allowed lower cs' × Apart cs'
save_category_sound lower slugify cs cs' c e allowed apart =
    let row : ServiceCategory = record c {
      slug = if is_blank c.slug then slugify c.name else c.slug;
    } in
    let (same, fine, named, fresh, free) = stored-cases lower slugify cs cs' c e in
    subst (λ t. Allowed lower t × Apart t) (sym same)
      (
        All-append (λ x. (is_excluded lower x.name ≡ false) × (is_blank x.name ≡ false)) cs
            (row ∷ []) allowed ((fine, named), tt),
        Apart-add cs row apart (exists-All (same_name row) (same_slug row) cs fresh free),
      )
