-- ===== src/Professionals/Rows.antt =====
-- `ServiceCategory` of apps/professionals/models.py. `str.lower` and Django's
-- `slugify` are parameters.
use text.Mathlib.Text.{◌==◌ as str_eq}
use Prim.Native.Char.{code}
use Prim.Native.String.{count as text_length}
use tucano.Prelude.{
  ℕ, not, leb, ltb, Bool, true, false, String, List, [], ◌∷◌, ◌++◌, ◌&&◌, ◌||◌, ◌==◌, is_blank,
  exists, if◌then◌else◌,
}
use tucano.Db.{Fault, excluded_category, name_taken, invalid_field}

-- `EXCLUDED_CATEGORY_KEYWORDS`
abbrev pub excluded_category_keywords : List String
excluded_category_keywords =
    "medicina" ∷ "saúde" ∷ "saude" ∷ "advocacia" ∷ "advogado" ∷ "segurança privada"
    ∷ "seguranca privada" ∷ "consultoria de investimento" ∷ "consultor de investimento" ∷ []

-- `ServiceCategory`
pub record ServiceCategory : Type 0 where
  pub name : String
  pub slug : String
  pub is_active : Bool

unfoldable pub starts_with : String → String → Bool
starts_with String.[] s = true
starts_with (String.◌∷◌ c k) String.[] = false
starts_with (String.◌∷◌ c k) (String.◌∷◌ x s) = code c == code x && starts_with k s

-- `keyword in text`
unfoldable pub contains : String → String → Bool
contains k String.[] = is_blank k
contains k (String.◌∷◌ x s) = starts_with k (String.◌∷◌ x s) || contains k s

-- The test of `ServiceCategory.clean`.
abbrev pub is_excluded : (String → String) → String → Bool
is_excluded lower name = exists (λ k. contains k (lower name)) excluded_category_keywords

abbrev pub same_name : ServiceCategory → ServiceCategory → Bool
same_name c d = str_eq d.name c.name

abbrev pub same_slug : ServiceCategory → ServiceCategory → Bool
same_slug c d = str_eq d.slug c.slug

-- A letter or digit of ASCII, a hyphen or an underscore.
abbrev pub is_slug_char : ℕ → Bool
is_slug_char c =
    (leb 48 c && leb c 57)
    || (leb 65 c && leb c 90)
    || (leb 97 c && leb c 122)
    || c == 45
    || c == 95

unfoldable pub has_slug_chars : String → Bool
has_slug_chars String.[] = true
has_slug_chars (String.◌∷◌ c s) = is_slug_char (code c) && has_slug_chars s

-- `SlugField(max_length=110)`
abbrev pub is_slug : String → Bool
is_slug s = has_slug_chars s && leb (text_length s) 110

-- The checks of the columns, of `clean` and of the unique constraints.
abbrev pub category_faults : (String → String) → List ServiceCategory → ServiceCategory → List Fault
category_faults lower cs c =
    (if is_blank c.name || ltb 100 (text_length c.name) then invalid_field ∷ [] else [])
    ++ (if not (is_blank c.slug) && not (is_slug c.slug) then invalid_field ∷ [] else [])
    ++ (if is_excluded lower c.name then excluded_category ∷ [] else [])
    ++ (if exists (same_name c) cs then name_taken ∷ [] else [])
    ++ (if exists (same_slug c) cs then name_taken ∷ [] else [])

-- What a save comes to: the database refuses a row that breaks a unique constraint that
-- `full_clean` did not find broken.
pub data Saved (A : Type 0) : Type 0 where
  stored : A → Saved A
  refused : List Fault → Saved A
  integrity_error : Saved A

-- `ServiceCategory.save` of a new row.
unfoldable pub save_category :
    (String → String)
    → (String → String)
    → List ServiceCategory
    → ServiceCategory
    → Saved (List ServiceCategory)
save_category lower slugify cs c =
    let slug = if is_blank c.slug then slugify c.name else c.slug in
    let row : ServiceCategory = record c { slug = slug } in
    elim (category_faults lower cs c) [
      | [] ↦ if exists (same_slug row) cs then integrity_error else stored (cs ++ (row ∷ []))
      | f ∷ fs ↦ refused (f ∷ fs)
    ]
