-- ===== src/Professionals/Seeds.antt =====
-- The categories that apps/professionals/migrations/0003_seed_initial_categories.py brings and
-- takes away. A migration knows no `ServiceCategory.save`: nothing but the database's own
-- constraints is checked, and an error undoes the whole migration.
use text.Mathlib.Text.{◌==◌ as str_eq}
use tucano.Prelude.{Bool, true, not, String, List, [], ◌∷◌, ◌++◌, exists, filter, if◌then◌else◌}
use tucano.Professionals.Rows.{
  ServiceCategory, same_slug, Saved, stored, refused, integrity_error, save_category,
}

-- `INITIAL_CATEGORIES`
abbrev pub initial_categories : List String
initial_categories =
    "Barista" ∷ "Bartender" ∷ "Garçom" ∷ "Copeiro" ∷ "Cozinheiro" ∷ "Recepcionista"
    ∷ "Promotor de eventos" ∷ "DJ" ∷ "Fotógrafo" ∷ "Videomaker" ∷ "Jardinagem" ∷ "Estética e beleza"
    ∷ "Engenharia" ∷ "Arquitetura" ∷ "Contabilidade" ∷ "Manutenção residencial"
    ∷ "Aulas particulares" ∷ []

-- The row that `get_or_create` makes.
abbrev pub seeded : (String → String) → String → ServiceCategory
seeded slugify name = record { name = name; slug = slugify name; is_active = true }

abbrev pub is_named : String → ServiceCategory → Bool
is_named name c = str_eq c.name name

-- The loop of `seed_categories`.
unfoldable pub seed :
    (String → String) → List String → List ServiceCategory → Saved (List ServiceCategory)
seed slugify [] cs = stored cs
seed slugify (name ∷ names) cs =
    let row = seeded slugify name in
    let there = seed slugify names cs in
    let added = seed slugify names (cs ++ (row ∷ [])) in
    if exists (is_named name) cs
    then there
    else if exists (same_slug row) cs
    then integrity_error
    else added

-- `seed_categories`
abbrev pub seed_categories : (String → String) → List ServiceCategory → Saved (List ServiceCategory)
seed_categories slugify cs = seed slugify initial_categories cs

-- `remove_categories`
unfoldable pub remove_categories : List ServiceCategory → List ServiceCategory
remove_categories cs = filter (λ c. not (exists (λ n. str_eq c.name n) initial_categories)) cs

-- The migration, its way back, and the save of a category by the admin.
pub data CategoryCall : Type 0 where
  save_call : ServiceCategory → CategoryCall
  seed_call remove_call : CategoryCall

-- What is in the table afterwards.
abbrev pub left : Saved (List ServiceCategory) → List ServiceCategory → List ServiceCategory
left (stored after) before = after
left (refused faults) before = before
left integrity_error before = before

module _ (lower slugify : String → String) where
  unfoldable pub run_category_call : CategoryCall → List ServiceCategory → List ServiceCategory
  run_category_call (save_call c) cs = left (save_category lower slugify cs c) cs
  run_category_call seed_call cs = left (seed_categories slugify cs) cs
  run_category_call remove_call cs = remove_categories cs

  unfoldable pub run_category_calls :
      List CategoryCall → List ServiceCategory → List ServiceCategory
  run_category_calls [] cs = cs
  run_category_calls (x ∷ xs) cs = run_category_calls xs (run_category_call x cs)
