-- ===== src/Professionals/Search.antt =====
-- `ProfessionalSearchView.get_queryset` of apps/professionals/views.py. Rows that the order leaves
-- equal come in the order of their table; the distance that PostGIS computes is a parameter.
use text.Mathlib.Text.{◌==◌ as str_eq}
use tucano.Prelude.{
  ℕ, Bool, true, false, Option, none, some, String, List, ◌&&◌, ◌||◌, not, ◌==◌, leb, is_blank,
  filter, exists, order_by, if◌then◌else◌,
}
use tucano.Models.{is_active_at}
use tucano.Db.{Db}
use tucano.Subscriptions.Gateway.{flag_active}

-- What the search reads of a `ProfessionalProfile`: its category's slug, and whether it has a
-- location.
pub record Listing : Type 0 where
  pub pk : ℕ
  pub category_slug : Option String
  pub is_located : Bool
  pub created_at : ℕ

abbrev pub has_slug : String → Option String → Bool
has_slug slug none = false
has_slug slug (some s) = str_eq s slug

-- The rows that are compatible with the search: located, and of the category that it names, if it
-- names one.
abbrev pub is_compatible : String → Listing → Bool
is_compatible category_slug l =
    l.is_located && (is_blank category_slug || has_slug category_slug l.category_slug)

-- The annotation `is_boosted`.
unfoldable pub is_boosted : ℕ → Db → Listing → Bool
is_boosted now d l =
    flag_active "boost_ranking_enabled" true d
    && exists (λ b. b.professional == l.pk && is_active_at b now) d.boosts

-- Whether one row may stand before another: by distance, or the newest first.
abbrev pub is_nearer : Option (Listing → ℕ) → Listing → Listing → Bool
is_nearer (some distance) a b = leb (distance a) (distance b)
is_nearer none a b = leb b.created_at a.created_at

abbrev pub comes_before : (Listing → Bool) → Option (Listing → ℕ) → Listing → Listing → Bool
comes_before boosted origin a b =
    if boosted a
    then not (boosted b) || is_nearer origin a b
    else not (boosted b) && is_nearer origin a b

-- `get_queryset`
unfoldable pub search : String → Option (Listing → ℕ) → ℕ → Db → List Listing → List Listing
search category_slug origin now d listings =
    order_by (comes_before (is_boosted now d) origin)
      (filter (is_compatible category_slug) listings)
