-- ===== src/Professionals/Ranking.antt =====
-- What a search of apps/professionals/views.py shows, and in which order.
use tucano.Prelude.{
  ◌≤◌, All-imp, order_by, filter-All_fit, ℕ, ◌≡◌, refl, Bool, true, false, Option, none, some,
  String, List, [], ◌∷◌, ◌&&◌, filter, count, All, arith, ◌∙◌, Ordered, order_by-All,
  order_by-count, order_by-Ordered,
}
use tucano.Db.{Db}
use tucano.Professionals.Search.{Listing, is_compatible, is_boosted, comes_before, search}

comes_before-total :
    (boosted : Listing → Bool) (origin : Option (Listing → ℕ)) (x y : Listing)
    → comes_before boosted origin x y ≡ false
    → comes_before boosted origin y x ≡ true
comes_before-total boosted none x y h = ground arith
comes_before-total boosted (some distance) x y h = ground arith

comes_before_trans :
    (boosted : Listing → Bool) (origin : Option (Listing → ℕ)) (x y z : Listing)
    → comes_before boosted origin x y ≡ true
    → comes_before boosted origin y z ≡ true
    → comes_before boosted origin x z ≡ true
comes_before_trans boosted none x y z h k = ground arith
comes_before_trans boosted (some distance) x y z h k = ground arith

filter-count {ℓ} :
    {A : Type ℓ} (p q : A → Bool) (xs : List A) → count q (filter p xs) ≡ count (λ x. p x && q x) xs
unfolding filter count
filter-count p q [] = refl
filter-count p q (x ∷ xs) = ground (arith, filter-count p q xs)

-- What the search asks of two profiles, the first before the second: it is boosted if the second
-- is; and of two that are both boosted, or both not, it is as near as the second, or, without a
-- place to measure from, as new.
pub record Precedes (boosted : Listing → Bool) (origin : Option (Listing → ℕ)) (a b : Listing)
    : Type 0 where
  pub boost : boosted b ≡ true → boosted a ≡ true
  pub nearer :
      (distance : Listing → ℕ)
      → origin ≡ some distance
      → boosted a ≡ boosted b
      → distance a ≤ distance b
  pub newer : origin ≡ none → boosted a ≡ boosted b → b.created_at ≤ a.created_at

-- Each row precedes all that come behind it.
abbrev pub InOrder {ℓ κ} : {A : Type ℓ} → (A → A → Type κ) → List A → Type (ℓ ⊔ κ)
InOrder R [] = Unit
InOrder R (x ∷ xs) = All (R x) xs × InOrder R xs

comes_before-Precedes :
    (boosted : Listing → Bool) (origin : Option (Listing → ℕ)) (a b : Listing)
    → comes_before boosted origin a b ≡ true
    → Precedes boosted origin a b
comes_before-Precedes boosted none a b h = record {
  boost = λ e. ground arith;
  nearer = λ distance e same. absurd (cc);
  newer = λ e same. ground arith;
}
comes_before-Precedes boosted (some distance) a b h = record {
  boost = λ e. ground arith;
  nearer = λ other e same. ground arith;
  newer = λ e same. absurd (cc);
}

Ordered-InOrder :
    (boosted : Listing → Bool) (origin : Option (Listing → ℕ)) (xs : List Listing)
    → Ordered (comes_before boosted origin) xs
    → InOrder (Precedes boosted origin) xs
Ordered-InOrder boosted origin [] h = tt
Ordered-InOrder boosted origin (x ∷ xs) h = (
  All-imp (λ y. comes_before boosted origin x y ≡ true) (Precedes boosted origin x)
      (λ y. comes_before-Precedes boosted origin x y) xs h.0,
  Ordered-InOrder boosted origin xs h.1,
)

-- A search shows only compatible profiles, each as often as it stands in the table, with every
-- boosted one before every other and, among the boosted and among the others, in the order of the
-- distance or, without a place to measure from, the newest first.
pub search-ranked :
    (category_slug : String) (origin : Option (Listing → ℕ)) (now : ℕ) (d : Db)
    (listings : List Listing)
    → let result = search category_slug origin now d listings in
      All (λ l. is_compatible category_slug l ≡ true) result
      × ((q : Listing → Bool)
          → count q result ≡ count (λ l. is_compatible category_slug l && q l) listings)
      × InOrder (Precedes (is_boosted now d) origin) result
unfolding search
search-ranked category_slug origin now d listings =
    let before = comes_before (is_boosted now d) origin in
    let rows = filter (is_compatible category_slug) listings in
    (
      order_by-All before (λ l. is_compatible category_slug l ≡ true) rows
          (filter-All_fit (is_compatible category_slug) listings),
      λ q. order_by-count before q rows ∙ filter-count (is_compatible category_slug) q listings,
      Ordered-InOrder (is_boosted now d) origin (order_by before rows) (
          order_by-Ordered before (comes_before-total (is_boosted now d) origin)
            (comes_before_trans (is_boosted now d) origin) rows),
    )
