-- ===== src/Clients/Pages.antt =====
-- The pages of apps/clients/views.py, and the favourites in the context of the search
-- (apps/professionals/views.py). `Favorite.Meta.ordering` puts the newest first.
use tucano.Prelude.{
  ℕ, ◌≡◌, ◌≢◌, inl, inr, refl, sym, ap, ◌∙◌, subst, Bool, false, Option, some, List, [], ◌∷◌, ◌++◌,
  ◌==◌, ◌&&◌, not, leb, arith, filter, filter-nil, filter-append, filter-filter, append-nil, first,
  exists, exists-append, order_by, reverse, reverse-cons, take, map, All-of, Bool-cases,
}
use mathlib.Core.Option.{map as map_option}
use tucano.Models.{ClientProfile, ProfessionalProfile, Favorite, ServiceRequest}
use tucano.Db.{Db, Result, ok}
use tucano.Http.{Response, redirect, client_profile}
use tucano.Clients.Views.{is_pair, toggle, favorite_toggle}
use tucano.Clients.Laws.{toggle-flips}

abbrev pub is_of : ℕ → Favorite → Bool
is_of client f = f.client == client

-- `FavoriteListView.get_queryset`, for the client with this key.
unfoldable pub favorite_list : ℕ → Db → List Favorite
favorite_list client d = reverse (filter (is_of client) d.favorites)

-- `favorite_ids` of `ProfessionalSearchView.get_context_data`: `none` where the context has no
-- such key.
unfoldable pub favorite_ids : Option ℕ → Db → Option (List ℕ)
favorite_ids user d =
    map_option (λ (c : ClientProfile). map (λ f. f.professional) (favorite_list c.pk d))
      (client_profile user d)

-- `ClientDashboardView.get_context_data`: the client's latest calls, by
-- `ServiceRequest.Meta.ordering`.
unfoldable pub client_dashboard : ClientProfile → Db → List ServiceRequest
client_dashboard client d = take 20 (
    order_by (λ a b. leb b.published_at a.published_at)
      (filter (λ r. r.client.pk == client.pk) d.requests))

exists-reverse {ℓ} : {A : Type ℓ} (p : A → Bool) (xs : List A) → exists p (reverse xs) ≡ exists p xs
unfolding exists
exists-reverse p [] = refl
exists-reverse p (x ∷ xs) =
    ap (exists p) (reverse-cons x xs)
    ∙ ground (arith, exists-append p (reverse xs) (x ∷ []), exists-reverse p xs)

exists-filter {ℓ} :
    {A : Type ℓ} (p q : A → Bool) (xs : List A)
    → exists p (filter q xs) ≡ exists (λ x. q x && p x) xs
unfolding exists filter
exists-filter p q [] = refl
exists-filter p q (x ∷ xs) = ground (arith, exists-filter p q xs)

-- What the page of a client says of a professional.
favorite_list-exists :
    (client professional : ℕ) (d : Db)
    → exists (λ f. f.professional == professional) (favorite_list client d)
      ≡ exists (is_pair client professional) d.favorites
unfolding favorite_list
favorite_list-exists client professional d =
    exists-reverse (λ f. f.professional == professional) (filter (is_of client) d.favorites)
    ∙ exists-filter (λ f. f.professional == professional) (is_of client) d.favorites

-- Another client's rows are not touched.
toggle-filter :
    (client professional other : ℕ) (fs : List Favorite)
    → client ≢ other
    → filter (is_of other) (toggle client professional fs) ≡ filter (is_of other) fs
unfolding toggle
toggle-filter client professional other fs ne =
    elim (Bool-cases (exists (is_pair client professional) fs)) [
      | inl there ↦ rw there (
          filter-filter (is_of other) (λ f. not (is_pair client professional f)) fs
            (All-of (λ f. not (is_pair client professional f) ≡ false → is_of other f ≡ false)
              (λ f gone. ground arith) fs))
      | inr fresh ↦
          let row : Favorite = record { client = client; professional = professional } in
          let unlike : is_of other row ≡ false = ground arith in
          rw fresh (
            filter-append (is_of other) fs (row ∷ [])
            ∙ ap (λ ys. filter (is_of other) fs ++ ys)
                (filter-nil (is_of other) (row ∷ []) (unlike, tt))
            ∙ append-nil (filter (is_of other) fs))
    ]

-- What the view does for a client and a stored professional.
favorite_toggle-writes :
    (user : ℕ) (client : ClientProfile) (professional : ProfessionalProfile) (d : Db)
    → first (λ c. c.user == user) d.clients ≡ some client
    → first (λ p. p.pk == professional.pk) d.professionals ≡ some professional
    → favorite_toggle (some user) professional.pk d
      ≡ (ok redirect, record d { favorites = toggle client.pk professional.pk d.favorites })
unfolding favorite_toggle
favorite_toggle-writes user client professional d hc hp = ground arith

-- A client who toggles a stored professional is redirected. The client's own page, and the marks of
-- the search, show that professional exactly if they did not before; the page of every other client
-- stays as it is.
pub favorite_toggle-pages :
    (user : ℕ) (client : ClientProfile) (professional : ProfessionalProfile) (d : Db)
    → first (λ c. c.user == user) d.clients ≡ some client
    → first (λ p. p.pk == professional.pk) d.professionals ≡ some professional
    → let d' = (favorite_toggle (some user) professional.pk d).1 in
      let shown =
        λ (e : Db). exists (λ f. f.professional == professional.pk) (favorite_list client.pk e) in
      ((favorite_toggle (some user) professional.pk d).0 ≡ ok redirect)
      × (shown d' ≡ not (shown d))
      × (favorite_ids (some user) d'
          ≡ some (map (λ f. f.professional) (favorite_list client.pk d')))
      × ((other : ℕ) → client.pk ≢ other → favorite_list other d' ≡ favorite_list other d)
unfolding favorite_ids favorite_list
favorite_toggle-pages user client professional d hc hp =
    subst
      (λ (o : Result Response × Db).
        (o.0 ≡ ok redirect)
        × (exists (λ f. f.professional == professional.pk) (favorite_list client.pk o.1)
            ≡ not (exists (λ f. f.professional == professional.pk) (favorite_list client.pk d)))
        × (favorite_ids (some user) o.1
            ≡ some (map (λ f. f.professional) (favorite_list client.pk o.1)))
        × ((other : ℕ) → client.pk ≢ other → favorite_list other o.1 ≡ favorite_list other d))
      (sym (favorite_toggle-writes user client professional d hc hp))
      (
        refl,
        favorite_list-exists client.pk professional.pk d'
            ∙ (toggle-flips client.pk professional.pk d.favorites).0
            ∙ ap not (sym (favorite_list-exists client.pk professional.pk d)),
        ap (map_option (λ (c : ClientProfile). map (λ f. f.professional) (favorite_list c.pk d')))
            hc,
        λ other ne. ap reverse (toggle-filter client.pk professional.pk other d.favorites ne),
      )
  where
    d' : Db
    d' = record d { favorites = toggle client.pk professional.pk d.favorites }
