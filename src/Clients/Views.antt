-- ===== src/Clients/Views.antt =====
-- apps/clients/views.py, and the views of the profile in apps/professionals/views.py.
use tucano.Prelude.{
  ℕ, Bool, Option, List, [], ◌∷◌, ◌++◌, ◌&&◌, not, ◌==◌, first, exists, filter, update,
  if◌then◌else◌,
}
use tucano.Models.{ProfessionalProfile, Favorite}
use tucano.Db.{Action, pure, gets, or_404, ◌>>=◌, ◌>>◌, modify, fresh_pk}
use tucano.Http.{Response, redirect, login_required, client_required, professional_required}

abbrev pub is_pair : ℕ → ℕ → Favorite → Bool
is_pair client professional f = f.client == client && f.professional == professional

-- `get_or_create` and, on a row that was there, `delete`.
unfoldable pub toggle : ℕ → ℕ → List Favorite → List Favorite
toggle client professional favorites =
    let kept = filter (λ f. not (is_pair client professional f)) favorites in
    if exists (is_pair client professional) favorites
    then kept
    else favorites ++ ((record { client = client; professional = professional }) ∷ [])

-- `FavoriteToggleView.post`
unfoldable pub favorite_toggle : Option ℕ → ℕ → Action Response
favorite_toggle user professional_id = client_required user λ client. do
  professional ← or_404 (← gets (λ d. first (λ p. p.pk == professional_id) d.professionals))
  modify (λ d. record d { favorites = toggle client.pk professional.pk d.favorites })
  pure redirect

-- `ClientProfileCreateView` on a valid form.
unfoldable pub client_profile_create : Option ℕ → Action Response
client_profile_create user = login_required user λ u. do
  there ← gets (λ d. exists (λ p. p.user == u) d.clients)
  (if there then pure redirect else insert u)
  where
    insert : ℕ → Action Response
    insert u = do
      pk ← fresh_pk
      modify (λ d. record d { clients = d.clients ++ ((record { pk = pk; user = u }) ∷ []) })
      pure redirect

-- `ProfessionalProfileCreateView` on a valid form, with the category that it names.
unfoldable pub professional_profile_create : Option ℕ → ℕ → Action Response
professional_profile_create user main_category = login_required user λ u. do
  there ← gets (λ d. exists (λ p. p.user == u) d.professionals)
  (if there then pure redirect else insert u)
  where
    insert : ℕ → Action Response
    insert u = do
      pk ← fresh_pk
      modify (λ d.
          let row : ProfessionalProfile = record {
            pk = pk;
            user = u;
            main_category = main_category;
          } in
          record d { professionals = d.professionals ++ (row ∷ []) })
      pure redirect

-- `ProfessionalProfileUpdateView` on a valid form, as far as the category goes.
unfoldable pub professional_profile_update : Option ℕ → ℕ → Action Response
professional_profile_update user main_category = professional_required user λ profile. do
  modify (λ d. record d {
    professionals =
        update (λ p. p.pk == profile.pk) (λ p. record p { main_category = main_category })
          d.professionals;
  })
  pure redirect
