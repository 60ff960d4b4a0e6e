-- ===== src/Clients/Profiles.antt =====
-- Any sequence of requests that make or edit a profile.
use tucano.Prelude.{
  ℕ, ◌≤◌, ◌≡◌, ◌⊎◌, inl, inr, refl, sym, subst, Bool, true, Option, none, some, ◌==◌, arith,
  count-update_same, first, update, All-of, Option-cases,
}
use tucano.Models.{ProfessionalProfile}
use tucano.Db.{Db}
use tucano.Clients.Views.{
  client_profile_create, professional_profile_create, professional_profile_update,
}
use tucano.Clients.Laws.{OneProfileEach, profile_create-OneProfileEach}

-- A request, with the visitor and the category that its form names.
pub data ProfileCall : Type 0 where
  client_call : Option ℕ → ProfileCall
  professional_call edit_call : Option ℕ → ℕ → ProfileCall

unfoldable pub run_profile_call : ProfileCall → Db → Db
run_profile_call (client_call visitor) d = (client_profile_create visitor d).1
run_profile_call (professional_call visitor category) d =
    (professional_profile_create visitor category d).1
run_profile_call (edit_call visitor category) d = (professional_profile_update visitor category d).1

-- An edit changes nothing, or writes the category of the rows with one key.
professional_profile_update-cases :
    (visitor : Option ℕ) (category : ℕ) (d : Db)
    → ((professional_profile_update visitor category d).1 ≡ d)
      ⊎ ((k : ℕ) × ((professional_profile_update visitor category d).1 ≡ record d {
        professionals =
            update (λ p. p.pk == k) (λ p. record p { main_category = category }) d.professionals;
      }))
unfolding professional_profile_update
professional_profile_update-cases none category d = inl refl
professional_profile_update-cases (some u) category d =
    elim (Option-cases (first (λ p. p.user == u) d.professionals)) [
      | inl no_profile ↦ inl (ground arith)
      | inr (profile, found) ↦ inr (profile.pk, ground arith)
    ]

edit_call-OneProfileEach :
    (visitor : Option ℕ) (category : ℕ) (d : Db)
    → OneProfileEach d
    → OneProfileEach (professional_profile_update visitor category d).1
edit_call-OneProfileEach visitor category d one =
    elim (professional_profile_update-cases visitor category d) [
      | inl same ↦ subst OneProfileEach (sym same) one
      | inr (k, same) ↦
          let q : ProfessionalProfile → Bool = λ p. p.pk == k in
          let f : ProfessionalProfile → ProfessionalProfile =
            λ p. record p { main_category = category } in
          subst OneProfileEach (sym same) (λ user. (
            (one user).0,
            subst (λ n. n ≤ 1)
                (sym (
                  count-update_same q f (λ p. p.user == user) d.professionals
                    (All-of (λ p. q p ≡ true → ((f p).user == user) ≡ (p.user == user))
                      (λ p e. refl) d.professionals)))
                (one user).1,
          ))
    ]

-- Whoever makes or edits a profile, every user has one of each kind at most.
pub run_profile_call-OneProfileEach :
    (x : ProfileCall) (d : Db) → OneProfileEach d → OneProfileEach (run_profile_call x d)
unfolding run_profile_call
run_profile_call-OneProfileEach (client_call visitor) d one =
    (profile_create-OneProfileEach d visitor 0 one).0
run_profile_call-OneProfileEach (professional_call visitor category) d one =
    (profile_create-OneProfileEach d visitor category one).1
run_profile_call-OneProfileEach (edit_call visitor category) d one =
    edit_call-OneProfileEach visitor category d one
