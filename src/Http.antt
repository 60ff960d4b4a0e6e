-- ===== src/Http.antt =====
-- What a view answers, and the mixins that guard it: Django's `LoginRequiredMixin`, and those of
-- apps/accounts/mixins.py. `user` is `none` for a visitor who is not logged in.
use tucano.Prelude.{ℕ, Option, none, some, List, ◌==◌, first}
use tucano.Models.{ClientProfile, ProfessionalProfile}
use tucano.Db.{Db, Fault, permission_denied, Action, pure, raise, gets, ◌>>=◌}

pub data Response : Type 0 where
  login_redirect : Response
  redirect : Response
  redirect_with : List Fault → Response
  form_invalid : List Fault → Response

-- `LoginRequiredMixin`
abbrev pub login_required : Option ℕ → (ℕ → Action Response) → Action Response
login_required none view = pure login_redirect
login_required (some user) view = view user

abbrev pub has_client_profile :
    Option ClientProfile → (ClientProfile → Action Response) → Action Response
has_client_profile none view = raise permission_denied
has_client_profile (some profile) view = view profile

-- `ClientRequiredMixin`: a visitor is sent to the login, a user with no client profile is refused.
abbrev pub client_required : Option ℕ → (ClientProfile → Action Response) → Action Response
client_required none view = pure login_redirect
client_required (some user) view = do
  found ← gets (λ d. first (λ p. p.user == user) d.clients)
  has_client_profile found view

abbrev pub has_professional_profile :
    Option ProfessionalProfile → (ProfessionalProfile → Action Response) → Action Response
has_professional_profile none view = raise permission_denied
has_professional_profile (some profile) view = view profile

-- `ProfessionalRequiredMixin`
abbrev pub professional_required :
    Option ℕ → (ProfessionalProfile → Action Response) → Action Response
professional_required none view = pure login_redirect
professional_required (some user) view = do
  found ← gets (λ d. first (λ p. p.user == user) d.professionals)
  has_professional_profile found view

-- The profiles of `request.user`, where it has them: `hasattr` tells.
abbrev pub client_profile : Option ℕ → Db → Option ClientProfile
client_profile none d = none
client_profile (some user) d = first (λ p. p.user == user) d.clients

abbrev pub professional_profile : Option ℕ → Db → Option ProfessionalProfile
professional_profile none d = none
professional_profile (some user) d = first (λ p. p.user == user) d.professionals
