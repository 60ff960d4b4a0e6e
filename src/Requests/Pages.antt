-- ===== src/Requests/Pages.antt =====
-- The pages of apps/requests/views.py that only read. Where a call or a professional has no
-- location is a parameter, as is the distance that PostGIS computes.
use tucano.Prelude.{
  ℕ, Bool, false, Option, none, some, String, List, ◌==◌, ◌&&◌, leb, filter, first, exists,
  order_by, map, if◌then◌else◌,
}
use mathlib.Core.Option.{map as map_option}
use tucano.Models.{ClientProfile, ProfessionalProfile, ServiceRequest, Interest, is_receiving}
use tucano.Requests.Services.{is_published_later}
use tucano.Db.{Db, Action, gets, or_404, ◌>>=◌}
use tucano.Http.{client_profile, professional_profile}
use tucano.Requests.Views.{load_own}

-- `ServiceRequestCreateView.get_initial`: what the form starts with for a professional that the
-- client has among the favourites; `label` is the professional's `location_label`.
unfoldable pub get_initial :
    (ProfessionalProfile → String) → ClientProfile → Option ℕ → Db → Option (ℕ × String)
get_initial label client none d = none
get_initial label client (some favorite_id) d =
    elim (first
      (λ p.
        p.pk == favorite_id
        && exists (λ f. f.client == client.pk && f.professional == p.pk) d.favorites)
      d.professionals) [ none ↦ none | some p ↦ some (p.main_category, label p) ]

-- The filter of `ServiceRequestCompatibleListView.get_queryset`.
abbrev pub is_offered : ProfessionalProfile → ServiceRequest → Bool
is_offered profile r = is_receiving r.status && r.category == profile.main_category

-- `get_queryset`: `distance` is from the professional's location, where there is one.
unfoldable pub compatible_list :
    (ServiceRequest → Bool)
    → Option (ServiceRequest → ℕ)
    → ProfessionalProfile
    → Db
    → List ServiceRequest
compatible_list is_located none profile d =
    order_by is_published_later (filter (is_offered profile) d.requests)
compatible_list is_located (some distance) profile d =
    order_by (λ a b. leb (distance a) (distance b))
      (filter is_located (filter (is_offered profile) d.requests))

-- `get_context_data`: the calls that the professional has applied for.
unfoldable pub applied_ids : ProfessionalProfile → Db → List ℕ
applied_ids profile d =
    map (λ i. i.service_request) (filter (λ i. i.professional.pk == profile.pk) d.interests)

-- The context of `ServiceRequestDetailView`, less its empty form. `interests` and `my_interest` are
-- `none` where the context has no such key.
pub record DetailPage : Type 0 where
  pub service_request : ServiceRequest
  pub is_owner : Bool
  pub interests : Option (List Interest)
  pub my_interest : Option (Option Interest)

abbrev pub has_pk : Option ClientProfile → ℕ → Bool
has_pk none pk = false
has_pk (some profile) pk = pk == profile.pk

-- `service_request.interests.filter(professional=...).first()`
abbrev pub interest_of : ServiceRequest → Db → ProfessionalProfile → Option Interest
interest_of r d profile =
    first (λ i. i.service_request == r.pk && i.professional.pk == profile.pk) d.interests

abbrev pub interests_of : ServiceRequest → Db → List Interest
interests_of r d = filter (λ i. i.service_request == r.pk) d.interests

-- `ServiceRequestDetailView.get_context_data`
unfoldable pub detail_context : Option ℕ → ServiceRequest → Db → DetailPage
detail_context user r d =
    let is_owner = has_pk (client_profile user d) r.client.pk in
    record {
      service_request = r;
      is_owner = is_owner;
      interests = if is_owner then some (interests_of r d) else none;
      my_interest = map_option (interest_of r d) (professional_profile user d);
    }

unfoldable pub detail_page : Option ℕ → ℕ → Action DetailPage
detail_page user pk = do
  r ← or_404 (← gets (λ d. first (λ r. r.pk == pk) d.requests))
  gets (detail_context user r)

-- `ServiceRequestInterestsPartialView`, for a user with this client profile.
unfoldable pub interests_partial : ClientProfile → ℕ → Action (List Interest)
interests_partial profile pk = do r ← load_own profile pk; gets (interests_of r)
