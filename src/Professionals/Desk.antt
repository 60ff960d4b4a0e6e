-- ===== src/Professionals/Desk.antt =====
-- What a professional keeps on the dashboard: `Availability.save` of apps/professionals/models.py,
-- and the views of availabilities and of the portfolio in views.py. Whether a file is an image is
-- a parameter, which Pillow decides. A field that cannot be read is not sent here.
use Prim.Native.String.{count as text_length}
use tucano.Prelude.{
  ℕ, Bool, Option, String, List, [], ◌∷◌, ◌++◌, ◌⊎◌, inl, inr, ◌==◌, ◌&&◌, not, leb, ltb, filter,
  first, order_by, if◌then◌else◌,
}
use tucano.Models.{ProfessionalProfile, Upload, is_too_large, Availability, PortfolioItem}
use tucano.Db.{
  Db, Fault, invalid_field, ends_before_start, file_too_large, Action, pure, gets, or_404, ◌>>=◌,
  ◌>>◌, modify, fresh_pk, attempt,
}
use tucano.Http.{Response, redirect, form_invalid, professional_required}
use tucano.Requests.Clean.{fault_if, raise_faults}

-- What `full_clean` finds: the choices of the weekday, and `clean`. `self.start_time` is a `time`,
-- and never false.
unfoldable pub availability_faults : Availability → List Fault
availability_faults a =
    fault_if (leb 7 a.weekday) invalid_field
    ++ fault_if (leb a.end_time a.start_time) ends_before_start

-- `Availability.save` of a new row.
unfoldable pub insert_availability : Availability → Action (Unit {0})
insert_availability a = do
  raise_faults (availability_faults a)
  pk ← fresh_pk
  modify (λ d. record d { availabilities = d.availabilities ++ (record a { pk = pk } ∷ []) })

-- `form_valid`, reached where the form found nothing.
unfoldable pub availability_valid : Availability → List Fault ⊎ Unit {0} → Action Response
availability_valid a (inl faults) = pure (form_invalid faults)
availability_valid a (inr _) = do insert_availability a; pure redirect

-- `AvailabilityCreateView.post`. The form validates the row before it knows the professional.
unfoldable pub availability_create : Option ℕ → ℕ → ℕ → ℕ → Action Response
availability_create user weekday start_time end_time = professional_required user λ profile.
    let row : Availability = record {
      pk = 0;
      professional = profile.pk;
      weekday = weekday;
      start_time = start_time;
      end_time = end_time;
    } in
    attempt (raise_faults (availability_faults row)) >>= availability_valid row

-- `AvailabilityDeleteView.post`: only the visitor's own rows are looked at.
unfoldable pub availability_delete : Option ℕ → ℕ → Action Response
availability_delete user pk = professional_required user λ profile. do
  a ←
      or_404
        (← gets (λ d. first (λ a. a.pk == pk && a.professional == profile.pk) d.availabilities))
  modify (λ d. record d { availabilities = filter (λ x. not (x.pk == a.pk)) d.availabilities })
  pure redirect

-- What `PortfolioItemForm` finds.
unfoldable pub portfolio_faults : (Upload → Bool) → Upload → String → List Fault
portfolio_faults is_image image caption =
    fault_if (not (is_image image)) invalid_field
    ++ fault_if (is_too_large image) file_too_large
    ++ fault_if (ltb 150 (text_length caption)) invalid_field

-- `form_valid`, reached where the form found nothing. The row's own save validates nothing.
unfoldable pub portfolio_valid : PortfolioItem → List Fault ⊎ Unit {0} → Action Response
portfolio_valid item (inl faults) = pure (form_invalid faults)
portfolio_valid item (inr _) = do
  pk ← fresh_pk
  modify (λ d. record d { portfolio = d.portfolio ++ (record item { pk = pk } ∷ []) })
  pure redirect

-- `PortfolioItemCreateView.post`, behind its rate limit.
unfoldable pub portfolio_create : (Upload → Bool) → ℕ → Option ℕ → Upload → String → Action Response
portfolio_create is_image now user image caption = professional_required user λ profile.
    let item : PortfolioItem = record {
      pk = 0;
      professional = profile.pk;
      image = image;
      caption = caption;
      created_at = now;
    } in
    attempt (raise_faults (portfolio_faults is_image image caption)) >>= portfolio_valid item

-- `PortfolioItemDeleteView.post`
unfoldable pub portfolio_delete : Option ℕ → ℕ → Action Response
portfolio_delete user pk = professional_required user λ profile. do
  item ← or_404 (← gets (λ d. first (λ i. i.pk == pk && i.professional == profile.pk) d.portfolio))
  modify (λ d. record d { portfolio = filter (λ x. not (x.pk == item.pk)) d.portfolio })
  pure redirect

-- `Availability.Meta.ordering` and `PortfolioItem.Meta.ordering`.
abbrev pub is_earlier : Availability → Availability → Bool
is_earlier a b =
    if a.weekday == b.weekday then leb a.start_time b.start_time else ltb a.weekday b.weekday

abbrev pub is_newer : PortfolioItem → PortfolioItem → Bool
is_newer a b = leb b.created_at a.created_at

-- What `ProfessionalDashboardView.get_context_data` hands to its page, beside the profile.
unfoldable pub dashboard : ProfessionalProfile → Db → List Availability × List PortfolioItem
dashboard profile d = (
  order_by is_earlier (filter (λ a. a.professional == profile.pk) d.availabilities),
  order_by is_newer (filter (λ i. i.professional == profile.pk) d.portfolio),
)
