-- ===== src/Site/Profiles.antt =====
-- Every operation of apps/clients and apps/professionals keeps the history.
use tucano.Prelude.{ℕ, refl, ◌⊎◌, inl, inr, Option, String, List, Bool}
use tucano.Models.{Upload, ProfessionalProfile, Availability, PortfolioItem}
use tucano.Db.{Fault}
use tucano.Clients.Views.{
  favorite_toggle, client_profile_create, professional_profile_create, professional_profile_update,
}
use tucano.Professionals.Desk.{
  insert_availability, availability_valid, availability_create, availability_delete,
  portfolio_valid, portfolio_create, portfolio_delete,
}
use tucano.Site.Parts.{Part, may_write}
use tucano.Site.History.{Keeps-refl}
use tucano.Site.Rows.{SameProfessional}
use tucano.Site.Rules.{raise_faults-Safe, Safe, rules}
use tucano.Site.Writes.{writes}

pub favorite_toggle-Safe :
    (user : Option ℕ) (professional_id : ℕ)
    → Safe (may_write Part.favorites) (favorite_toggle user professional_id)
unfolding favorite_toggle
favorite_toggle-Safe user professional_id = search (rules, writes) depth 20

pub client_profile_create-Safe :
    (user : Option ℕ) → Safe (may_write Part.clients) (client_profile_create user)
unfolding client_profile_create
client_profile_create-Safe user = search (rules, writes) depth 20

pub professional_profile_create-Safe :
    (user : Option ℕ) (main_category : ℕ)
    → Safe (may_write Part.profiles) (professional_profile_create user main_category)
unfolding professional_profile_create
professional_profile_create-Safe user main_category = search (rules, writes) depth 20

recategorised_same :
    (main_category : ℕ) (x : ProfessionalProfile)
    → SameProfessional x (record x { main_category = main_category })
recategorised_same main_category x = (refl, refl)

pub professional_profile_update-Safe :
    (user : Option ℕ) (main_category : ℕ)
    → Safe (may_write Part.profiles) (professional_profile_update user main_category)
unfolding professional_profile_update
professional_profile_update-Safe user main_category =
    search (rules, writes, recategorised_same) depth 20

insert_availability-Safe : (a : Availability) → Safe (may_write Part.desk) (insert_availability a)
unfolding insert_availability
insert_availability-Safe a = search (rules, writes, raise_faults-Safe) depth 20

availability_valid-Safe :
    (a : Availability) (found : List Fault ⊎ Unit {0})
    → Safe (may_write Part.desk) (availability_valid a found)
unfolding availability_valid
availability_valid-Safe may (inl faults) = record { at = Keeps-refl }
availability_valid-Safe may (inr _) = search (rules, insert_availability-Safe) depth 20

pub availability_create-Safe :
    (user : Option ℕ) (weekday start_time end_time : ℕ)
    → Safe (may_write Part.desk) (availability_create user weekday start_time end_time)
unfolding availability_create
availability_create-Safe user weekday start_time end_time =
    search (rules, raise_faults-Safe, availability_valid-Safe) depth 20

pub availability_delete-Safe :
    (user : Option ℕ) (pk : ℕ) → Safe (may_write Part.desk) (availability_delete user pk)
unfolding availability_delete
availability_delete-Safe user pk = search (rules, writes) depth 20

portfolio_valid-Safe :
    (item : PortfolioItem) (found : List Fault ⊎ Unit {0})
    → Safe (may_write Part.desk) (portfolio_valid item found)
unfolding portfolio_valid
portfolio_valid-Safe item (inl faults) = record { at = Keeps-refl }
portfolio_valid-Safe item (inr _) = search (rules, writes) depth 20

pub portfolio_create-Safe :
    (is_image : Upload → Bool) (now : ℕ) (user : Option ℕ) (image : Upload) (caption : String)
    → Safe (may_write Part.desk) (portfolio_create is_image now user image caption)
unfolding portfolio_create
portfolio_create-Safe is_image now user image caption =
    search (rules, raise_faults-Safe, portfolio_valid-Safe) depth 20

pub portfolio_delete-Safe :
    (user : Option ℕ) (pk : ℕ) → Safe (may_write Part.desk) (portfolio_delete user pk)
unfolding portfolio_delete
portfolio_delete-Safe user pk = search (rules, writes) depth 20
