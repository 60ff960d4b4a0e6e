-- ===== src/Models/Profiles.antt =====
-- apps/clients/models.py and apps/professionals/models.py, as far as other rows point to them. A
-- foreign key to a profile is kept as the profile's primary key with its user: the user of a
-- profile is set when the row is made and no code changes it, and the database's constraint makes
-- the row exist. The category of such a copy is not read: an edit writes it in the profile's row.
-- Primary keys and users are numbers; the keys that the database hands out start at 1.
use tucano.Prelude.{ℕ, String}
use tucano.Models.Uploads.{Upload}

-- `ClientProfile`
pub record ClientProfile : Type 0 where
  pub pk : ℕ
  pub user : ℕ

-- `ProfessionalProfile`, with the category that calls are matched by.
pub record ProfessionalProfile : Type 0 where
  pub pk : ℕ
  pub user : ℕ
  pub main_category : ℕ

-- `Favorite`
pub record Favorite : Type 0 where
  pub client : ℕ
  pub professional : ℕ

-- `Availability`; times are minutes of the day.
pub record Availability : Type 0 where
  pub pk : ℕ
  pub professional : ℕ
  pub weekday : ℕ
  pub start_time : ℕ
  pub end_time : ℕ

-- `PortfolioItem`
pub record PortfolioItem : Type 0 where
  pub pk : ℕ
  pub professional : ℕ
  pub image : Upload
  pub caption : String
  pub created_at : ℕ
