-- ===== src/Tests/Desk.antt =====
-- The theorems on the dashboard, identity verification and the backup, at concrete tables.
use text.Mathlib.Text.{◌==◌ as str_eq}
use tucano.Prelude.{
  ℕ, ◌+◌, ◌*◌, ◌≤◌, ◌≡◌, refl, Bool, true, false, some, String, List, [], ◌∷◌, ◌&&◌, leb,
  if◌then◌else◌, arith, count, exists, All,
}
use tucano.Models.{Upload, Availability, PortfolioItem}
use tucano.Db.{Db}
use tucano.Moderation.Backup.{
  File, retention_days, backup_name, run_postgres_backup, run_backups, run_backups-retains,
}
use tucano.Professionals.Desk.{dashboard}
use tucano.Professionals.Ownership.{
  DeskCall, open_call, close_call, show_call, hide_call, visitor, run_desk_calls,
}
use tucano.Professionals.Dashboard.{IsTidy, run_desk_calls-dashboard}
use tucano.Tests.Sample.{painter, base}

abbrev photo : Upload
photo = record { name = "parede.jpg"; size = 4000 }

abbrev matches : String → Bool
matches name = true

abbrev stamp : ℕ → String
stamp now = if leb 2050000 now then "20260102T000000Z" else "20260101T000000Z"

abbrev old_files : List File
old_files = record { name = "tucano-old.sql.gz"; modified = 5 } ∷ []

abbrev later_runs : List (ℕ × Bool)
later_runs = (2086400, true) ∷ (2172800, false) ∷ []

run_backups-retains_example :
    All
      (λ f. matches f.name ≡ true → 2000000 ≤ f.modified + retention_days * 86400)
      (run_postgres_backup matches stamp 2000000 true old_files).1
    × (exists
          (λ f. str_eq f.name (backup_name matches stamp 2000000) && leb 2000000 f.modified)
          (run_backups matches stamp ((2000000, true) ∷ later_runs) old_files)
        ≡ true)
run_backups-retains_example =
    run_backups-retains matches stamp 2000000 later_runs old_files
      ((omega arith, omega arith), ((omega arith, omega arith), tt))

abbrev slot : Availability
slot = record { pk = 500; professional = 20; weekday = 1; start_time = 480; end_time = 720 }

abbrev item : PortfolioItem
item = record {
  pk = 501;
  professional = 20;
  image = photo;
  caption = "Uma parede";
  created_at = 50;
}

abbrev furnished : Db
furnished = record base { availabilities = slot ∷ []; portfolio = item ∷ [] }

abbrev is_image : Upload → Bool
is_image file = true

-- The second painter opens a slot and shows a photo, and tries to delete the first painter's rows.
abbrev desk_calls : List DeskCall
desk_calls =
    open_call (some 3) 2 600 660
    ∷ show_call 90 (some 3) photo ""
    ∷ close_call (some 3) 500
    ∷ hide_call (some 3) 501
    ∷ []

furnished-IsTidy : IsTidy furnished
unfolding count
furnished-IsTidy = record {
  availabilities = record { unique = λ k. ground arith; below = ground arith };
  portfolio = record { unique = λ k. ground arith; below = ground arith };
}

run_desk_calls-dashboard_example :
    dashboard painter (run_desk_calls is_image desk_calls furnished) ≡ dashboard painter furnished
unfolding visitor
run_desk_calls-dashboard_example =
    run_desk_calls-dashboard is_image painter desk_calls furnished furnished-IsTidy
      ((λ e. refl), ((λ e. absurd (ground arith)), tt))
      (ground arith, (ground arith, (ground arith, (ground arith, tt))))
