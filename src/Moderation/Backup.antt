-- ===== src/Moderation/Backup.antt =====
-- apps/moderation/backup.py, and its task in tasks.py. The directory is a list of files. The glob
-- `tucano-*.sql.gz` of pathlib and the formatted time are parameters, as is what pg_dump comes to:
-- a failed dump raises before anything is written. A run reads one instant; a file that it writes
-- is modified then.
use text.Mathlib.Text.{◌==◌ as str_eq}
use text.Mathlib.TextEquality.{eq_iff}
use tucano.Prelude.{
  ℕ, suc, ◌+◌, ◌-◌, ◌*◌, ◌≤◌, ◌≡◌, refl, Bool, true, false, String, ◌+++◌, List, [], ◌∷◌, ◌++◌,
  ◌&&◌, ltb, leb, if◌then◌else◌, exists, exists-append, update, All, All-imp, arith,
}

-- What a run reads of a file.
pub record File : Type 0 where
  pub name : String
  pub modified : ℕ

-- `RETENTION_DAYS`
abbrev pub retention_days : ℕ
retention_days = 14

abbrev pub cutoff : ℕ → ℕ
cutoff now = now - retention_days * 86400

-- `dest.write_bytes`: it replaces the file, if there is one.
unfoldable pub write_file : String → ℕ → List File → List File
write_file name now files =
    if exists (λ f. str_eq f.name name) files
    then update (λ f. str_eq f.name name) (λ f. record f { modified = now }) files
    else files ++ (record { name = name; modified = now } ∷ [])

-- What the task comes to: the path that it returns, or `CalledProcessError`.
pub data Outcome : Type 0 where
  stored : String → Outcome
  dump_failed : Outcome

module _ (matches : String → Bool) (stamp : ℕ → String) where
  -- `_apply_retention`: how many files it removes, and those that are left.
  unfoldable pub apply_retention : ℕ → List File → ℕ × List File
  apply_retention now [] = (0, [])
  apply_retention now (f ∷ fs) =
      let (removed, left) = apply_retention now fs in
      if matches f.name && ltb f.modified (cutoff now)
      then (suc removed, left)
      else (removed, f ∷ left)

  abbrev pub backup_name : ℕ → String
  backup_name now = "tucano-" +++ stamp now +++ ".sql.gz"

  -- `run_postgres_backup`, with whether the dump succeeds.
  unfoldable pub run_postgres_backup : ℕ → Bool → List File → Outcome × List File
  run_postgres_backup now false files = (dump_failed, files)
  run_postgres_backup now true files =
      (stored (backup_name now), (apply_retention now (write_file (backup_name now) now files)).1)

  -- The task `backup_database`, run at these instants.
  unfoldable pub run_backups : List (ℕ × Bool) → List File → List File
  run_backups [] files = files
  run_backups ((now, dumped) ∷ later) files =
      run_backups later (run_postgres_backup now dumped files).1

-- A file of this name, not older than this instant.
abbrev is_since : String → ℕ → File → Bool
is_since name t f = str_eq f.name name && leb t f.modified

exists-update_newer :
    (p : File → Bool) (name : String) (t now : ℕ) (files : List File)
    → t ≤ now
    → exists (is_since name t) files ≡ true
    → exists (is_since name t) (update p (λ f. record f { modified = now }) files) ≡ true
unfolding exists update
exists-update_newer p name t now [] le h = absurd (cc)
exists-update_newer p name t now (f ∷ fs) le h =
    ground (arith, exists-update_newer p name t now fs le)

-- A file that has the name is written, and is new then.
exists-update_named :
    (name : String) (now : ℕ) (files : List File)
    → exists (λ f. str_eq f.name name) files ≡ true
    → exists
        (is_since name now)
        (update (λ f. str_eq f.name name) (λ f. record f { modified = now }) files)
      ≡ true
unfolding exists update
exists-update_named name now [] h = absurd (cc)
exists-update_named name now (f ∷ fs) h = ground (arith, exists-update_named name now fs)

write_file-newer :
    (name own : String) (t now : ℕ) (files : List File)
    → t ≤ now
    → exists (is_since name t) files ≡ true
    → exists (is_since name t) (write_file own now files) ≡ true
unfolding write_file
write_file-newer name own t now files le h =
    let new : File = record { name = own; modified = now } in
    ground (
      arith,
      exists-update_newer (λ f. str_eq f.name own) name t now files le h,
      exists-append (is_since name t) files (new ∷ []),
    )

write_file-own :
    (name : String) (now : ℕ) (files : List File)
    → exists (is_since name now) (write_file name now files) ≡ true
unfolding write_file exists
write_file-own name now files =
    let new : File = record { name = name; modified = now } in
    ground (
      arith,
      exists-update_named name now files,
      (eq_iff name name).1 refl,
      exists-append (is_since name now) files (new ∷ []),
    )

module _ (matches : String → Bool) (stamp : ℕ → String) where
  apply_retention-recent :
      (now : ℕ) (files : List File)
      → All
          (λ f. matches f.name ≡ true → cutoff now ≤ f.modified)
          (apply_retention matches stamp now files).1
  unfolding apply_retention
  apply_retention-recent now [] = tt
  apply_retention-recent now (f ∷ fs) = ground (arith, apply_retention-recent now fs)

  apply_retention-keeps :
      (name : String) (t now : ℕ) (files : List File)
      → now ≤ t + retention_days * 86400
      → exists (is_since name t) files ≡ true
      → exists (is_since name t) (apply_retention matches stamp now files).1 ≡ true
  unfolding apply_retention exists
  apply_retention-keeps name t now [] le h = absurd (cc)
  apply_retention-keeps name t now (f ∷ fs) le h =
      ground (arith, apply_retention-keeps name t now fs le)

  -- A run leaves alone what is not older than the retention; a good one leaves its own file.
  run_postgres_backup-keeps :
      (name : String) (t now : ℕ) (dumped : Bool) (files : List File)
      → t ≤ now
      → now ≤ t + retention_days * 86400
      → exists (is_since name t) files ≡ true
      → exists (is_since name t) (run_postgres_backup matches stamp now dumped files).1 ≡ true
  unfolding run_postgres_backup
  run_postgres_backup-keeps name t now false files le within h = h
  run_postgres_backup-keeps name t now true files le within h =
      apply_retention-keeps name t now (write_file (backup_name matches stamp now) now files) within
        (write_file-newer name (backup_name matches stamp now) t now files le h)

  run_backups-keeps :
      (name : String) (t : ℕ) (xs : List (ℕ × Bool)) (files : List File)
      → All (λ x. (t ≤ x.0) × (x.0 ≤ t + retention_days * 86400)) xs
      → exists (is_since name t) files ≡ true
      → exists (is_since name t) (run_backups matches stamp xs files) ≡ true
  unfolding run_backups
  run_backups-keeps name t [] files within h = h
  run_backups-keeps name t ((now, dumped) ∷ xs) files ((le, within), rest) h =
      run_backups-keeps name t xs (run_postgres_backup matches stamp now dumped files).1 rest
        (run_postgres_backup-keeps name t now dumped files le within h)

-- After a run whose dump succeeds no file that the glob matches is older than fourteen days. The
-- run's own file is there, with its time or a later one, after any further runs, good or failed,
-- of the fourteen days that follow.
pub run_backups-retains :
    (matches : String → Bool) (stamp : ℕ → String) (now : ℕ) (xs : List (ℕ × Bool))
    (files : List File)
    → All (λ x. (now ≤ x.0) × (x.0 ≤ now + retention_days * 86400)) xs
    → All
        (λ f. matches f.name ≡ true → now ≤ f.modified + retention_days * 86400)
        (run_postgres_backup matches stamp now true files).1
      × (exists
            (λ f. str_eq f.name (backup_name matches stamp now) && leb now f.modified)
            (run_backups matches stamp ((now, true) ∷ xs) files)
          ≡ true)
unfolding run_backups run_postgres_backup
run_backups-retains matches stamp now xs files within =
    let name = backup_name matches stamp now in
    let written = write_file name now files in
    (
      All-imp (λ f. matches f.name ≡ true → cutoff now ≤ f.modified)
          (λ f. matches f.name ≡ true → now ≤ f.modified + retention_days * 86400)
          (λ f h e. let le = h e in omega arith) _
          (apply_retention-recent matches stamp now written),
      run_backups-keeps matches stamp name now xs _ within (
          apply_retention-keeps matches stamp name now now written (omega arith)
            (write_file-own name now files)),
    )
