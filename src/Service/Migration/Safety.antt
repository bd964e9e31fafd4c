-- ===== src/Service/Migration/Safety.antt =====
-- agent/cg-agent/src/service/migration.rs: that each step leaves the host in a state of a migration.
pub mod States
pub mod Directories
use cyber_guard_enterprise.Prelude.{
  ℕ, ◌≡◌, ◌≢◌, refl, sym, ap, subst, ◌∙◌, Bool, true, false, ◌&&◌, List, [], ◌∷◌, ◌++◌, Option,
  none, some, Text, Bool-cases, inl, inr, arith, if◌then◌else◌,
}
use cyber_guard_enterprise.Prelude.Results.{Result, ok, err, Done, done}
use cyber_guard_enterprise.Service.Migration.Arguments.{Texts, Request}
use cyber_guard_enterprise.Service.Migration.Host.{
  Record, Point, close_product_root, close_data_root, delete_interrupted_staging, create_staging,
  write_record, stage, check_staged_point, first_rename, second_rename, record_reversal,
  rename_back, clear_reversal, Injected, fails, crash, Stop, crashed, Dir, Host, Environment, Step,
  Prepared, committed_start, continues, renames, with_errors, gives, ◌>>>◌, at_point, staged_names,
  texts_eq, identity_line,
}
use cyber_guard_enterprise.Service.Migration.Route.Staging.{
  cut_in_place, naming, close_dir, close_data_root_step, close_at, close_directories,
  remove_staging, delete_staging, create_staging_step, save, write_staged_record, clear,
  clear_staged, add_name, stage_one, stage_all, is_whole, check_whole, check_staged, Attempt, fresh,
  interrupted, continued, begin_staging, record_and_stage, record_of,
}
use cyber_guard_enterprise.Service.Migration.Route.{
  rename_data_root, rename_legacy, rename_staging, mark, reversed, renamed_back, reverse, marked,
  ends, second_done, commit, check_data_directories, discard_interrupted, route,
}
use cyber_guard_enterprise.Service.Migration.Phases.{
  AtRoot_cases, AtStaging_cases, Between_cases, IsSaved, Closes, Holds, Closes, Holds, IsSaved,
  IsStaged, Phase, Safe, Rooted, IsRooted, Recorded, IsRecorded, IsReady, After, After-continues,
  After-renames, at_point-After, texts_eq-eq,
}
use cyber_guard_enterprise.Service.Migration.Safety.States.{
  Begins, Aside, Waits, Console, IsBegun, IsBeside, IsComplete, IsConsoled, IsMoved, begun-Rooted,
  complete-Safe, consoled-Safe, moved-Safe, Recorded-Begun, rooted-Consoled,
}
use cyber_guard_enterprise.Service.Migration.Safety.Directories.{
  Leads, at-Leads, begins, begun-Safe, clear_step, close_at-Leads, close_directories-Leads,
  close_step, create_step, discard-Rooted, discard_nothing, errors-Leads, point-Leads,
  recorded-Safe, remove_step, rooted-Safe, then-Leads, write_step,
}

module _ (files : Texts) where
  -- What a start needs of the host for its attempt: a continued one finds a staging directory.
  abbrev pub Starts : Attempt → Host → Type 0
  Starts (continued r) h = IsBegun files h
  Starts fresh h = IsRooted files h
  Starts interrupted h = IsRooted files h

  -- What the same start needs before the data root is closed.
  abbrev pub Enters : Attempt → Host → Type 0
  Enters (continued r) h = IsBeside files h
  Enters fresh h = IsConsoled files h
  Enters interrupted h = IsConsoled files h

  Beside-Safe : (h : Host) → IsBeside files h → Safe files h
  Beside-Safe = AtStaging_cases (Aside files) (Safe files) (λ d s p. p)

  close-Beside : Leads files (IsBeside files) (IsBegun files) close_data_root_step
  unfolding close_data_root_step
  close-Beside =
      AtStaging_cases (Aside files)
        (λ h. After (Safe files) (λ x. IsBegun files) (close_data_root_step h))
        (λ d s p. ((refl, p.0), p.1))

  -- The host once the directories are closed and an interrupted staging directory is deleted.
  pub Enters-Starts :
      (env : Environment) (attempt : Attempt)
      → Leads files
          (Enters attempt)
          (Starts attempt)
          (close_directories env >>> discard_interrupted env attempt)
  Enters-Starts env (continued r) =
      then-Leads files (Enters (continued r)) (IsBegun files) (IsBegun files)
        (close_directories env) (discard_interrupted env (continued r))
        (close_directories-Leads files (IsBeside files) (IsBegun files) env Beside-Safe
          close-Beside)
        (discard_nothing files env r)
  Enters-Starts env fresh =
      then-Leads files (IsConsoled files) (IsRooted files) (IsRooted files) (close_directories env)
        (discard_interrupted env fresh)
        (close_directories-Leads files (IsConsoled files) (IsRooted files) env (consoled-Safe files)
          (close_step files))
        (discard-Rooted files env fresh)
  Enters-Starts env interrupted =
      then-Leads files (IsConsoled files) (IsRooted files) (IsRooted files) (close_directories env)
        (discard_interrupted env interrupted)
        (close_directories-Leads files (IsConsoled files) (IsRooted files) env (consoled-Safe files)
          (close_step files))
        (discard-Rooted files env interrupted)

  pub Enters-Safe : (attempt : Attempt) (h : Host) → Enters attempt h → Safe files h
  Enters-Safe (continued r) h p = Beside-Safe h p
  Enters-Safe fresh h p = consoled-Safe files h p
  Enters-Safe interrupted h p = consoled-Safe files h p

  begin_staging-Recorded :
      (env : Environment) (attempt : Attempt) (r : Record)
      → Leads files (Starts attempt) (IsRecorded files) (begin_staging env attempt r)
  unfolding begin_staging
  begin_staging-Recorded env (continued old) r =
      point-Leads files (IsBegun files) (IsRecorded files) env write_record
        (write_staged_record r >>> clear_staged) (begun-Safe files)
        (then-Leads files (IsBegun files) (IsRecorded files) (IsRecorded files)
          (write_staged_record r) clear_staged (write_step files r) (clear_step files))
  begin_staging-Recorded env fresh r = begins files env r
  begin_staging-Recorded env interrupted r = begins files env r

  -- A staged object more.
  stage_step : (n : Text) → Leads files (IsRecorded files) (IsRecorded files) (stage_one n)
  unfolding stage_one
  stage_step n =
      AtStaging_cases (λ d s. Holds files d × (s.closed ≡ true) × IsSaved s × Unit)
        (λ h. After (Safe files) (λ x. IsRecorded files) (stage_one n h)) (λ d s p. p)

  stage_all-Recorded :
      (env : Environment) (names : Texts)
      → Leads files (IsRecorded files) (IsRecorded files) (stage_all env names)
  unfolding stage_all
  stage_all-Recorded env [] = λ h p. p
  stage_all-Recorded env (n ∷ names) =
      point-Leads files (IsRecorded files) (IsRecorded files) env (stage n)
        (stage_one n >>> stage_all env names) (recorded-Safe files)
        (then-Leads files (IsRecorded files) (IsRecorded files) (IsRecorded files) (stage_one n)
          (stage_all env names) (stage_step n) (stage_all-Recorded env names))

  check_step :
      (env : Environment) → Leads files (IsRecorded files) (IsReady files) (check_whole env)
  unfolding check_whole
  check_step env =
      AtStaging_cases (λ d s. Holds files d × (s.closed ≡ true) × IsSaved s × Unit)
        (λ h. After (Safe files) (λ x. IsReady files) (check_whole env h))
        (λ d s p. elim (Bool-cases (texts_eq s.names staged_names)) [
          | inl whole ↦ rw whole (p.0, p.1, p.2, texts_eq-eq s.names staged_names whole)
          | inr torn ↦ rw torn (p.0.1, p.1)
        ])

  check_staged-Ready :
      (env : Environment) → Leads files (IsRecorded files) (IsReady files) (check_staged env)
  unfolding check_staged
  check_staged-Ready env =
      point-Leads files (IsRecorded files) (IsReady files) env check_staged_point (check_whole env)
        (recorded-Safe files) (check_step env)

  pub record_and_stage-Ready :
      (env : Environment) (attempt : Attempt) (r : Record)
      → Leads files (Starts attempt) (IsReady files) (record_and_stage env attempt r)
  unfolding record_and_stage
  record_and_stage-Ready env attempt r =
      then-Leads files (Starts attempt) (IsRecorded files) (IsReady files)
        (begin_staging env attempt r) (stage_all env staged_names >>> check_staged env)
        (begin_staging-Recorded env attempt r)
        (then-Leads files (IsRecorded files) (IsRecorded files) (IsReady files)
          (stage_all env staged_names) (check_staged env) (stage_all-Recorded env staged_names)
          (check_staged-Ready env))

  pub ready-Safe : (h : Host) → IsReady files h → Safe files h
  ready-Safe h p = begun-Safe files h (Recorded-Begun files (λ s. s.names ≡ staged_names) h p)

  pub first_step :
      (env : Environment) → Leads files (IsReady files) (IsMoved files) (rename_data_root env)
  unfolding rename_data_root
  first_step env =
      AtStaging_cases
        (λ d s. Holds files d × (s.closed ≡ true) × IsSaved s × (s.names ≡ staged_names))
        (λ h. After (Safe files) (λ x. IsMoved files) (rename_data_root env h))
        (λ d s p. (p.0, (p.1, p.2, p.3)))

  -- A step between the renames: where it fails, the host is still between them.
  pub IsMoved-point :
      (Q : Host → Type 0) (env : Environment) (point : Point) (m : Step Injected Done)
      → ((h : Host) → IsMoved files h → After (IsMoved files) (λ d. Q) (m h))
      → (h : Host) → IsMoved files h
      → After (IsMoved files) (λ d. Q) ((at_point env point >>> m) h)
  IsMoved-point Q env point m step h p =
      After-continues (IsMoved files) (λ d. IsMoved files) (λ d. Q) (at_point env point h) (λ d. m)
        (at_point-After (IsMoved files) (λ d. IsMoved files) env point h p p) (λ d h' q. step h' q)

  pub staging_moves :
      (env : Environment) (h : Host)
      → IsMoved files h
      → After (IsMoved files) (λ d. IsComplete files) (rename_staging env h)
  unfolding rename_staging
  staging_moves env =
      Between_cases (Waits files)
        (λ h. After (IsMoved files) (λ x. IsComplete files) (rename_staging env h)) (λ s l p. p)

  pub legacy_moves :
      (env : Environment) (h : Host)
      → IsMoved files h
      → After (IsMoved files) (λ d. IsConsoled files) (rename_legacy env h)
  unfolding rename_legacy
  legacy_moves env =
      Between_cases (Waits files)
        (λ h. After (IsMoved files) (λ x. IsConsoled files) (rename_legacy env h))
        (λ s l p. (p.0.1, p.1.0))

  pub mark-IsMoved :
      (r : Record) (h : Host)
      → IsMoved files h
      → After (IsMoved files) (λ d. IsMoved files) (write_staged_record r h)
  unfolding write_staged_record
  mark-IsMoved r =
      Between_cases (Waits files)
        (λ h. After (IsMoved files) (λ x. IsMoved files) (write_staged_record r h))
        (λ s l p. (p.0, (p.1.0, (r, refl), p.1.2)))

  pub mark-IsConsoled :
      (r : Record) → Leads files (IsConsoled files) (IsConsoled files) (write_staged_record r)
  unfolding write_staged_record
  mark-IsConsoled r =
      AtRoot_cases (Console files)
        (λ h. After (Safe files) (λ x. IsConsoled files) (write_staged_record r h)) marks
    where
      marks : (d : Dir) (s : Option Dir) → Console files d s → (d.names ≡ files) × Closes (save r s)
      marks d none p = p
      marks d (some s) p = p

  pub Starts-Safe : (attempt : Attempt) (h : Host) → Starts attempt h → Safe files h
  Starts-Safe (continued r) h p = begun-Safe files h p
  Starts-Safe fresh h p = rooted-Safe files h p
  Starts-Safe interrupted h p = rooted-Safe files h p
