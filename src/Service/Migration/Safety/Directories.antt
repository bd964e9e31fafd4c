-- ===== src/Service/Migration/Safety/Directories.antt =====
-- agent/cg-agent/src/service/migration.rs: the steps up to a fresh staging directory, by state.
use cyber_guard_enterprise.Prelude.{◌≡◌, true, refl, Option, none, some, Text}
use cyber_guard_enterprise.Prelude.Results.{Done, done}
use cyber_guard_enterprise.Service.Migration.Arguments.{Texts}
use cyber_guard_enterprise.Service.Migration.Host.{
  Record, Point, close_product_root, close_data_root, delete_interrupted_staging, create_staging,
  write_record, Injected, Dir, Host, Environment, Step, with_errors, gives, ◌>>>◌, at_point,
}
use cyber_guard_enterprise.Service.Migration.Route.Staging.{
  close_data_root_step, close_at, close_directories, remove_staging, delete_staging,
  create_staging_step, write_staged_record, clear_staged, Attempt, fresh, interrupted, continued,
}
use cyber_guard_enterprise.Service.Migration.Route.{discard_interrupted}
use cyber_guard_enterprise.Service.Migration.Phases.{
  host_of, AtRoot_cases, AtStaging_cases, IsSaved, Closes, Holds, Safe, IsRooted, IsRecorded, After,
  After-continues, After-renames, at_point-After,
}
use cyber_guard_enterprise.Service.Migration.Safety.States.{
  Begins, Console, IsBegun, IsConsoled, begun-Rooted, consoled-Safe, Recorded-Begun,
  rooted-Consoled,
}

module _ (files : Texts) where
  -- A step that takes hosts of one kind to hosts of another, or fails and leaves a safe one.
  abbrev pub Leads : {E : Type 0} → (Host → Type 0) → (Host → Type 0) → Step E Done → Type 0
  Leads P Q m = (h : Host) → P h → After (Safe files) (λ d. Q) (m h)

  pub then-Leads :
      {E : Type 0} (P Q R : Host → Type 0) (m k : Step E Done)
      → Leads P Q m
      → Leads Q R k
      → Leads P R (m >>> k)
  then-Leads P Q R m k first next h p =
      After-continues (Safe files) (λ d. Q) (λ d. R) (m h) (λ d. k) (first h p)
        (λ d h' q. next h' q)

  pub at-Leads :
      (P : Host → Type 0) (env : Environment) (point : Point)
      → ((h : Host) → P h → Safe files h)
      → Leads P P (at_point env point)
  at-Leads P env point safe h p = at_point-After (Safe files) (λ d. P) env point h (safe h p) p

  pub rooted-Safe : (h : Host) → IsRooted files h → Safe files h
  rooted-Safe h p = consoled-Safe files h (rooted-Consoled files h p)

  pub close_step : Leads (IsConsoled files) (IsRooted files) close_data_root_step
  unfolding close_data_root_step
  close_step =
      AtRoot_cases (Console files)
        (λ h. After (Safe files) (λ x. IsRooted files) (close_data_root_step h))
        (λ d s p. ((refl, p.0), p.1))

  pub errors-Leads :
      {E F : Type 0} (P Q : Host → Type 0) (f : E → F) (m : Step E Done)
      → Leads P Q m
      → Leads P Q (with_errors f m)
  errors-Leads P Q f m leads h p = After-renames (Safe files) (λ d. Q) f (m h) (leads h p)

  -- A step after its point.
  pub point-Leads :
      (P Q : Host → Type 0) (env : Environment) (point : Point) (m : Step Injected Done)
      → ((h : Host) → P h → Safe files h)
      → Leads P Q m
      → Leads P Q (at_point env point >>> m)
  point-Leads P Q env point m safe leads =
      then-Leads P P Q (at_point env point) m (at-Leads P env point safe) leads

  pub close_at-Leads :
      (P Q : Host → Type 0) (env : Environment) (path : Text) (point : Point)
      (m : Step Injected Done)
      → ((h : Host) → P h → Safe files h)
      → Leads P Q m
      → Leads P Q (close_at env path point m)
  unfolding close_at
  close_at-Leads P Q env path point m safe leads =
      errors-Leads P Q _ (at_point env point >>> m) (point-Leads P Q env point m safe leads)

  pub close_directories-Leads :
      (P Q : Host → Type 0) (env : Environment)
      → ((h : Host) → P h → Safe files h)
      → Leads P Q close_data_root_step
      → Leads P Q (close_directories env)
  unfolding close_directories
  close_directories-Leads P Q env safe step =
      then-Leads P P Q (close_at env env.product_root_path close_product_root (gives done))
        (close_at env env.data_root_path close_data_root close_data_root_step)
        (close_at-Leads P P env env.product_root_path close_product_root (gives done) safe
          (λ h p. p))
        (close_at-Leads P Q env env.data_root_path close_data_root close_data_root_step safe step)

  pub remove_step : Leads (IsRooted files) (IsRooted files) remove_staging
  unfolding remove_staging
  remove_step =
      AtRoot_cases (λ d s. Holds files d × Closes s)
        (λ h. After (Safe files) (λ x. IsRooted files) (remove_staging h)) (λ d s p. (p.0, tt))

  pub discard-Rooted :
      (env : Environment) (attempt : Attempt)
      → Leads (IsRooted files) (IsRooted files) (discard_interrupted env attempt)
  unfolding discard_interrupted delete_staging
  discard-Rooted env interrupted =
      errors-Leads (IsRooted files) (IsRooted files) _ (delete_staging env) (
        errors-Leads (IsRooted files) (IsRooted files) _
          (at_point env delete_interrupted_staging >>> remove_staging)
          (point-Leads (IsRooted files) (IsRooted files) env delete_interrupted_staging
            remove_staging rooted-Safe remove_step))
  discard-Rooted env fresh = λ h p. p
  discard-Rooted env (continued r) = λ h p. p

  pub discard_nothing :
      (env : Environment) (r : Record)
      → Leads (IsBegun files) (IsBegun files) (discard_interrupted env (continued r))
  unfolding discard_interrupted
  discard_nothing env r h p = p

  pub create_step :
      (env : Environment) → Leads (IsRooted files) (IsBegun files) (create_staging_step env)
  unfolding create_staging_step
  create_step env =
      AtRoot_cases (λ d s. Holds files d × Closes s)
        (λ h. After (Safe files) (λ x. IsBegun files) (create_staging_step env h)) created
    where
      created :
          (d : Dir) (s : Option Dir)
          → Holds files d × Closes s
          → After
              (Safe files)
              (λ x. IsBegun files)
              (create_staging_step env (host_of (some d) s none))
      created d none (holds, closes) = (holds, refl)
      created d (some s) (holds, closes) = (holds.1, closes)

  pub write_step : (r : Record) → Leads (IsBegun files) (IsRecorded files) (write_staged_record r)
  unfolding write_staged_record
  write_step r =
      AtStaging_cases (Begins files)
        (λ h. After (Safe files) (λ x. IsRecorded files) (write_staged_record r h))
        (λ d s p. (p.0, p.1, (r, refl), tt))

  pub clear_step : Leads (IsRecorded files) (IsRecorded files) clear_staged
  unfolding clear_staged
  clear_step =
      AtStaging_cases (λ d s. Holds files d × (s.closed ≡ true) × IsSaved s × Unit)
        (λ h. After (Safe files) (λ x. IsRecorded files) (clear_staged h)) (λ d s p. p)

  pub recorded-Safe : (h : Host) → IsRecorded files h → Safe files h
  recorded-Safe h p = rooted-Safe h (begun-Rooted files h (Recorded-Begun files (λ s. Unit) h p))

  pub begun-Safe : (h : Host) → IsBegun files h → Safe files h
  begun-Safe h p = rooted-Safe h (begun-Rooted files h p)

  pub begins :
      (env : Environment) (r : Record)
      → Leads (IsRooted files) (IsRecorded files) (
          at_point env create_staging
          >>> (create_staging_step env >>> (at_point env write_record >>> write_staged_record r)))
  begins env r =
      point-Leads (IsRooted files) (IsRecorded files) env create_staging
        (create_staging_step env >>> (at_point env write_record >>> write_staged_record r))
        rooted-Safe
        (then-Leads (IsRooted files) (IsBegun files) (IsRecorded files) (create_staging_step env)
          (at_point env write_record >>> write_staged_record r) (create_step env)
          (point-Leads (IsBegun files) (IsRecorded files) env write_record (write_staged_record r)
            begun-Safe (write_step r)))
