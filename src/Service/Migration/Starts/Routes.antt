-- ===== src/Service/Migration/Starts/Routes.antt =====
-- agent/cg-agent/src/service/migration.rs: a whole route, by state.
use cyber_guard_enterprise.Prelude.{Option, none, some}
use cyber_guard_enterprise.Prelude.Results.{Result, ok, err, Done, done}
use cyber_guard_enterprise.Service.Migration.Arguments.{Texts, Request}
use cyber_guard_enterprise.Service.Migration.Host.{
  Stop, Host, Environment, Verified, Step, Prepared, committed_start, gives, continues, with_errors,
  ◌>>>◌, identity_line,
}
use cyber_guard_enterprise.Service.Migration.Route.Staging.{
  cut_in_place, close_directories, Attempt, record_and_stage, record_of,
}
use cyber_guard_enterprise.Service.Migration.Route.{
  lock_stop, take_lock, commit, check_data_directories, discard_interrupted, stage_and_commit,
  verify_and_go_on, route,
}
use cyber_guard_enterprise.Service.Migration.Phases.{Safe, IsReady, After, After-continues}
use cyber_guard_enterprise.Service.Migration.Safety.States.{IsComplete, complete-Safe}
use cyber_guard_enterprise.Service.Migration.Safety.Directories.{Leads, errors-Leads}
use cyber_guard_enterprise.Service.Migration.Safety.{
  Starts, Enters, Enters-Starts, Enters-Safe, Starts-Safe, record_and_stage-Ready,
}
use cyber_guard_enterprise.Service.Migration.Starts.Commit.{commit-After}

module _ (files : Texts) where
  -- A step with a result, after one without.
  pub then_ends :
      (P Q : Host → Type 0) (R : Prepared → Host → Type 0) (m : Step Stop Done)
      (k : Step Stop Prepared)
      → Leads files P Q m
      → ((h : Host) → Q h → After (Safe files) R (k h))
      → (h : Host) → P h
      → After (Safe files) R ((m >>> k) h)
  then_ends P Q R m k first next h p =
      After-continues (Safe files) (λ d. Q) R (m h) (λ d. k) (first h p) (λ d h' q. next h' q)

  pub directories_checked :
      (P : Host → Type 0) (env : Environment)
      → ((h : Host) → P h → Safe files h)
      → Leads files P P (check_data_directories env)
  unfolding check_data_directories
  directories_checked P env safe h p = checked env.directories_refused
    where
      checked :
          (o : Option Stop)
          → After {E = Stop}
              (Safe files)
              (λ d. P)
              (elim o as (λ o. Result Stop Done × Host) [
                | none ↦ (ok done, h)
                | some stop ↦ (err stop, h)
              ])
      checked none = p
      checked (some stop) = safe h p

  abbrev pub Completes : Prepared → Host → Type 0
  Completes prepared h = IsComplete files h

  pub stage_and_commit-Complete :
      (env : Environment) (request : Request) (attempt : Attempt) (verified : Verified) (h : Host)
      → Starts files attempt h
      → After (Safe files) Completes (stage_and_commit env request attempt verified h)
  unfolding stage_and_commit
  stage_and_commit-Complete env request attempt verified =
      let r = record_of request attempt verified in
      let staging =
        with_errors (cut_in_place env 5 identity_line) (record_and_stage env attempt r) in
      then_ends (Starts files attempt) (IsReady files) Completes staging _
        (errors-Leads files (Starts files attempt) (IsReady files)
          (cut_in_place env 5 identity_line) (record_and_stage env attempt r)
          (record_and_stage-Ready files env attempt r))
        (then_ends (IsReady files) (IsComplete files) Completes (commit env r) _
          (commit-After files env r)
          (then_ends (IsComplete files) (IsComplete files) Completes (check_data_directories env)
            (gives committed_start)
            (directories_checked (IsComplete files) env (complete-Safe files)) (λ h p. p)))

  pub verify_and_go_on-Complete :
      (env : Environment) (request : Request) (attempt : Attempt) (h : Host)
      → Starts files attempt h
      → After (Safe files) Completes (verify_and_go_on env request attempt h)
  unfolding verify_and_go_on
  verify_and_go_on-Complete env request attempt h p = verified (env.verifies h)
    where
      verified :
          (v : Result Stop Verified)
          → After (Safe files) Completes (continues (v, h) (stage_and_commit env request attempt))
      verified (ok v) = stage_and_commit-Complete env request attempt v h p
      verified (err stop) = Starts-Safe files attempt h p

  pub route-Complete :
      (env : Environment) (request : Request) (attempt : Attempt) (h : Host)
      → Enters files attempt h
      → After (Safe files) Completes (route env request attempt h)
  unfolding route take_lock
  route-Complete env request attempt =
      then_ends (Enters files attempt) (Enters files attempt) Completes
        (with_errors (lock_stop env) (take_lock env)) _
        (errors-Leads files (Enters files attempt) (Enters files attempt) (lock_stop env)
          (take_lock env) (λ h p. locked attempt h p env.lock))
        (then_ends (Enters files attempt) (Starts files attempt) Completes
          (close_directories env >>> discard_interrupted env attempt)
          (verify_and_go_on env request attempt) (Enters-Starts files env attempt)
          (verify_and_go_on-Complete env request attempt))
    where
      locked :
          (attempt : Attempt) (h : Host)
          → Enters files attempt h
          → (r : Result Stop Done) → After (Safe files) (λ d. Enters files attempt) (r, h)
      locked attempt h p (ok d) = p
      locked attempt h p (err stop) = Enters-Safe files attempt h p
