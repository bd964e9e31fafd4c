-- ===== src/Service/Migration/Starts/Commit.antt =====
-- agent/cg-agent/src/service/migration.rs: the commit and its reversal, by state.
use cyber_guard_enterprise.Prelude.{map, true, false, Text}
use cyber_guard_enterprise.Prelude.Results.{map_err, Result, ok, err, Done}
use cyber_guard_enterprise.Service.Migration.Arguments.{Texts}
use cyber_guard_enterprise.Service.Migration.Entries.{check_names_again}
use cyber_guard_enterprise.Service.Migration.Host.{
  paths_of, Record, first_rename, second_rename, record_reversal, rename_back, clear_reversal,
  Injected, fails, crash, Stop, Host, Environment, with_errors, ◌>>>◌, at_point, identity_line,
}
use cyber_guard_enterprise.Service.Migration.Route.Staging.{cut_in_place, write_staged_record}
use cyber_guard_enterprise.Service.Migration.Route.{
  check_again, rename_data_root, rename_legacy, rename_staging, mark, reversed, renamed_back,
  reverse, marked, ends, second_done, second_step, commit,
}
use cyber_guard_enterprise.Service.Migration.Phases.{Safe, IsReady, After}
use cyber_guard_enterprise.Service.Migration.Safety.States.{
  IsConsoled, IsMoved, IsComplete, consoled-Safe, moved-Safe,
}
use cyber_guard_enterprise.Service.Migration.Safety.Directories.{
  Leads, then-Leads, point-Leads, errors-Leads,
}
use cyber_guard_enterprise.Service.Migration.Safety.{
  ready-Safe, first_step, IsMoved-point, staging_moves, legacy_moves, mark-IsMoved, mark-IsConsoled,
}

module _ (files : Texts) where
  pub reversed-Safe :
      (env : Environment) (cause : Text) (x : Result Injected Done × Host)
      → After (Safe files) (λ d. IsConsoled files) x
      → Safe files (reversed env cause x).1
  unfolding reversed
  reversed-Safe env cause (err crash, h) p = p
  reversed-Safe env cause (err (fails reason), h) p = p
  reversed-Safe env cause (ok d, h) p = consoled-Safe files h p

  pub renamed_back-Safe :
      (env : Environment) (r : Record) (cause : Text) (x : Result Injected Done × Host)
      → After (IsMoved files) (λ d. IsConsoled files) x
      → Safe files (renamed_back env r cause x).1
  unfolding renamed_back
  renamed_back-Safe env r cause (ok d, h) p =
      reversed-Safe env cause
        ((at_point env clear_reversal >>> write_staged_record (mark false r)) h)
        (point-Leads files (IsConsoled files) (IsConsoled files) env clear_reversal
          (write_staged_record (mark false r)) (consoled-Safe files)
          (mark-IsConsoled files (mark false r)) h p)
  renamed_back-Safe env r cause (err crash, h) p = moved-Safe files h p
  renamed_back-Safe env r cause (err (fails reason), h) p = moved-Safe files h p

  pub reverse-Safe :
      (env : Environment) (r : Record) (cause : Text) (h : Host)
      → IsMoved files h
      → Safe files (reverse env r cause h).1
  unfolding reverse
  reverse-Safe env r cause h p =
      renamed_back-Safe env r cause ((at_point env rename_back >>> rename_legacy env) h) (
        IsMoved-point files (IsConsoled files) env rename_back (rename_legacy env)
          (legacy_moves files env) h p)

  pub marked-Safe :
      (env : Environment) (r : Record) (cause : Text) (x : Result Injected Done × Host)
      → After (IsMoved files) (λ d. IsMoved files) x
      → Safe files (marked env r cause x).1
  unfolding marked
  marked-Safe env r cause (ok d, h) p = reverse-Safe env r _ h p
  marked-Safe env r cause (err crash, h) p = moved-Safe files h p
  marked-Safe env r cause (err (fails reason), h) p = moved-Safe files h p

  pub ends-After :
      {A : Type 0} (Q : A → Host → Type 0) (x : Stop × Host)
      → Safe files x.1
      → After (Safe files) Q (ends x)
  ends-After Q (stop, h) p = p

  pub second_done-After :
      (env : Environment) (r : Record) (x : Result Injected Done × Host)
      → After (IsMoved files) (λ d. IsComplete files) x
      → After (Safe files) (λ d. IsComplete files) (second_done env r x)
  unfolding second_done
  second_done-After env r (ok d, h) p = p
  second_done-After env r (err crash, h) p = moved-Safe files h p
  second_done-After env r (err (fails cause), h) p =
      ends-After {A = Done} (λ d. IsComplete files)
        (marked env (mark true r) cause
          ((at_point env record_reversal >>> write_staged_record (mark true r)) h))
        (marked-Safe env (mark true r) cause
          ((at_point env record_reversal >>> write_staged_record (mark true r)) h)
          (IsMoved-point files (IsMoved files) env record_reversal
            (write_staged_record (mark true r)) (mark-IsMoved files (mark true r)) h p))

  pub second_step-After :
      (env : Environment) (r : Record)
      → Leads files (IsMoved files) (IsComplete files) (second_step env r)
  unfolding second_step
  second_step-After env r h p =
      second_done-After env r ((at_point env second_rename >>> rename_staging env) h) (
        IsMoved-point files (IsComplete files) env second_rename (rename_staging env)
          (staging_moves files env) h p)

  check_again-Ready :
      (env : Environment) (r : Record)
      → Leads files (IsReady files) (IsReady files) (check_again env r)
  unfolding check_again
  check_again-Ready env r h p = answered (
      check_names_again (paths_of env) env.root_entries env.data_root_entries
        (map (λ file. file.0) r.files))
    where
      answered :
          (found : Result Text Done)
          → After (Safe files) (λ d. IsReady files) (map_err fails found, h)
      answered (ok d) = p
      answered (err reason) = ready-Safe files h p

  pub commit-After :
      (env : Environment) (r : Record)
      → Leads files (IsReady files) (IsComplete files) (commit env r)
  unfolding commit
  commit-After env r =
      then-Leads files (IsReady files) (IsMoved files) (IsComplete files)
        (with_errors (cut_in_place env 5 identity_line)
          (at_point env first_rename >>> (check_again env r >>> rename_data_root env)))
        (second_step env r)
        (errors-Leads files (IsReady files) (IsMoved files) (cut_in_place env 5 identity_line)
          (at_point env first_rename >>> (check_again env r >>> rename_data_root env))
          (point-Leads files (IsReady files) (IsMoved files) env first_rename
            (check_again env r >>> rename_data_root env) (ready-Safe files)
            (then-Leads files (IsReady files) (IsReady files) (IsMoved files) (check_again env r)
              (rename_data_root env) (check_again-Ready env r) (first_step files env))))
        (second_step-After env r)
