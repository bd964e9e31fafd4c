-- ===== src/Service/Migration/Starts.antt =====
-- agent/cg-agent/src/service/migration.rs: that a start, however it ends, leaves the host in a state
-- of a migration.
pub mod Commit
pub mod Routes
pub mod Branches
pub mod Settled
use cyber_guard_enterprise.Prelude.{
  ℕ, ◌≡◌, ◌≢◌, refl, sym, ap, subst, ◌∙◌, Bool, true, false, ◌&&◌, ◌||◌, List, [], ◌∷◌, ◌++◌,
  Option, none, some, Text, bytes, Bool-cases, Option-cases, inl, inr, arith, if◌then◌else◌,
}
use cyber_guard_enterprise.Prelude.Results.{Result, ok, err, Done, done, Result-cases}
use cyber_guard_enterprise.Config.{is_some}
use cyber_guard_enterprise.Service.Migration.Arguments.{Texts, Request}
use cyber_guard_enterprise.Service.Migration.Host.{
  Record, Point, first_rename, second_rename, record_reversal, rename_back, clear_reversal,
  complete_commit, Injected, fails, crash, Stop, crashed, check_staged_point, plain_start,
  console_layout, Dir, Host, Environment, Verified, Step, Prepared, committed_start, gives, stops,
  continues, renames, with_errors, ◌>>>◌, at_point, asks_for, identity_files, staged_names,
  any_name, is_console, counts, identity_line,
}
use cyber_guard_enterprise.Service.Migration.Route.Staging.{
  cut_in_place, close_directories, write_staged_record, is_whole, check_whole, check_staged,
  Attempt, fresh, interrupted, continued, record_and_stage, record_of,
}
use cyber_guard_enterprise.Service.Migration.Route.{
  lock_stop, take_lock, rename_data_root, rename_legacy, rename_staging, mark, reversed,
  renamed_back, reverse, marked, ends, second_done, second_step, commit, check_data_directories,
  discard_interrupted, stage_and_commit, verify_and_go_on, route,
}
use cyber_guard_enterprise.Service.Migration.Start.{
  saved_of, staged_record, data_root_record, check_recorded, plain, is_recorded, committed,
  beside_recorded, beside_read, beside_a_console_layout, completed, complete_commit_step,
  complete_or_reverse, match_recorded, between_recorded, between_read, between_the_renames,
  on_console, choose_route, prepare,
}
use cyber_guard_enterprise.Service.Migration.Phases.{
  host_of, Closes, Holds, IsSaved, IsStaged, Phase, Safe, IsRooted, IsReady, After, After-continues,
  After-renames, at_point-After, staged_is_no_console,
}
use cyber_guard_enterprise.Service.Migration.Safety.States.{
  IsConsoled, IsBegun, IsMoved, IsComplete, consoled-Safe, moved-Safe, complete-Safe, begun-Rooted,
  rooted-Consoled, IsBeside,
}
use cyber_guard_enterprise.Service.Migration.Safety.Directories.{
  Leads, then-Leads, at-Leads, point-Leads, errors-Leads, rooted-Safe,
}
use cyber_guard_enterprise.Service.Migration.Safety.{
  Starts, Enters, Enters-Starts, Enters-Safe, Starts-Safe, record_and_stage-Ready, ready-Safe,
  first_step, IsMoved-point, staging_moves, legacy_moves, mark-IsMoved, mark-IsConsoled,
}
use cyber_guard_enterprise.Service.Migration.Passes.{Left, Turn, after_prepare, starts}
use cyber_guard_enterprise.Service.Migration.Starts.Settled.{
  Kept, KeptEnds, prepare-Settled, after_prepare-Kept, pass-Kept,
}
use cyber_guard_enterprise.Service.Migration.Starts.Commit.{
  commit-After, ends-After, marked-Safe, renamed_back-Safe, reverse-Safe, reversed-Safe,
  second_done-After, second_step-After,
}
use cyber_guard_enterprise.Service.Migration.Starts.Routes.{
  Completes, directories_checked, route-Complete, stage_and_commit-Complete, then_ends,
  verify_and_go_on-Complete,
}
use cyber_guard_enterprise.Service.Migration.Starts.Branches.{
  Ends, Beside-Ends, beside_recorded-Ends, between-Ends, committed-Ends, complete_or_reverse-Ends,
  completed-Ends, Completes-end, idle_end, on_console-Ends, plain-Ends, whole-IsMoved,
}

module _ (files : Texts) where
  on_consoled :
      (env : Environment) (request : Option Request) (h : Host) (sees : Bool)
      → (sees ≡ true → IsBeside files h)
      → IsConsoled files h
      → After (Safe files) (Ends files) (choose_route env request true true sees false h)
  unfolding choose_route
  on_consoled env request h true b p = Beside-Ends files env request h (b refl) p
  on_consoled env request h false b p = on_console-Ends files env request h p

  on_moved :
      (env : Environment) (request : Option Request) (h : Host) (sees_staging sees_legacy : Bool)
      → IsMoved files h
      → After
          (Safe files)
          (Ends files)
          (choose_route env request false false sees_staging sees_legacy h)
  unfolding choose_route
  on_moved env request h true true p = between-Ends files env request h p
  on_moved env request h true false p = moved-Safe files h p
  on_moved env request h false true p = moved-Safe files h p
  on_moved env request h false false p = plain-Ends files env request h (moved-Safe files h p)

  on_complete :
      (env : Environment) (request : Option Request) (h : Host) (sees : Bool)
      → IsComplete files h
      → After (Safe files) (Ends files) (choose_route env request true false false sees h)
  unfolding choose_route
  on_complete env request h true p = committed-Ends files env request h p
  on_complete env request h false p = plain-Ends files env request h (complete-Safe files h p)

  on-Phase :
      any_name identity_files files ≡ true
      → (env : Environment) (request : Option Request) (d s l : Option Dir) → Phase files d s l
      → After (Safe files) (Ends files) (prepare env request (host_of d s l))
  unfolding prepare is_console
  on-Phase console env request (some d) none none p =
      subst
        (λ c.
          After (Safe files) (Ends files)
            (choose_route env request true c false false (host_of (some d) none none)))
        (sym (ap (any_name identity_files) p.0 ∙ console))
        (on_consoled env request (host_of (some d) none none) false (λ e. cc) p)
  on-Phase console env request (some d) (some s) none p =
      subst
        (λ c. After (Safe files) (Ends files) (
          choose_route env request true c (counts env.sees_staging (some s)) false
            (host_of (some d) (some s) none)))
        (sym (ap (any_name identity_files) p.0 ∙ console))
        (on_consoled env request (host_of (some d) (some s) none) (counts env.sees_staging (some s))
          (λ e. p) p)
  on-Phase console env request none (some s) (some l) p =
      on_moved env request (host_of none (some s) (some l)) (counts env.sees_staging (some s))
        (counts env.sees_legacy (some l)) p
  on-Phase console env request (some d) none (some l) p =
      subst
        (λ c. After (Safe files) (Ends files) (
          choose_route env request true c false (counts env.sees_legacy (some l))
            (host_of (some d) none (some l))))
        (sym (staged_is_no_console d p.1.2))
        (on_complete env request (host_of (some d) none (some l)) (counts env.sees_legacy (some l))
          p)
  on-Phase console env request none none l p = absurd p
  on-Phase console env request none (some s) none p = absurd p
  on-Phase console env request (some d) (some s) (some l) p = absurd p

-- Whether a pass over the old copies is among these starts, or was before.
abbrev pub some_pass : Bool → List Turn → Bool
some_pass passed [] = passed
some_pass passed (t ∷ more) = some_pass (passed || is_some t.pass) more

-- One start from a host that is kept.
prepare-Kept :
    (files : Texts) (passed : Bool) (env : Environment) (request : Option Request) (h : Host)
    → any_name identity_files files ≡ true
    → Kept passed files h
    → After (Kept passed files) (KeptEnds passed files) (prepare env request h)
prepare-Kept files passed env request h console (inr (e, p)) =
    prepare-Settled files passed env request h e p
prepare-Kept files passed env request h console (inl p) =
    by (prepare env request h) (on-Phase files console env request h.data_root h.staging h.legacy p)
  where
    by :
        (r : Result Stop Prepared × Host)
        → After (Safe files) (Ends files) r
        → After (Kept passed files) (KeptEnds passed files) r
    by (ok prepared, h) p = inl p
    by (err stop, h) p = inl p

turn-Kept :
    (files : Texts) (passed : Bool) (pass : Option Left) (r : Result Stop Prepared × Host)
    → After (Kept passed files) (KeptEnds passed files) r
    → Kept (passed || is_some pass) files (after_prepare pass r)
turn-Kept files true none r p = after_prepare-Kept files true r p
turn-Kept files false none r p = after_prepare-Kept files false r p
turn-Kept files true (some left) r p = pass-Kept files true left r p
turn-Kept files false (some left) r p = pass-Kept files false left r p

starts-Kept :
    (files : Texts) (more : List Turn) (passed : Bool) (h : Host)
    → any_name identity_files files ≡ true
    → Kept passed files h
    → Kept (some_pass passed more) files (starts more h)
unfolding starts
starts-Kept files [] passed h console p = p
starts-Kept files (t ∷ more) passed h console p =
    starts-Kept files more (passed || is_some t.pass)
      (after_prepare t.pass (prepare t.environment t.request h)) console
      (turn-Kept files passed t.pass (prepare t.environment t.request h)
        (prepare-Kept files passed t.environment t.request h console p))

-- From a host whose data root holds a console installation, perhaps with a staging directory beside
-- it, every sequence of starts, with whatever arguments, failures and crashes at any of their points,
-- and of passes over the old copies after those that go on as committed, leaves the host in one of the
-- three states of a migration, the files of the console installation whole in the data root or in the
-- legacy directory; or else a pass was made, and the data root is the staged tree, whole and with a
-- record that chooses to remove the old copies. A start that goes on as committed leaves the staged
-- tree, whole and with its record, as the data root.
pub prepare-Safe :
    (files : Texts) (more : List Turn) (env : Environment) (request : Option Request) (h : Host)
    → any_name identity_files files ≡ true
    → Safe files h
    → After
        (Kept (some_pass false more) files)
        (KeptEnds (some_pass false more) files)
        (prepare env request (starts more h))
prepare-Safe files more env request h console p =
    prepare-Kept files (some_pass false more) env request (starts more h) console
      (starts-Kept files more false h console (inl p))
