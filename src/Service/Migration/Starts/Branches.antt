-- ===== src/Service/Migration/Starts/Branches.antt =====
-- agent/cg-agent/src/service/migration.rs: the branches of a start, by state.
use cyber_guard_enterprise.Prelude.{
  ◌≡◌, ◌≢◌, refl, Bool, true, false, Option, none, some, Text, bytes, Bool-cases, inl, inr,
}
use cyber_guard_enterprise.Prelude.Results.{Result, ok, err, Done}
use cyber_guard_enterprise.Service.Migration.Arguments.{Texts, Request}
use cyber_guard_enterprise.Service.Migration.Host.{
  Record, complete_commit, Injected, fails, crash, Stop, check_staged_point, plain_start,
  console_layout, Host, Environment, Prepared, committed_start, gives, continues, ◌>>>◌, at_point,
  asks_for,
}
use cyber_guard_enterprise.Service.Migration.Route.Staging.{
  is_whole, check_whole, check_staged, fresh, interrupted, continued,
}
use cyber_guard_enterprise.Service.Migration.Route.{
  take_lock, rename_staging, reverse, check_data_directories, route,
}
use cyber_guard_enterprise.Service.Migration.Start.{
  staged_record, data_root_record, check_recorded, plain, is_recorded, committed, beside_recorded,
  beside_read, beside_a_console_layout, completed, complete_commit_step, complete_or_reverse,
  match_recorded, between_recorded, between_read, between_the_renames, on_console,
}
use cyber_guard_enterprise.Service.Migration.Phases.{Safe, After, After-continues}
use cyber_guard_enterprise.Service.Migration.Safety.States.{
  IsConsoled, IsMoved, IsComplete, consoled-Safe, moved-Safe, complete-Safe, IsBeside,
}
use cyber_guard_enterprise.Service.Migration.Safety.{IsMoved-point, staging_moves}
use cyber_guard_enterprise.Service.Migration.Starts.Commit.{ends-After, reverse-Safe}
use cyber_guard_enterprise.Service.Migration.Starts.Routes.{
  Completes, directories_checked, route-Complete, then_ends,
}

module _ (files : Texts) where
  -- How a start goes on, with the host that it leaves.
  abbrev pub Ends : Prepared → Host → Type 0
  Ends prepared h = Safe files h × (prepared ≡ committed_start → IsComplete files h)

  pub Completes-end :
      (r : Result Stop Prepared × Host)
      → After (Safe files) (Completes files) r
      → After (Safe files) Ends r
  Completes-end (ok prepared, h) p = (complete-Safe files h p, λ e. p)
  Completes-end (err stop, h) p = p

  -- A start that changes nothing and does not go on after a commit.
  pub idle_end :
      (r : Result Stop Prepared) (h : Host)
      → (r ≢ ok committed_start)
      → Safe files h
      → After (Safe files) Ends (r, h)
  idle_end (ok plain_start) h other p = (p, λ e. cc)
  idle_end (ok console_layout) h other p = (p, λ e. cc)
  idle_end (ok committed_start) h other p = absurd (other refl)
  idle_end (err stop) h other p = p

  pub on_console-Ends :
      (env : Environment) (request : Option Request) (h : Host)
      → IsConsoled files h
      → After (Safe files) Ends (on_console env request h)
  unfolding on_console
  on_console-Ends env (some q) h p =
      Completes-end (route env q fresh h) (route-Complete files env q fresh h p)
  on_console-Ends env none h p =
      then_ends files (IsConsoled files) (IsConsoled files) Ends (check_data_directories env)
        (gives console_layout)
        (directories_checked files (IsConsoled files) env (consoled-Safe files))
        (λ h p. (consoled-Safe files h p, λ e. cc)) h p

  pub beside_recorded-Ends :
      (env : Environment) (r : Option Record) (request : Option Request) (h : Host)
      → IsBeside files h
      → IsConsoled files h
      → After (Safe files) Ends (beside_recorded env r request h)
  unfolding beside_recorded
  beside_recorded-Ends env (some r) (some q) h b p = elim (Bool-cases (asks_for r q)) [
    | inl asked ↦
        rw asked (
          Completes-end (route env q (continued r) h)
            (route-Complete files env q (continued r) h b))
    | inr other ↦ rw other (consoled-Safe files h p)
  ]
  beside_recorded-Ends env none (some q) h b p =
      Completes-end (route env q interrupted h) (route-Complete files env q interrupted h p)
  beside_recorded-Ends env (some r) none h b p = consoled-Safe files h p
  beside_recorded-Ends env none none h b p = consoled-Safe files h p

  pub Beside-Ends :
      (env : Environment) (request : Option Request) (h : Host)
      → IsBeside files h
      → IsConsoled files h
      → After (Safe files) Ends (beside_a_console_layout env request h)
  unfolding beside_a_console_layout beside_read
  Beside-Ends env request h b p = read (staged_record env h)
    where
      read :
          (r : Result Text (Option Record)) → After (Safe files) Ends (beside_read env request r h)
      read (ok r) = beside_recorded-Ends env r request h b p
      read (err reason) = consoled-Safe files h p

  pub completed-Ends :
      (env : Environment) (x : Result Injected Done × Host)
      → After (IsMoved files) (λ d. IsComplete files) x
      → After (Safe files) Ends (completed env x)
  unfolding completed
  completed-Ends env (ok d, h) p =
      Completes-end ((check_data_directories env >>> gives committed_start) h) (
        then_ends files (IsComplete files) (IsComplete files) (Completes files)
          (check_data_directories env) (gives committed_start)
          (directories_checked files (IsComplete files) env (complete-Safe files)) (λ h p. p) h p)
  completed-Ends env (err crash, h) p = moved-Safe files h p
  completed-Ends env (err (fails reason), h) p = moved-Safe files h p

  pub whole-IsMoved :
      (env : Environment) (h : Host)
      → IsMoved files h
      → After (IsMoved files) (λ d. IsMoved files) (check_staged env h)
  unfolding check_staged check_whole
  whole-IsMoved env h p =
      IsMoved-point files (IsMoved files) env check_staged_point (check_whole env)
        (λ h p. elim (Bool-cases (is_whole h.staging)) [
          | inl whole ↦ rw whole p
          | inr torn ↦ rw torn p
        ])
        h p

  pub complete_or_reverse-Ends :
      (env : Environment) (r : Record) (pending : Bool) (h : Host)
      → IsMoved files h
      → After (Safe files) Ends (complete_or_reverse env r pending h)
  unfolding complete_or_reverse complete_commit_step
  complete_or_reverse-Ends env r true h p =
      ends-After files {A = Prepared} Ends (reverse env r (bytes "a reversal was interrupted") h)
        (reverse-Safe files env r (bytes "a reversal was interrupted") h p)
  complete_or_reverse-Ends env r false h p = completed-Ends env (complete_commit_step env h) (
      After-continues (IsMoved files) (λ d. IsMoved files) (λ d. IsComplete files)
        (check_staged env h) (λ d. at_point env complete_commit >>> rename_staging env)
        (whole-IsMoved env h p)
        (λ d h' q.
          IsMoved-point files (IsComplete files) env complete_commit (rename_staging env)
            (staging_moves files env) h' q))

  pub between-Ends :
      (env : Environment) (request : Option Request) (h : Host)
      → IsMoved files h
      → After (Safe files) Ends (between_the_renames env request h)
  unfolding between_the_renames between_read between_recorded match_recorded take_lock
  between-Ends env request h p = read (staged_record env h)
    where
      locks :
          (r : Record) (l : Result Stop Done)
          → After
              (Safe files)
              Ends
              (continues (l, h) (λ d. complete_or_reverse env r r.reversal_pending))
      locks r (ok d) = complete_or_reverse-Ends env r r.reversal_pending h p
      locks r (err stop) = moved-Safe files h p

      matches :
          (r : Record) (m : Result Stop Done)
          → After (Safe files) Ends (
              continues
                (m, h)
                (λ d. take_lock env >>> complete_or_reverse env r r.reversal_pending))
      matches r (ok d) = locks r env.lock
      matches r (err stop) = moved-Safe files h p

      read :
          (r : Result Text (Option Record)) → After (Safe files) Ends (between_read env request r h)
      read (ok none) = moved-Safe files h p
      read (ok (some r)) = matches r (check_recorded request r)
      read (err reason) = moved-Safe files h p

  pub committed-Ends :
      (env : Environment) (request : Option Request) (h : Host)
      → IsComplete files h
      → After (Safe files) Ends (committed env request h)
  unfolding committed
  committed-Ends env request =
      then_ends files (IsComplete files) (IsComplete files) Ends (check_data_directories env) _
        (directories_checked files (IsComplete files) env (complete-Safe files))
        (λ h p. read h p (data_root_record env h))
    where
      ended :
          (h : Host)
          → IsComplete files h
          → (r : Result Stop Prepared) → After (Safe files) Ends (r, h)
      ended h p (ok prepared) = (complete-Safe files h p, λ e. p)
      ended h p (err stop) = complete-Safe files h p

      read :
          (h : Host)
          → IsComplete files h
          → (r : Result Stop (Option Record))
          → After (Safe files) Ends (continues (r, h) (λ r h. (is_recorded env request r, h)))
      read h p (ok r) = ended h p (is_recorded env request r)
      read h p (err stop) = complete-Safe files h p

  pub plain-Ends :
      (env : Environment) (request : Option Request) (h : Host)
      → Safe files h
      → After (Safe files) Ends (plain env request h)
  unfolding plain
  plain-Ends env (some q) h p = p
  plain-Ends env none h p =
      then_ends files (Safe files) (Safe files) Ends (check_data_directories env) _
        (directories_checked files (Safe files) env (λ h p. p))
        (λ h p. read h p (data_root_record env h)) h p
    where
      read :
          (h : Host)
          → Safe files h
          → (r : Result Stop (Option Record))
          → After (Safe files) Ends (continues (r, h) (λ r. gives plain_start))
      read h p (ok r) = (p, λ e. cc)
      read h p (err stop) = p
