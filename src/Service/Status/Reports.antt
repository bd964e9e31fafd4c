-- ===== src/Service/Status/Reports.antt =====
-- agent/cg-agent/src/service/windows.rs: the reports that are legal, and the state of a service that has made them.
use cyber_guard_enterprise.Service.Exit.{ServiceExit, clean, failed, deadline_expired}
use cyber_guard_enterprise.Prelude.{
  ℕ, ◌+◌, ◌*◌, ◌%◌, ◌^◌, ◌≤◌, ◌<◌, ◌≡◌, refl, sym, ◌∙◌, subst, true, List, [], ◌∷◌, Option, none,
  some, arith, ◌⊎◌, Text,
}
use cyber_guard_enterprise.Service.Status.{
  State, service_start_pending, service_running, service_stop_pending, service_stopped, Report,
  Status, report, enter, start_pending, new, checkpoint_interval, accept_stop_shutdown,
  first_check_point, is_start_pending,
}

abbrev pub rank : State → ℕ
rank service_start_pending = 0
rank service_running = 1
rank service_stop_pending = 2
rank service_stopped = 3

-- A report as its state has it; only the last one carries an exit code.
abbrev pub IsFormed : State → Report → Type 0
IsFormed service_start_pending r =
    (r.controls_accepted ≡ 0)
    × (r.wait_hint ≡ 15000)
    × (r.win32_exit_code ≡ 0)
    × (r.service_specific_exit_code ≡ 0)
IsFormed service_running r =
    (r.controls_accepted ≡ accept_stop_shutdown)
    × (r.wait_hint ≡ 0)
    × (r.win32_exit_code ≡ 0)
    × (r.service_specific_exit_code ≡ 0)
IsFormed service_stop_pending r =
    (r.controls_accepted ≡ 0)
    × (r.wait_hint ≡ 15000)
    × (r.win32_exit_code ≡ 0)
    × (r.service_specific_exit_code ≡ 0)
    × (r.check_point ≤ 15)
IsFormed service_stopped r = (r.controls_accepted ≡ 0) × (r.wait_hint ≡ 0)

-- One report after another: the same pending state with the next checkpoint, or a later state with
-- its first.
abbrev pub Follows : Report → Report → Type 0
Follows r r' =
    ((r'.current_state ≡ r.current_state)
      × (first_check_point r.current_state ≡ 1)
      × (r'.check_point ≡ (r.check_point + 1) % 2 ^ 32))
    ⊎ ((rank r.current_state < rank r'.current_state)
        × (r'.check_point ≡ first_check_point r'.current_state))

-- The reports, the newest first: from the first START_PENDING on each follows the one before.
abbrev pub IsLegal : List Report → Type 0
IsLegal [] = ⊥
IsLegal (r ∷ []) =
    (r.current_state ≡ service_start_pending) × (r.check_point ≡ 1) × IsFormed r.current_state r
IsLegal (r' ∷ r ∷ reports) = Follows r r' × IsFormed r'.current_state r' × IsLegal (r ∷ reports)

-- A STOP_PENDING has gone on for its checkpoints.
abbrev pub IsTimed : State → Status → Type 0
IsTimed service_start_pending s = Unit
IsTimed service_running s = Unit
IsTimed service_stop_pending s =
    s.since + s.status.check_point * checkpoint_interval ≤ s.ticked + checkpoint_interval
IsTimed service_stopped s = Unit

pub record IsKept (s : Status) : Type 0 where
  pub older : List Report
  pub newest : s.reported ≡ s.status ∷ older
  pub legal : IsLegal (s.status ∷ older)
  pub timed : IsTimed s.status.current_state s

-- The codes that an end reports: none for a clean one whose log has not failed.
abbrev pub IsCause : ServiceExit → Option Text → Report → Type 0
IsCause (clean undelivered) none r = (r.win32_exit_code ≡ 0) × (r.service_specific_exit_code ≡ 0)
IsCause (clean undelivered) (some reason) r =
    (r.win32_exit_code ≡ 1066) × (r.service_specific_exit_code ≡ 13)
IsCause (failed code line) failure r =
    (r.win32_exit_code ≡ 1066) × (r.service_specific_exit_code ≡ code)
IsCause (deadline_expired pending undelivered) failure r =
    (r.win32_exit_code ≡ 1066) × (r.service_specific_exit_code ≡ 12)

abbrev pub EndsWith : ServiceExit → Option Text → List Report → Type 0
EndsWith exit failure [] = ⊥
EndsWith exit failure (r ∷ reports) =
    (r.current_state ≡ service_stopped) × (r.check_point ≡ 0) × IsCause exit failure r

pub start_pending_of : (st : State) → is_start_pending st ≡ true → st ≡ service_start_pending
start_pending_of service_start_pending e = refl
start_pending_of service_running e = cc
start_pending_of service_stop_pending e = cc
start_pending_of service_stopped e = cc

pub IsLegal-IsFormed :
    (r : Report) (older : List Report) → IsLegal (r ∷ older) → IsFormed r.current_state r
IsLegal-IsFormed r [] (_, _, formed) = formed
IsLegal-IsFormed r (r' ∷ older) (_, formed, _) = formed

exit_zero :
    (st : State) (r : Report)
    → rank st < 3
    → IsFormed st r
    → (r.win32_exit_code ≡ 0) × (r.service_specific_exit_code ≡ 0)
exit_zero service_start_pending r open_ (_, _, w, c) = (w, c)
exit_zero service_running r open_ (_, _, w, c) = (w, c)
exit_zero service_stop_pending r open_ (_, _, w, c, _) = (w, c)
exit_zero service_stopped r open_ formed = absurd (omega arith)

pub kept_zero :
    (s : Status)
    → rank s.status.current_state < 3
    → IsKept s
    → (s.status.win32_exit_code ≡ 0) × (s.status.service_specific_exit_code ≡ 0)
kept_zero s open_ k =
    exit_zero s.status.current_state s.status open_ (IsLegal-IsFormed s.status k.older k.legal)

pub report-IsKept :
    (r : Report) (old s : Status)
    → IsKept old
    → s.reported ≡ old.reported
    → Follows old.status r
    → IsFormed r.current_state r
    → IsTimed r.current_state (report r s)
    → IsKept (report r s)
report-IsKept r old s k same follows formed timed = record {
  older = s.reported;
  newest = refl;
  legal = subst (λ l. IsLegal (r ∷ l)) (sym (same ∙ k.newest)) (follows, formed, k.legal);
  timed = timed;
}

-- A service that has not ended.
abbrev pub IsOpen : Status → Type 0
IsOpen s = IsKept s × (rank s.status.current_state < 3)

pub start-IsOpen : (now : ℕ) → IsOpen (start_pending now (new now))
unfolding start_pending new enter
start-IsOpen now = (
  record { older = []; newest = refl; legal = (refl, refl, (refl, refl, refl, refl)); timed = tt },
  omega arith,
)
