-- ===== src/Service/Status.antt =====
-- agent/cg-agent/src/service/windows.rs: the status that the service reports to the SCM.
-- An operation that takes the status's lock is one step, so that an interleaving of the service's
-- threads is a sequence of them. The handler's stop is a flag that takes no lock: it is a step of its
-- own, or falls within `running`. Within another step it does what it does before or after it.
pub mod Reports
pub mod Legal
pub mod Ends
pub mod Stops
mod Tests
use cyber_guard_enterprise.Service.Exit.{ServiceExit, specific_code as exit_code, with_log_failure}
use cyber_guard_enterprise.Prelude.{
  ℕ, ◌+◌, ◌-◌, ◌%◌, ◌^◌, Bool, true, false, ◌&&◌, ◌||◌, not, Text, List, [], ◌∷◌, Option, none,
  some, leb, ltb, if◌then◌else◌,
}

pub data State : Type 0 where
  service_start_pending service_running service_stop_pending service_stopped : State

-- `SERVICE_STATUS`.
pub record Report : Type 0 where
  pub current_state : State
  pub controls_accepted : ℕ
  pub win32_exit_code : ℕ
  pub service_specific_exit_code : ℕ
  pub check_point : ℕ
  pub wait_hint : ℕ

-- `Status`, with the reports made to the SCM, the newest first.
pub record Status : Type 0 where
  pub status : Report
  pub since : ℕ
  pub ticked : ℕ
  pub stop_requested : Bool
  pub reported : List Report

abbrev pub checkpoint_interval : ℕ
checkpoint_interval = 5000000000

abbrev pub wait_hint_ms : ℕ
wait_hint_ms = 15000

abbrev pub start_pending_cap : ℕ
start_pending_cap = 120000000000

abbrev pub stop_pending_cap : ℕ
stop_pending_cap = 75000000000

-- SERVICE_ACCEPT_STOP | SERVICE_ACCEPT_SHUTDOWN, and ERROR_SERVICE_SPECIFIC_ERROR.
abbrev pub accept_stop_shutdown : ℕ
accept_stop_shutdown = 5

abbrev pub service_specific_error : ℕ
service_specific_error = 1066

unfoldable pub new : ℕ → Status
new now = record {
  status = record {
    current_state = service_start_pending;
    controls_accepted = 0;
    win32_exit_code = 0;
    service_specific_exit_code = 0;
    check_point = 0;
    wait_hint = 0;
  };
  since = now;
  ticked = now;
  stop_requested = false;
  reported = [];
}

-- `report`, of a status that has been changed.
abbrev pub report : Report → Status → Status
report r s = record s { status = r; reported = r ∷ s.reported }

abbrev pub first_check_point : State → ℕ
first_check_point service_start_pending = 1
first_check_point service_stop_pending = 1
first_check_point service_running = 0
first_check_point service_stopped = 0

abbrev pub hint_of : State → ℕ
hint_of service_start_pending = wait_hint_ms
hint_of service_stop_pending = wait_hint_ms
hint_of service_running = 0
hint_of service_stopped = 0

unfoldable pub enter : State → ℕ → ℕ → Status → Status
enter state accepted now s =
    report
      (record s.status {
        current_state = state;
        controls_accepted = accepted;
        check_point = first_check_point state;
        wait_hint = hint_of state;
      })
      (record s { since = now; ticked = now })

unfoldable pub start_pending : ℕ → Status → Status
start_pending now s = enter service_start_pending 0 now s

abbrev pub is_start_pending : State → Bool
is_start_pending service_start_pending = true
is_start_pending service_running = false
is_start_pending service_stop_pending = false
is_start_pending service_stopped = false

abbrev pub is_running : State → Bool
is_running service_running = true
is_running service_start_pending = false
is_running service_stop_pending = false
is_running service_stopped = false

unfoldable pub progress : ℕ → Status → Status
progress now s = if is_start_pending s.status.current_state then record s { since = now } else s

unfoldable pub request_stop : Status → Status
request_stop s = record s { stop_requested = true }

-- `running`: whether it was reported, and the status. A stop may be asked for after the flag is read,
-- before the report: `stop_between` says whether one is.
unfoldable pub running : Bool → ℕ → Status → Bool × Status
running stop_between now s =
    let s' = if stop_between then record s { stop_requested = true } else s in
    if is_start_pending s.status.current_state && not s.stop_requested
    then (true, enter service_running accept_stop_shutdown now s')
    else (false, s')

abbrev pub win32_code : Option ℕ → ℕ
win32_code none = 0
win32_code (some code) = service_specific_error

abbrev pub specific_code : Option ℕ → ℕ
specific_code none = 0
specific_code (some code) = code

unfoldable pub stopped : ℕ → Option ℕ → Status → Status
stopped now specific s = enter service_stopped 0 now (record s {
  status = record s.status {
    win32_exit_code = win32_code specific;
    service_specific_exit_code = specific_code specific;
  };
})

-- The head of `tick_while_pending`'s loop, after which it waits.
unfoldable pub look : ℕ → Status → Status
look now s =
    if s.stop_requested
      && (is_start_pending s.status.current_state || is_running s.status.current_state)
    then enter service_stop_pending 0 now s
    else s

-- The clock is read for `ticked`, for `since` and for the new `ticked`.
unfoldable pub advance : ℕ → ℕ → ℕ → ℕ → Status → Status
advance cap now later set s =
    if leb checkpoint_interval (now - s.ticked) && ltb (later - s.since) cap
    then report (record s.status { check_point = (s.status.check_point + 1) % 2 ^ 32 })
        (record s { ticked = set })
    else s

-- The rest of the loop, after a wait.
unfoldable pub advance_pending : State → ℕ → ℕ → ℕ → Status → Status
advance_pending service_start_pending now later set s = advance start_pending_cap now later set s
advance_pending service_stop_pending now later set s = advance stop_pending_cap now later set s
advance_pending service_running now later set s = s
advance_pending service_stopped now later set s = s

-- The loop from a wait to the next one, its lock held.
unfoldable pub tick : ℕ → ℕ → ℕ → ℕ → Status → Status
tick now later set next s = look next (advance_pending s.status.current_state now later set s)

-- What the service's threads do between the start and the end of the service.
pub data Event : Type 0 where
  a_step looks : ℕ → Event
  runs : (stop_between : Bool) (now : ℕ) → Event
  ticks : (now later more next : ℕ) → Event
  a_stop : Event

unfoldable pub happens : Event → Status → Status
happens (a_step now) s = progress now s
happens (runs stop_between now) s = (running stop_between now s).1
happens (looks now) s = look now s
happens (ticks now later more next) s = tick now (now + later) (now + later + more) next s
happens a_stop s = request_stop s

unfoldable pub happen : List Event → Status → Status
happen [] s = s
happen (e ∷ events) s = happen events (happens e s)

-- `service_main`: the service starts, and reports its end once, when other threads may still run.
unfoldable pub life : ℕ → List Event → ℕ → ServiceExit → Option Text → List Event → Status
life started before ended exit log_failure after = happen after (
    stopped ended (exit_code (with_log_failure exit log_failure))
      (happen before (start_pending started (new started))))
