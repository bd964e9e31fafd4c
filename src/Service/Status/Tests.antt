-- ===== src/Service/Status/Tests.antt =====
-- agent/cg-agent/src/service/windows.rs: the service's status at concrete events.
use cyber_guard_enterprise.Prelude.Print.{to_decimal}
use cyber_guard_enterprise.Service.Exit.{clean, failed, with_log_failure, entry}
use cyber_guard_enterprise.Prelude.{
  false, ℕ, ◌*◌, ◌≤◌, ◌≡◌, refl, List, [], ◌∷◌, map, some, none, bytes, true,
}
use cyber_guard_enterprise.Service.Status.{
  Status, happens, State, service_start_pending, service_running, service_stop_pending,
  service_stopped, Report, Event, a_step, runs, looks, ticks, a_stop, happens, happen, life, new,
  enter, start_pending, progress, running, stopped, look, advance, advance_pending, tick,
  request_stop,
}
use cyber_guard_enterprise.Service.Status.Reports.{rank, IsLegal, EndsWith}
use cyber_guard_enterprise.Service.Status.Ends.{life-IsLegal}
use cyber_guard_enterprise.Service.Status.Stops.{IsQuiet, asked-IsQuiet}

abbrev second : ℕ
second = 1000000000

-- A start with a checkpoint, a run, a stop, and two waits of which the second is too late.
abbrev events : List Event
events =
    a_step (3 * second)
    ∷ ticks (6 * second) 1 1 (6 * second)
    ∷ runs false (7 * second)
    ∷ a_stop
    ∷ looks (10 * second)
    ∷ ticks (16 * second) 1 1 (16 * second)
    ∷ ticks (90 * second) 1 1 (90 * second)
    ∷ []

abbrev states : List Report → List (State × ℕ)
states l = map (λ (r : Report). (r.current_state, r.check_point)) l

reports_in_order :
    states
      (life second events
        (91 * second)
        (clean 4)
        (some (bytes "full"))
        (runs false (92 * second) ∷ [])).reported
    ≡ (service_stopped, 0)
      ∷ (service_stop_pending, 2)
      ∷ (service_stop_pending, 1)
      ∷ (service_running, 0)
      ∷ (service_start_pending, 2)
      ∷ (service_start_pending, 1)
      ∷ []
unfolding life new enter start_pending with_log_failure happen happens progress running stopped look
    advance advance_pending tick request_stop
reports_in_order = refl

stopped_early :
    states
      (life second (a_stop ∷ runs false (2 * second) ∷ []) (3 * second) (clean 0) none []).reported
    ≡ (service_stopped, 0) ∷ (service_start_pending, 1) ∷ []
unfolding life new enter start_pending with_log_failure happen happens progress running stopped look
    advance advance_pending tick request_stop
stopped_early = refl

life-IsLegal_example :
    IsLegal
      (life second events
        (91 * second)
        (clean 4)
        (some (bytes "full"))
        (runs false (92 * second) ∷ [])).reported
    × EndsWith
        (clean 4)
        (some (bytes "full"))
        (life second events
          (91 * second)
          (clean 4)
          (some (bytes "full"))
          (runs false (92 * second) ∷ [])).reported
life-IsLegal_example =
    life-IsLegal second events (91 * second) (clean 4) (some (bytes "full"))
      (runs false (92 * second) ∷ [])

-- A stop within `running`, after the flag was read: RUNNING is reported, and the stop follows.
stopped_within :
    states
      (life second
        (runs true (2 * second) ∷ looks (3 * second) ∷ [])
        (4 * second)
        (clean 0)
        none
        []).reported
    ≡ (service_stopped, 0)
      ∷ (service_stop_pending, 1)
      ∷ (service_running, 0)
      ∷ (service_start_pending, 1)
      ∷ []
unfolding life new enter start_pending with_log_failure happen happens progress running stopped look
    advance advance_pending tick request_stop
stopped_within = refl

abbrev started : Status
started = start_pending second (new second)

abbrev raced : Event
raced = runs true (2 * second)

asked-IsQuiet_example :
    IsQuiet (happens raced started) (happen (runs false (3 * second) ∷ []) (happens raced started))
    × (2
        ≤ rank
            (look
              (4 * second)
              (happen (runs false (3 * second) ∷ []) (happens raced started))).status.current_state)
asked-IsQuiet_example = asked-IsQuiet raced (runs false (3 * second) ∷ []) (4 * second) started refl

failure_entry :
    entry (with_log_failure (failed 6 (bytes "no anchor")) (some (bytes "full"))) ≡ record {
      id = 1002;
      error = true;
      text = bytes "cg-agent: the service stopped with code 6: no anchor";
    }
unfolding entry with_log_failure to_decimal
failure_entry = refl
