-- ===== src/Etw/Ring/Tests.antt =====
-- Tests of the ring, and the theorems about it at concrete inputs.
use cyber_guard_enterprise.Prelude.{
  ℕ, ◌*◌, ◌%◌, ◌+◌, ◌^◌, ◌≡◌, refl, List, [], ◌∷◌, ◌++◌, none, some, arith, bytes, length,
}
use cyber_guard_enterprise.Etw.Types.{CapturedEvent, RingEvent, process, launch}
use cyber_guard_enterprise.Etw.Ring.{
  drain_up_to, add_dropped, EventRing, no_warning, new, enqueue_or_drop, snapshot_events, interval,
  check,
}
use cyber_guard_enterprise.Etw.Ring.Fifo.{run_conserves}
use cyber_guard_enterprise.Etw.Ring.Valid.{
  Op, enqueue, drain, add, run, accepted, added, Merges, IsValid, run-IsValid,
}
use cyber_guard_enterprise.Etw.Ring.Warning.{warnings, Spaced, warnings-Spaced}

abbrev started : ℕ → CapturedEvent
started pid = record {
  pid = pid;
  event_id = bytes "id";
  activity_id = launch;
  image_file_name = bytes "cmd.exe";
  parent_pid = 4;
  command_line = bytes "";
  subject_user_sid = bytes "S-1-5-18";
  etw_timestamp_nanos = 100;
  created_time_nanos = some 100;
  exit_status = none;
}

abbrev unnamed : CapturedEvent
unnamed = record (started 9) { image_file_name = [] }

abbrev script : List Op
script =
    enqueue (process (started 1)) 10
    ∷ enqueue (process unnamed) 11
    ∷ enqueue (process (started 2)) 12
    ∷ enqueue (process (started 3)) 13
    ∷ drain 1
    ∷ add 5
    ∷ []

abbrev small : EventRing
small = record { capacity = 2; events = []; dropped_total = 0 }

small-IsValid : IsValid small
small-IsValid = omega arith

run-script : run script (new 2) ≡ (
  process (started 2) ∷ [],
  record { capacity = 2; events = (13, process (started 3)) ∷ []; dropped_total = 6 },
)
unfolding run new enqueue_or_drop drain_up_to add_dropped
run-script = refl

run-IsValid_example : IsValid (run script small).1
run-IsValid_example = run-IsValid script small-IsValid

run_conserves_example :
    let (drained, final) = run script small in
    (lost : List RingEvent) × Merges
      (drained ++ snapshot_events final)
      lost
      (snapshot_events small ++ accepted script)
    × (final.dropped_total ≡ (0 + length lost + added script) % 2 ^ 64)
run_conserves_example = run_conserves script small-IsValid

abbrev overflowed : ℕ → EventRing
overflowed n = record small { dropped_total = n }

abbrev checks : List (EventRing × ℕ)
checks =
    (overflowed 1, 5)
    ∷ (overflowed 2, 6)
    ∷ (overflowed 3, 70 * 10 ^ 9)
    ∷ (overflowed 3, 170 * 10 ^ 9)
    ∷ []

warns_twice : warnings no_warning checks ≡ 5 ∷ (70 * 10 ^ 9) ∷ []
unfolding warnings check
warns_twice = refl

warnings-Spaced_example : Spaced interval none (warnings no_warning checks)
warnings-Spaced_example = warnings-Spaced no_warning checks
