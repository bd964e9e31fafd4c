-- ===== src/Delivery/Run.antt =====
-- agent/cg-agent/src/delivery.rs: runs of the loop as successive rounds, what they captured and
-- what they attempted.
use cyber_guard_enterprise.Prelude.{
  ℕ, ◌+◌, List, [], ◌∷◌, ◌++◌, Option, none, some, length, if◌then◌else◌,
}
use cyber_guard_enterprise.Etw.Types.{RingEvent}
use cyber_guard_enterprise.Etw.Ring.{is_unnamed}
use cyber_guard_enterprise.Delivery.Batches.{Batch, Pending, Response, classify}
use cyber_guard_enterprise.Delivery.{
  Loop, Round, Flow, goes_on, returns, fails, prepare, capture_into, round, is_delivered,
}

pub record Trace : Type 0 where
  pub captured : List (RingEvent × ℕ)
  pub attempts : List (Batch × Response)

-- The attempt of a round that is answered: none when nothing is in flight, or at a shutdown.
abbrev pub attempted : Option Pending → Option Response → List (Batch × Response)
attempted none response = []
attempted (some pending) none = []
attempted (some pending) (some response) = (pending.batch, response) ∷ []

abbrev pub round_trace : Round → Loop → Trace
round_trace r l = record {
  captured = r.captured;
  attempts = attempted (prepare r.now (capture_into r.captured l)).in_flight r.response;
}

abbrev pub followed_by : Trace → Trace → Trace
followed_by s t = record {
  captured = s.captured ++ t.captured;
  attempts = s.attempts ++ t.attempts;
}

-- After a round that goes on, the rest of the run; after any other, nothing.
abbrev pub and_then : Trace → Flow → (Loop → Trace × Flow) → Trace × Flow
and_then t (goes_on l) rest = let (t', flow) = rest l in (followed_by t t', flow)
and_then t (returns l) rest = (t, returns l)
and_then t (fails l) rest = (t, fails l)

unfoldable pub run : List Round → Loop → Trace × Flow
run [] l = (record { captured = []; attempts = [] }, goes_on l)
run (r ∷ rounds) l = and_then (round_trace r l) (round r l) (run rounds)

abbrev pub ending : Flow → Loop
ending (goes_on l) = l
ending (returns l) = l
ending (fails l) = l

-- The events of the attempts that the server acknowledged.
unfoldable pub delivered_count : List (Batch × Response) → ℕ
delivered_count [] = 0
delivered_count ((batch, response) ∷ attempts) =
    (if is_delivered (classify response) then length batch.events else 0) + delivered_count attempts

-- The events that the ring takes: all but the process events without an image name.
unfoldable pub accepted_count : List (RingEvent × ℕ) → ℕ
accepted_count [] = 0
accepted_count ((event, at) ∷ events) = (if is_unnamed event then 0 else 1) + accepted_count events
