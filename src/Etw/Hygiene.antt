-- ===== src/Etw/Hygiene.antt =====
-- agent/cg-agent/src/etw/hygiene.rs: what a hygiene pass makes of the counters of lost events and of
-- discarded records. The thread that makes the passes is not modelled.
mod Polls
mod Tests
use cyber_guard_enterprise.Prelude.{ℕ, ◌-◌, Bool, ltb, if◌then◌else◌}
use cyber_guard_enterprise.Etw.Dispatch.{NetworkDiscards}

pub data LostObservation : Type 0 where
  unchanged : LostObservation
  increased : (sum delta : ℕ) → LostObservation
  decreased : (current previous : ℕ) → LostObservation

pub record EventsLostMonitor : Type 0 where
  pub previous : ℕ

-- `EventsLostMonitor::observe`.
unfoldable pub observe_lost : ℕ → EventsLostMonitor → LostObservation × EventsLostMonitor
observe_lost current m = (
  if ltb m.previous current
      then increased current (current - m.previous)
      else if ltb current m.previous
      then decreased current m.previous
      else unchanged,
  record { previous = current },
)

pub record DiscardMonitor : Type 0 where
  pub previous : ℕ

-- `DiscardMonitor::observe`.
unfoldable pub observe_discards : NetworkDiscards → DiscardMonitor → ℕ × DiscardMonitor
observe_discards discards m = (discards.total - m.previous, record { previous = discards.total })
