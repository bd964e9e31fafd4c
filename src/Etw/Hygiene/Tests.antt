-- ===== src/Etw/Hygiene/Tests.antt =====
-- Tests of the monitors, and the theorems about them at concrete inputs.
use cyber_guard_enterprise.Prelude.{ℕ, ◌+◌, ◌≡◌, refl, List, [], ◌∷◌, arith}
use cyber_guard_enterprise.Etw.Dispatch.{NetworkDiscards}
use cyber_guard_enterprise.Etw.Hygiene.{
  EventsLostMonitor, DiscardMonitor, increased, decreased, unchanged, observe_lost,
}
use cyber_guard_enterprise.Etw.Hygiene.Polls.{
  poll, gained, fallen, poll_balances, pass, pass_sums, last_count, last_total,
}

abbrev first_poll : EventsLostMonitor
first_poll = record { previous = 0 }

abbrev counts : List ℕ
counts = 0 ∷ 5 ∷ 3 ∷ 9 ∷ []

polled : (poll counts first_poll).0 ≡ unchanged ∷ increased 5 5 ∷ decreased 3 5 ∷ increased 9 6 ∷ []
unfolding poll observe_lost
polled = refl

poll_balances_example :
    0 + gained (poll counts first_poll).0 ≡ last_count 0 counts + fallen (poll counts first_poll).0
poll_balances_example = poll_balances counts first_poll

abbrev first_pass : DiscardMonitor
first_pass = record { previous = 0 }

abbrev passes : List NetworkDiscards
passes = record { total = 2; first = 1 } ∷ record { total = 7; first = 1 } ∷ []

pass_sums_example : (pass passes first_pass).0 + 0 ≡ last_total 0 passes
pass_sums_example = pass_sums passes first_pass (omega arith, (omega arith, tt))
