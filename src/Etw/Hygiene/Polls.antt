-- ===== src/Etw/Hygiene/Polls.antt =====
-- agent/cg-agent/src/etw/hygiene.rs: the monitors over a sequence of passes.
use cyber_guard_enterprise.Prelude.{
  ℕ, ◌+◌, ◌-◌, ◌≤◌, ◌≡◌, List, [], ◌∷◌, arith, ltb, inl, inr, Bool-cases,
}
use cyber_guard_enterprise.Etw.Dispatch.{NetworkDiscards}
use cyber_guard_enterprise.Etw.Hygiene.{
  LostObservation, EventsLostMonitor, DiscardMonitor, unchanged, increased, decreased, observe_lost,
  observe_discards,
}

-- The observations of a sequence of polls, and the monitor after them.
unfoldable pub poll : List ℕ → EventsLostMonitor → List LostObservation × EventsLostMonitor
poll [] m = ([], m)
poll (current ∷ counts) m =
    let (seen, m') = observe_lost current m in
    let (later, final) = poll counts m' in (seen ∷ later, final)

-- The events that the observations report as lost.
unfoldable pub gained : List LostObservation → ℕ
gained [] = 0
gained (unchanged ∷ seen) = gained seen
gained (increased sum delta ∷ seen) = delta + gained seen
gained (decreased current previous ∷ seen) = gained seen

-- What the observed decreases come to.
unfoldable pub fallen : List LostObservation → ℕ
fallen [] = 0
fallen (unchanged ∷ seen) = fallen seen
fallen (increased sum delta ∷ seen) = fallen seen
fallen (decreased current previous ∷ seen) = (previous - current) + fallen seen

-- The last of these readings, after one.
unfoldable pub last_count : ℕ → List ℕ → ℕ
last_count first [] = first
last_count first (current ∷ counts) = last_count current counts

-- Whatever the counter of lost events reads, the reading before the polls and the increases that they
-- report come to the last reading and the decreases that they report.
pub poll_balances :
    (counts : List ℕ) (m : EventsLostMonitor)
    → m.previous + gained (poll counts m).0
      ≡ last_count m.previous counts + fallen (poll counts m).0
unfolding poll observe_lost gained fallen last_count
poll_balances [] m = omega arith
poll_balances (current ∷ counts) m =
    let h = poll_balances counts (record { previous = current }) in
    elim (Bool-cases (ltb m.previous current)) [
      | inl up ↦ rw up (ground (arith, h, up))
      | inr not_up ↦ elim (Bool-cases (ltb current m.previous)) [
        | inl down ↦ rw (not_up, down) (ground (arith, h, down))
        | inr same ↦ rw (not_up, same) (ground (arith, h, not_up, same))
      ]
    ]

-- Totals that never fall, from a first one on.
abbrev pub Rising : ℕ → List NetworkDiscards → Type 0
Rising n [] = Unit
Rising n (d ∷ ds) = (n ≤ d.total) × Rising d.total ds

-- The increases that a sequence of passes returns, added up, and the monitor after them.
unfoldable pub pass : List NetworkDiscards → DiscardMonitor → ℕ × DiscardMonitor
pass [] m = (0, m)
pass (d ∷ ds) m =
    let (delta, m') = observe_discards d m in
    let (rest, final) = pass ds m' in (delta + rest, final)

-- The last of these totals, after one.
unfoldable pub last_total : ℕ → List NetworkDiscards → ℕ
last_total first [] = first
last_total first (d ∷ ds) = last_total d.total ds

-- While the total of discarded records does not fall, the increases that the passes return add up to
-- the last total less the one before them.
pub pass_sums :
    (ds : List NetworkDiscards) (m : DiscardMonitor)
    → Rising m.previous ds
    → (pass ds m).0 + m.previous ≡ last_total m.previous ds
unfolding pass observe_discards last_total
pass_sums [] m rising = omega arith
pass_sums (d ∷ ds) m (up, rising) =
    let h = pass_sums ds (record { previous = d.total }) rising in omega (arith, h, up)
