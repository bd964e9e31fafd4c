-- ===== src/Logon/Monitor.antt =====
-- agent/cg-agent/src/logon/mod.rs, UnusableMonitor: the log lines on records that the agent could
-- not use.
use cyber_guard_enterprise.Prelude.{
  ◌⊎◌, ℕ, ◌+◌, ◌-◌, ◌≡◌, refl, true, false, List, [], ◌∷◌, map, Option, none, some, arith, inl, inr,
  Bool-cases, if◌then◌else◌, ◌==◌,
}
use cyber_guard_enterprise.Etw.Ring.Warning.{Spaced}
use cyber_guard_enterprise.Logon.{LogonCounters, UnusableMonitor, log_interval, is_due, observe}

-- The lines of a sequence of checks, each an instant and the increase that it gives, and the
-- monitor after them.
unfoldable pub lines : UnusableMonitor → List (LogonCounters × ℕ) → List (ℕ × ℕ) × UnusableMonitor
lines m [] = ([], m)
lines m ((counters, now) ∷ checks) =
    let (m', delta) = observe m counters now in
    let (later, final) = lines m' checks in
    (if delta == 0 then later else (now, delta) ∷ later, final)

unfoldable pub total : List (ℕ × ℕ) → ℕ
total [] = 0
total ((now, delta) ∷ rest) = delta + total rest

due-Spaced :
    (last : Option ℕ) (now : ℕ) (ts : List ℕ)
    → is_due last now ≡ true
    → Spaced log_interval (some now) ts
    → Spaced log_interval last (now ∷ ts)
due-Spaced none now ts due h = h
due-Spaced (some t) now ts due h = (ground arith, h)

-- One check either changes nothing and logs nothing, or logs a positive increase when it is due.
observe-cases :
    (m : UnusableMonitor) (counters : LogonCounters) (now : ℕ)
    → (observe m counters now ≡ (m, 0))
      ⊎ ((delta : ℕ) × (observe m counters now
            ≡ (record { logged_total = counters.unusable; last_log = some now }, delta))
          × (is_due m.last_log now ≡ true)
          × ((delta == 0) ≡ false)
          × (counters.unusable ≡ m.logged_total + delta))
unfolding observe
observe-cases m counters now =
    let delta = counters.unusable - m.logged_total in
    elim (Bool-cases (delta == 0)) [
      | inl zero ↦ inl (rw zero refl)
      | inr grown ↦ elim (Bool-cases (is_due m.last_log now)) [
        | inl due ↦ inr (delta, rw (grown, due) refl, due, grown, ground (arith, grown))
        | inr early ↦ inl (rw (grown, early) refl)
      ]
    ]

-- However often the monitor checks and whatever the counters, it logs at most once per 60 s, the
-- last line before the checks included, and the increases that it logs add up to the growth of the
-- total that it has logged.
pub lines-Spaced :
    (m : UnusableMonitor) (checks : List (LogonCounters × ℕ))
    → let (logged, final) = lines m checks in
      Spaced log_interval m.last_log (map (λ line. line.0) logged)
      × (final.logged_total ≡ m.logged_total + total logged)
unfolding lines total
lines-Spaced m [] = (tt, omega arith)
lines-Spaced m ((counters, now) ∷ checks) = elim (observe-cases m counters now) [
  | inl same ↦ rw same (lines-Spaced m checks)
  | inr (delta, e, due, loud, grown) ↦
      (let m' : UnusableMonitor = record {
        logged_total = counters.unusable;
        last_log = some now;
      } in
        let (spaced, sum) = lines-Spaced m' checks in
        rw (e, loud) (due-Spaced m.last_log now _ due spaced, omega (arith, sum, grown)))
]
