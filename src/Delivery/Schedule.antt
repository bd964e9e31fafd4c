-- ===== src/Delivery/Schedule.antt =====
-- agent/cg-agent/src/delivery.rs: the heartbeat's ticks, on time and missed.
use cyber_guard_enterprise.Prelude.{
  ℕ, zero, suc, ◌+◌, ◌-◌, ◌^◌, ◌≤◌, ◌<◌, min, ◌≡◌, refl, subst, ◌⊎◌, inl, inr, Bool, true, false,
  ◌||◌, arith, leb, Bool-cases,
}
use cyber_guard_enterprise.Delivery.Batches.{Delivery, seconds}
use cyber_guard_enterprise.Delivery.{Loop, advance, tick, tick_at}

tick_at_suc :
    (d : Delivery) (k : ℕ) → tick_at d (k + 1) ≡ tick_at d k + seconds d.heartbeat.interval_seconds
tick_at_suc d k = grind arith

-- The index `k'` reached from `k`: the first one from `k` on whose tick is later than `now`.
abbrev pub Reaches : Delivery → ℕ → ℕ → ℕ → Type 0
Reaches d now k k' =
    (now < tick_at d k') × (k ≤ k') × ((k' ≡ k) ⊎ (tick_at d (k' - 1) ≤ now)) × (k' ≤ 2 ^ 32 - 1)

advance_past :
    (fuel : ℕ) (d : Delivery) (now k : ℕ)
    → leb (tick_at d k) now ≡ true
    → advance (suc fuel) d now k ≡ advance fuel d now (min (k + 1) (2 ^ 32 - 1))
unfolding advance
advance_past fuel d now k past = rw (past, advance) refl

advance_ahead :
    (fuel : ℕ) (d : Delivery) (now k : ℕ)
    → leb (tick_at d k) now ≡ false
    → advance (suc fuel) d now k ≡ k
unfolding advance
advance_ahead fuel d now k ahead = rw (ahead, advance) refl

not_last :
    (d : Delivery) (now k : ℕ)
    → leb (tick_at d k) now ≡ true
    → now < tick_at d (2 ^ 32 - 1)
    → k ≤ 2 ^ 32 - 1
    → min (k + 1) (2 ^ 32 - 1) ≡ k + 1
not_last d now k past last small = elim (Bool-cases (leb k (2 ^ 32 - 2))) [
  | inl before ↦ ground (arith, before)
  | inr after ↦
      (let e : 2 ^ 32 - 1 ≡ k = ground (arith, after) in
        let later : now < tick_at d k = subst (λ k. now < tick_at d k) e last in
        absurd (ground (arith, later, past)))
]

tick_at_pred :
    (d : Delivery) (now k k' : ℕ) → tick_at d k ≤ now → k' ≡ k + 1 → tick_at d (k' - 1) ≤ now
tick_at_pred d now k k' past e = subst (λ k. tick_at d k ≤ now) (omega (arith, e)) past

advance-zero : (d : Delivery) (now k : ℕ) → advance zero d now k ≡ k
unfolding advance
advance-zero d now k = refl

advance-Reaches :
    (fuel : ℕ) (d : Delivery) (now k : ℕ)
    → 0 < d.heartbeat.interval_seconds
    → now < tick_at d (2 ^ 32 - 1)
    → k ≤ 2 ^ 32 - 1
    → now < fuel + tick_at d k
    → Reaches d now k (advance fuel d now k)
advance-Reaches zero d now k positive last small enough =
    rw (advance-zero d now k) (omega (arith, enough), omega arith, inl refl, small)
advance-Reaches (suc fuel) d now k positive last small enough =
    elim (Bool-cases (leb (tick_at d k) now)) [
      | inl past ↦
          (let next = not_last d now k past last small in
            let (later, up, reached, fits) =
              advance-Reaches fuel d now (k + 1) positive last (omega (arith, next))
                (omega (arith, enough, tick_at_suc d k, positive)) in
            let before : tick_at d (advance fuel d now (k + 1) - 1) ≤ now = elim reached [
              | inl e ↦ tick_at_pred d now k _ (ground (arith, past)) e
              | inr b ↦ b
            ] in
            rw (advance_past fuel d now k past, next) (later, omega (arith, up), inr before, fits))
      | inr ahead ↦
          rw (advance_ahead fuel d now k ahead)
            (ground (arith, ahead), omega arith, inl refl, small)
    ]

-- With a positive interval, before the last tick that a `u32` can number: after the ticks of a
-- round, the next one is the first from the one expected on that is later than now, so that it is
-- at most one interval away if any was missed, on the schedule set by the start time alone; and if
-- the tick expected was due with no batch sent since the one before, a heartbeat is due.
pub tick_schedules :
    (now : ℕ) (l : Loop)
    → 0 < l.delivery.heartbeat.interval_seconds
    → now < tick_at l.delivery (2 ^ 32 - 1)
    → l.next_tick ≤ 2 ^ 32 - 1
    → let l' = tick now l in
      Reaches l.delivery now l.next_tick l'.next_tick
      × (leb (tick_at l.delivery l.next_tick) now ≡ true
          → l.batch_post_since_tick ≡ false
          → (l'.heartbeat_due ≡ true) × (l'.batch_post_since_tick ≡ false))
unfolding tick
tick_schedules now l positive last small =
    elim (Bool-cases (leb (tick_at l.delivery l.next_tick) now)) [
      | inl due ↦ rw due (
        advance-Reaches (now + 1) l.delivery now l.next_tick positive last small (omega arith),
        λ d quiet. (rw quiet (or_true l.heartbeat_due), refl),
      )
      | inr early ↦
          rw early (
            (ground (arith, early), omega arith, inl refl, small),
            λ d quiet. absurd (false-true d),
          )
    ]
  where
    or_true : (b : Bool) → (b || true) ≡ true
    or_true true = refl
    or_true false = refl

    false-true : false ≡ true → ⊥
    false-true e = cc
