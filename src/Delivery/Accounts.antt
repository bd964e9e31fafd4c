-- ===== src/Delivery/Accounts.antt =====
-- agent/cg-agent/src/delivery.rs: what each part of a round does to the events held, dropped and
-- acknowledged.
use cyber_guard_enterprise.Prelude.{
  ℕ, ◌+◌, ◌%◌, ◌^◌, ◌<◌, ◌≡◌, refl, ap, ◌∙◌, inl, inr, Bool, true, false, List, [], ◌∷◌, Option,
  none, some, arith, leb, ◌&&◌, length, drop, length-append, length-drop, if◌then◌else◌, Bool-cases,
}
use mathlib.Core.Option
use cyber_guard_enterprise.Etw.Types.{RingEvent}
use cyber_guard_enterprise.Etw.Ring.{EventRing, is_unnamed, enqueue_or_drop, add_dropped}
use cyber_guard_enterprise.Etw.Ring
use cyber_guard_enterprise.Cges.{CgesEvent}
use cyber_guard_enterprise.Delivery.Batches.{
  Batch, Pending, Attempt, delivered, transient_failure, rejected, drop_rejected,
}
use cyber_guard_enterprise.Delivery.{
  Loop, prepare, capture, capture_into, settle, back_off, is_nil, is_delivered, ring_len,
  pending_count,
}
use cyber_guard_enterprise.Delivery.Steps.{capacity, dropped_total, prepare-Prepared}
use cyber_guard_enterprise.Delivery.Run.{ending, accepted_count}

-- The events that an agent holds or has counted as dropped.
abbrev pub held : Loop → ℕ
held l = dropped_total l.delivery.ring + ring_len l.delivery.ring + pending_count l.in_flight

enqueue_counts :
    (event : RingEvent) (at : ℕ) (ring : EventRing)
    → 0 < ring.capacity
    → let after = enqueue_or_drop event at ring in
      (after.capacity ≡ ring.capacity)
      × ((after.dropped_total + Ring.len after) % 2 ^ 64
          ≡ (ring.dropped_total + Ring.len ring + (if is_unnamed event then 0 else 1)) % 2 ^ 64)
unfolding enqueue_or_drop Ring.len
enqueue_counts event at ring room = elim (Bool-cases (is_unnamed event)) [
  | inl unnamed ↦ rw unnamed (refl, omega arith)
  | inr named ↦ elim (Bool-cases (leb ring.capacity (length ring.events))) [
    | inl full ↦
        rw (named, full)
          (
            refl,
            ground (
              arith,
              length-append {0} (drop 1 ring.events) ((at, event) ∷ []),
              length-drop {0} 1 ring.events,
            ),
          )
    | inr free ↦
        rw (named, free) (refl, ground (arith, length-append {0} ring.events ((at, event) ∷ [])))
  ]
]

capture_counts :
    (events : List (RingEvent × ℕ)) (ring : EventRing)
    → 0 < ring.capacity
    → let after = capture events ring in
      (after.capacity ≡ ring.capacity)
      × ((after.dropped_total + Ring.len after) % 2 ^ 64
          ≡ (ring.dropped_total + Ring.len ring + accepted_count events) % 2 ^ 64)
unfolding capture accepted_count
capture_counts [] ring room = (refl, omega arith)
capture_counts ((event, at) ∷ events) ring room =
    let (same, count) = enqueue_counts event at ring room in
    let (same', count') =
      capture_counts events (enqueue_or_drop event at ring) (omega (arith, same)) in
    (same' ∙ same, omega (arith, count, count'))

-- What holds from one loop to the next one, over which `taken` events were accepted and
-- `acked` acknowledged.
abbrev pub Accounts : ℕ → ℕ → Loop → Loop → Type 0
Accounts taken acked l l' =
    (capacity l'.delivery.ring ≡ capacity l.delivery.ring)
    × ((held l' + acked) % 2 ^ 64 ≡ (held l + taken) % 2 ^ 64)

captured_into :
    (events : List (RingEvent × ℕ)) (ring : Option EventRing)
    → 0 < capacity ring
    → let after = Option.map (capture events) ring in
      (capacity after ≡ capacity ring)
      × ((dropped_total after + ring_len after) % 2 ^ 64
          ≡ (dropped_total ring + ring_len ring + accepted_count events) % 2 ^ 64)
captured_into events none room = absurd (omega arith)
captured_into events (some ring) room = capture_counts events ring room

pub capture_into-Accounts :
    (events : List (RingEvent × ℕ)) (l : Loop)
    → 0 < capacity l.delivery.ring
    → Accounts (accepted_count events) 0 l (capture_into events l)
capture_into-Accounts events l room =
    let (same, count) = captured_into events l.delivery.ring room in (same, omega (arith, count))

pub prepare-Accounts : (now : ℕ) (l : Loop) → Accounts 0 0 l (prepare now l)
prepare-Accounts now l = elim (prepare-Prepared now l) [
  | inl (flying, numbered, configured, same) ↦ (
    ap capacity same,
    omega (arith, ap dropped_total same, ap ring_len same, ap pending_count flying),
  )
  | inr (batch, f) ↦
      (let (moved, dropped, same) = f.moved in
        (same, omega (arith, moved, dropped, ap pending_count f.flying, ap pending_count f.idle)))
]

-- The acknowledged events of an attempt.
abbrev acked : Option Attempt → Batch → ℕ
acked attempt batch = if is_delivered attempt then length batch.events else 0

back_off-Accounts :
    (stopped : Bool) (p : Pending) (l : Loop)
    → pending_count l.in_flight ≡ length p.batch.events
    → Accounts 0 0 l (ending (back_off stopped p l))
unfolding back_off
back_off-Accounts true p l e = (refl, omega (arith, e))
back_off-Accounts false p l e = (refl, omega (arith, e))

drop_counts :
    (n : ℕ) (ring : Option EventRing)
    → 0 < capacity ring
    → let after = Option.map (add_dropped n) ring in
      (capacity after ≡ capacity ring)
      × ((dropped_total after + ring_len after) % 2 ^ 64
          ≡ (dropped_total ring + ring_len ring + n) % 2 ^ 64)
unfolding add_dropped Ring.len
drop_counts n none room = absurd (omega arith)
drop_counts n (some ring) room = (refl, omega arith)

empty_count : (events : List CgesEvent) (b : Bool) → (is_nil events && b) ≡ true → length events ≡ 0
empty_count [] b h = refl
empty_count (e ∷ es) b h = cc

pub settle-Accounts :
    (attempt : Option Attempt) (stopped : Bool) (p : Pending) (l : Loop)
    → 0 < capacity l.delivery.ring
    → l.in_flight ≡ some p
    → Accounts 0 (acked attempt p.batch) l (ending (settle attempt stopped p l))
unfolding settle drop_rejected
settle-Accounts none stopped p l room e = (refl, omega arith)
settle-Accounts (some delivered) stopped p l room e = (refl, omega (arith, ap pending_count e))
settle-Accounts (some transient_failure) stopped p l room e =
    let failures = (p.transient_failures + 1) % 2 ^ 32 in
    elim (Bool-cases (is_nil p.batch.events && leb l.delivery.heartbeat.max_retries failures)) [
      | inl ends ↦
          rw ends (refl, omega (arith, ap pending_count e, empty_count p.batch.events _ ends))
      | inr goes ↦ rw goes (
          back_off-Accounts stopped (record p { transient_failures = failures }) l
            (ap pending_count e))
    ]
settle-Accounts (some (rejected s)) stopped p l room e =
    let refusals = (p.rejections + 1) % 2 ^ 32 in
    elim (Bool-cases (leb l.delivery.heartbeat.max_retries refusals)) [
      | inl ends ↦
          (let (same, count) = drop_counts (length p.batch.events) l.delivery.ring room in
            rw ends (same, omega (arith, count, ap pending_count e)))
      | inr goes ↦
          rw goes
            (back_off-Accounts stopped (record p { rejections = refusals }) l (ap pending_count e))
    ]
