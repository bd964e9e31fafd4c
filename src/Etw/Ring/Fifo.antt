-- ===== src/Etw/Ring/Fifo.antt =====
-- agent/cg-agent/src/etw/ring.rs: sequences of calls on the ring, in whatever order.
use cyber_guard_enterprise.Prelude.{
  ℕ, zero, suc, ◌+◌, ◌%◌, ◌^◌, min, ◌≡◌, refl, ap, subst, ◌∙◌, sym, true, false, List, [], ◌∷◌,
  ◌++◌, map, append_assoc, append-nil, arith, leb, length, take, drop, length-append, length-take,
  length-map, take-append-drop, if◌then◌else◌, inl, inr, Bool-cases,
}
use mathlib.Core.List.{map-append}
use cyber_guard_enterprise.Etw.Types.{RingEvent}
use cyber_guard_enterprise.Etw.Ring.{
  EventRing, fetch_add, is_unnamed, enqueue_or_drop, add_dropped, snapshot_events, drain_up_to,
}
use cyber_guard_enterprise.Etw.Ring.Valid.{
  Op, run, accepted, added, Merges, Merges-left, Merges-right, Merges-append, IsValid,
  enqueue-IsValid, drain-IsValid, run-IsValid, enqueue, drain, add,
}

-- The events that `enqueue_or_drop` evicts: the oldest of a full ring.
abbrev evicted : EventRing → List RingEvent
evicted ring =
    if leb ring.capacity (length ring.events) then map (λ e. e.1) (take 1 ring.events) else []

enqueue_drops :
    (event : RingEvent) (now : ℕ) (ring : EventRing)
    → is_unnamed event ≡ true
    → enqueue_or_drop event now ring ≡ ring
unfolding enqueue_or_drop
enqueue_drops event now ring e = rw e

snapshot_enqueue :
    (xs : List (ℕ × RingEvent)) (event : RingEvent) (now n : ℕ)
    → map (λ e. e.1) xs ++ event ∷ []
      ≡ map (λ e. e.1) (take n xs) ++ map (λ e. e.1) (drop n xs ++ (now, event) ∷ [])
snapshot_enqueue [] event now zero = refl
snapshot_enqueue [] event now (suc n) = refl
snapshot_enqueue (x ∷ xs) event now zero = ap (λ l. x.1 ∷ l) (snapshot_enqueue xs event now zero)
snapshot_enqueue (x ∷ xs) event now (suc n) = ap (λ l. x.1 ∷ l) (snapshot_enqueue xs event now n)

-- An accepted event enters at the back, and what leaves at the front is counted.
enqueue_accepts :
    (event : RingEvent) (now : ℕ) {ring : EventRing}
    → IsValid ring
    → is_unnamed event ≡ false
    → let after = enqueue_or_drop event now ring in
      (snapshot_events ring ++ event ∷ [] ≡ evicted ring ++ snapshot_events after)
      × (after.dropped_total ≡ fetch_add ring.dropped_total (length (evicted ring)))
unfolding enqueue_or_drop snapshot_events
enqueue_accepts event now {ring} v e = elim (Bool-cases (leb ring.capacity (length ring.events))) [
  | inl full ↦
      rw (e, full)
        (
          snapshot_enqueue ring.events event now 1,
          ap (fetch_add ring.dropped_total) (
              ground (
                arith,
                length-map (λ (e : ℕ × RingEvent). e.1) (take 1 ring.events),
                length-take {0} 1 ring.events,
              )),
        )
  | inr free ↦ rw (e, free) (snapshot_enqueue ring.events event now 0, omega arith)
]

dropped-drain :
    (max : ℕ) (ring : EventRing) → (drain_up_to max ring).1.dropped_total ≡ ring.dropped_total
unfolding drain_up_to
dropped-drain max ring = refl

-- Draining takes the oldest events off the front.
drain_splits :
    (max : ℕ) (ring : EventRing)
    → let (drained, rest) = drain_up_to max ring in
      snapshot_events ring ≡ drained ++ snapshot_events rest
unfolding drain_up_to snapshot_events
drain_splits max ring =
    rw (← map-append (λ e. e.1) (take (min max (length ring.events)) ring.events))
      (rw take-append-drop)

regroup {ℓ} :
    {A : Type ℓ} (xs ys es zs : List A) (x : A)
    → xs ++ x ∷ [] ≡ es ++ ys
    → es ++ (ys ++ zs) ≡ xs ++ x ∷ zs
regroup xs ys es zs x p =
    sym (append_assoc es ys zs) ∙ ap (λ l. l ++ zs) (sym p) ∙ append_assoc xs (x ∷ []) zs

-- From any valid ring, every sequence of calls drains and retains the events that the ring held and
-- those that the calls had accepted, in their order, but for a number of evicted ones; and it adds
-- just the number of those, and what came from outside the ring, to the dropped total (mod 2^64).
pub run_conserves :
    (ops : List Op) {ring : EventRing}
    → IsValid ring
    → let (drained, final) = run ops ring in
      (lost : List RingEvent) × Merges
        (drained ++ snapshot_events final)
        lost
        (snapshot_events ring ++ accepted ops)
      × (final.dropped_total ≡ (ring.dropped_total + length lost + added ops) % 2 ^ 64)
unfolding run accepted added add_dropped snapshot_events
run_conserves [] {ring} v = ([], rw append-nil (Merges-left (snapshot_events ring)), omega arith)
run_conserves (enqueue event now ∷ ops) {ring} v = elim (Bool-cases (is_unnamed event)) [
  | inl unnamed ↦ rw (unnamed, enqueue_drops event now ring unnamed, run) (run_conserves ops v)
  | inr named ↦
      let (lost, m, total) = run_conserves ops (enqueue-IsValid event now v) in
      let (order, count) = enqueue_accepts event now v named in
      rw named (
        evicted ring ++ lost,
        subst (Merges _ (evicted ring ++ lost)) (regroup _ _ _ _ _ order)
            (Merges-right (evicted ring) m),
        omega (arith, total, count, length-append {0} (evicted ring) lost),
      )
]
run_conserves (drain max ∷ ops) {ring} v =
    let (lost, m, total) = run_conserves ops (drain-IsValid max v) in
    let (drained, rest) = drain_up_to max ring in
    (
      lost,
      rw
          (
            drain_splits max ring,
            append_assoc drained (snapshot_events rest) (accepted ops),
            append_assoc drained (run ops rest).0 (snapshot_events (run ops rest).1),
          )
          (Merges-append drained m),
      omega (arith, total, dropped-drain max ring),
    )
run_conserves (add n ∷ ops) {ring} v =
    let (lost, m, total) =
      run_conserves ops {ring = add_dropped n ring} (run-IsValid (add n ∷ []) v) in
    (lost, m, omega (arith, total))
