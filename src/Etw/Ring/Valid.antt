-- ===== src/Etw/Ring/Valid.antt =====
-- agent/cg-agent/src/etw/ring.rs: the rings that are valid, kept by every operation.
use cyber_guard_enterprise.Prelude.{
  ℕ, ◌+◌, ◌^◌, ◌≤◌, ◌<◌, min, ◌≡◌, false, List, [], ◌∷◌, ◌++◌, arith, leb, length, drop, All,
  length-append, All-append, All-drop, length-drop, if◌then◌else◌, inl, inr, Bool-cases,
}
use cyber_guard_enterprise.Etw.Types.{RingEvent}
use cyber_guard_enterprise.Etw.Ring.{
  EventRing, is_unnamed, enqueue_or_drop, add_dropped, drain_up_to,
}

-- A call on the ring by the capture (`enqueue`) or by the delivery loop.
pub data Op : Type 0 where
  enqueue : RingEvent → ℕ → Op
  drain : ℕ → Op
  add : ℕ → Op

-- The events drained by a sequence of calls, in order, and the ring after it.
unfoldable pub run : List Op → EventRing → List RingEvent × EventRing
run [] ring = ([], ring)
run (enqueue event now ∷ ops) ring = run ops (enqueue_or_drop event now ring)
run (drain max ∷ ops) ring =
    let (drained, rest) = drain_up_to max ring in
    let (later, final) = run ops rest in (drained ++ later, final)
run (add n ∷ ops) ring = run ops (add_dropped n ring)

-- The events of a sequence of calls that are not dropped for an empty name.
unfoldable pub accepted : List Op → List RingEvent
accepted [] = []
accepted (enqueue event now ∷ ops) = if is_unnamed event then accepted ops else event ∷ accepted ops
accepted (drain max ∷ ops) = accepted ops
accepted (add n ∷ ops) = accepted ops

-- What a sequence of calls adds to the dropped total from outside the ring.
unfoldable pub added : List Op → ℕ
added [] = 0
added (enqueue event now ∷ ops) = added ops
added (drain max ∷ ops) = added ops
added (add n ∷ ops) = n + added ops

-- The third list interleaves the first two, each in its order.
pub data Merges {ℓ} {A : Type ℓ} : List A → List A → List A → Type ℓ where
  nil : Merges [] [] []
  left : {x : A} {xs ys zs : List A} → Merges xs ys zs → Merges (x ∷ xs) ys (x ∷ zs)
  right : {y : A} {xs ys zs : List A} → Merges xs ys zs → Merges xs (y ∷ ys) (y ∷ zs)

pub Merges-left {ℓ} : {A : Type ℓ} (xs : List A) → Merges xs [] xs
Merges-left [] = nil
Merges-left (x ∷ xs) = left (Merges-left xs)

pub Merges-right {ℓ} :
    {A : Type ℓ} (es : List A) {xs ys zs : List A}
    → Merges xs ys zs
    → Merges xs (es ++ ys) (es ++ zs)
Merges-right [] m = m
Merges-right (e ∷ es) m = right (Merges-right es m)

pub Merges-append {ℓ} :
    {A : Type ℓ} (ps : List A) {xs ys zs : List A}
    → Merges xs ys zs
    → Merges (ps ++ xs) ys (ps ++ zs)
Merges-append [] m = m
Merges-append (p ∷ ps) m = left (Merges-append ps m)

-- A valid ring accepts at least one event and holds at most `capacity`, every process event with
-- an image name.
pub record IsValid (ring : EventRing) : Type 0 where
  pub room : 0 < ring.capacity
  pub bounded : length ring.events ≤ ring.capacity
  pub named : All (λ e. is_unnamed e.1 ≡ false) ring.events
  pub word : ring.dropped_total < 2 ^ 64

pub enqueue-IsValid :
    (event : RingEvent) (now : ℕ) {ring : EventRing}
    → IsValid ring
    → IsValid (enqueue_or_drop event now ring)
unfolding enqueue_or_drop
enqueue-IsValid event now {ring} v = elim (Bool-cases (is_unnamed event)) [
  | inl unnamed ↦ rw unnamed v
  | inr named ↦ elim (Bool-cases (leb ring.capacity (length ring.events))) [
    | inl full ↦
        rw (named, full)
          (record {
            room = v.room;
            bounded = ground (
              arith,
              length-append {0} (drop 1 ring.events) ((now, event) ∷ []),
              length-drop {0} 1 ring.events,
            );
            named =
                All-append _ (drop 1 ring.events) _ (All-drop _ 1 ring.events v.named) (named, tt);
            word = omega arith;
          })
    | inr free ↦
        rw (named, free)
          (record {
            room = v.room;
            bounded = ground (arith, length-append {0} ring.events ((now, event) ∷ []));
            named = All-append _ ring.events _ v.named (named, tt);
            word = v.word;
          })
  ]
]

-- What holds of the retained events and of the new one holds after an enqueue.
pub enqueue-All :
    (P : ℕ × RingEvent → Type 0) (event : RingEvent) (now : ℕ) (ring : EventRing)
    → All P ring.events
    → P (now, event)
    → All P (enqueue_or_drop event now ring).events
unfolding enqueue_or_drop
enqueue-All P event now ring h p = elim (Bool-cases (is_unnamed event)) [
  | inl unnamed ↦ rw unnamed h
  | inr named ↦ elim (Bool-cases (leb ring.capacity (length ring.events))) [
    | inl full ↦
        rw (named, full) (All-append P (drop 1 ring.events) _ (All-drop P 1 ring.events h) (p, tt))
    | inr free ↦ rw (named, free) (All-append P ring.events _ h (p, tt))
  ]
]

pub drain-IsValid : (max : ℕ) {ring : EventRing} → IsValid ring → IsValid (drain_up_to max ring).1
unfolding drain_up_to
drain-IsValid max {ring} v = record {
  room = v.room;
  bounded = omega (arith, length-drop {0} (min max (length ring.events)) ring.events);
  named = All-drop _ (min max (length ring.events)) ring.events v.named;
  word = v.word;
}

-- Every sequence of calls keeps a ring valid.
pub run-IsValid : (ops : List Op) {ring : EventRing} → IsValid ring → IsValid (run ops ring).1
unfolding run add_dropped
run-IsValid [] v = v
run-IsValid (enqueue event now ∷ ops) v = run-IsValid ops (enqueue-IsValid event now v)
run-IsValid (drain max ∷ ops) v = run-IsValid ops (drain-IsValid max v)
run-IsValid (add n ∷ ops) v =
    run-IsValid ops
      (record { room = v.room; bounded = v.bounded; named = v.named; word = omega arith })
