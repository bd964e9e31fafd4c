-- ===== src/Delivery/Steps.antt =====
-- agent/cg-agent/src/delivery.rs: what each part of a round does to the POST in flight and to the
-- sequence number.
use cyber_guard_enterprise.Prelude.{
  ℕ, suc, ◌+◌, ◌%◌, ◌^◌, ◌≤◌, min, ◌≡◌, refl, sym, ap, subst, ◌∙◌, ◌⊎◌, inl, inr, ◌||◌, List, [],
  ◌∷◌, Option, none, some, Text, arith, length, length-map, length-take, length-drop, take,
  Bool-cases,
}
use cyber_guard_enterprise.Etw.Types.{RingEvent}
use cyber_guard_enterprise.Etw.Ring.{EventRing, drain_up_to}
use cyber_guard_enterprise.Etw.Ring
use cyber_guard_enterprise.Paths.{Entry, Seen}
use cyber_guard_enterprise.Delivery.Batches.{
  Batch, Pending, Delivery, max_batch_events, render, render_all, drained, form_batch, ring_due,
}
use cyber_guard_enterprise.Delivery.{Loop, ring_len, tick, watch, form, prepare, first_try}

-- The part of a round's state that the capture, the ticks and the warning leave alone.
abbrev pub Kept : Loop → Loop → Type 0
Kept l l' =
    (l'.in_flight ≡ l.in_flight)
    × (l'.delivery.sequence ≡ l.delivery.sequence)
    × (l'.delivery.heartbeat ≡ l.delivery.heartbeat)
    × (l'.delivery.ring ≡ l.delivery.ring)

-- The dropped total of an agent's ring.
abbrev pub dropped_total : Option EventRing → ℕ
dropped_total none = 0
dropped_total (some ring) = ring.dropped_total

abbrev pub capacity : Option EventRing → ℕ
capacity none = 0
capacity (some ring) = ring.capacity

-- Draining a batch moves events from the ring to it, and loses none.
abbrev pub Moves : Option EventRing → Option EventRing → ℕ → Type 0
Moves before after n =
    (ring_len after + n ≡ ring_len before)
    × (dropped_total after ≡ dropped_total before)
    × (capacity after ≡ capacity before)

pub tick-Kept : (now : ℕ) (l : Loop) → Kept l (tick now l)
unfolding tick
tick-Kept now l = ground arith

pub watch-Kept : (now : ℕ) (l : Loop) → Kept l (watch now l)
unfolding watch
watch-Kept now l = (refl, refl, refl, refl)

render_all-length :
    (agent_id : Text) (paths : List Entry) (events : List RingEvent) (seen : Seen)
    → length (render_all agent_id paths events seen).0 ≡ length events
unfolding render_all
render_all-length agent_id paths [] seen = refl
render_all-length agent_id paths (event ∷ events) seen =
    ap suc (render_all-length agent_id paths events (render agent_id paths event seen).1)

drained-length : (ring : Option EventRing) → length (drained ring).0 ≤ max_batch_events
unfolding drained drain_up_to
drained-length none = omega arith
drained-length (some ring) =
    let n = min max_batch_events (length ring.events) in
    omega (
      arith,
      length-map (λ (e : ℕ × RingEvent). e.1) (take n ring.events),
      length-take {0} n ring.events,
    )

drained-Moves : (ring : Option EventRing) → Moves ring (drained ring).1 (length (drained ring).0)
unfolding drained drain_up_to Ring.len
drained-Moves none = (refl, refl, refl)
drained-Moves (some ring) =
    let n = min max_batch_events (length ring.events) in
    (
      omega (
        arith,
        length-map (λ (e : ℕ × RingEvent). e.1) (take n ring.events),
        length-take {0} n ring.events,
        length-drop {0} n ring.events,
      ),
      refl,
      refl,
    )

-- A POST formed in this round: it takes the next sequence number and at most 1024 events.
pub record Formed (l l' : Loop) (b : Batch) : Type 0 where
  pub idle : l.in_flight ≡ none
  pub flying : l'.in_flight ≡ some (first_try l.delivery.heartbeat b)
  pub numbered : b.sequence ≡ (l.delivery.sequence + 1) % 2 ^ 64
  pub current : l'.delivery.sequence ≡ b.sequence
  pub configured : l'.delivery.heartbeat ≡ l.delivery.heartbeat
  pub bounded : length b.events ≤ max_batch_events
  pub moved : Moves l.delivery.ring l'.delivery.ring (length b.events)

abbrev pub Prepared : Loop → Loop → Type 0
Prepared l l' = Kept l l' ⊎ ((b : Batch) × Formed l l' b)

pub form_batch_lem :
    (d : Delivery)
    → let (b, d') = form_batch d in
      (b.sequence ≡ (d.sequence + 1) % 2 ^ 64)
      × (d'.sequence ≡ b.sequence)
      × (d'.heartbeat ≡ d.heartbeat)
      × (length b.events ≤ max_batch_events)
      × Moves d.ring d'.ring (length b.events)
unfolding form_batch
form_batch_lem d =
    let e = render_all-length d.agent_id d.paths (drained d.ring).0 d.unresolved in
    (
      refl,
      refl,
      refl,
      omega (arith, e, drained-length d.ring),
      subst (Moves d.ring (drained d.ring).1) (sym e) (drained-Moves d.ring),
    )

form-Prepared :
    (now : ℕ) (l : Loop) (in_flight : Option Pending)
    → l.in_flight ≡ in_flight
    → Prepared l (form now in_flight l)
unfolding form
form-Prepared now l (some p) e = inl (refl, refl, refl, refl)
form-Prepared now l none e = elim (Bool-cases (l.heartbeat_due || ring_due l.delivery.ring now)) [
  | inl due ↦
      (let (numbered, current, configured, bounded, moved) = form_batch_lem l.delivery in
        rw due (
          inr (
            (form_batch l.delivery).0,
            record {
              idle = e;
              flying = rw configured refl;
              numbered = numbered;
              current = current;
              configured = configured;
              bounded = bounded;
              moved = moved;
            },
          )))
  | inr not_due ↦ rw not_due (inl (refl, refl, refl, refl))
]

pub prepare-Prepared : (now : ℕ) (l : Loop) → Prepared l (prepare now l)
unfolding prepare tick watch
prepare-Prepared now l =
    let t = tick now l in
    let l' = watch now t in
    let (a, b, c, r) = tick-Kept now l in
    elim (form-Prepared now l' l'.in_flight refl) [
      | inl (a', b', c', r') ↦ inl (a' ∙ a, b' ∙ b, c' ∙ c, r' ∙ r)
      | inr (batch, f) ↦ inr (
        batch,
        record {
          idle = sym a ∙ f.idle;
          flying = f.flying ∙ ap (λ h. some (first_try h batch)) c;
          numbered = f.numbered ∙ ap (λ n. (n + 1) % 2 ^ 64) b;
          current = f.current;
          configured = f.configured ∙ c;
          bounded = f.bounded;
          moved =
              subst (λ k. Moves k (form now l'.in_flight l').delivery.ring (length batch.events)) r
                f.moved;
        },
      )
    ]
