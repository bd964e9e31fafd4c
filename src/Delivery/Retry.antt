-- ===== src/Delivery/Retry.antt =====
-- agent/cg-agent/src/delivery.rs: the bounds of a POST in flight and of its retries.
use cyber_guard_enterprise.Prelude.{
  ℕ, ◌+◌, ◌%◌, ◌^◌, ◌≤◌, ◌<◌, ◌≡◌, refl, sym, ap, subst, ◌∙◌, ◌⊎◌, inl, inr, Bool, true, false,
  List, [], ◌∷◌, Option, none, some, arith, ◌&&◌, leb, length, Bool-cases,
}
use cyber_guard_enterprise.Delivery.Batches.{
  HeartbeatConfig, Pending, Response, Attempt, delivered, transient_failure, rejected,
  drop_rejected, classify, next_backoff, max_batch_events,
}
use cyber_guard_enterprise.Delivery.{
  Loop, Round, Flow, goes_on, returns, fails, prepare, capture_into, await, round, settle, back_off,
  is_nil,
}
use cyber_guard_enterprise.Delivery.Steps.{prepare-Prepared}
use cyber_guard_enterprise.Delivery.Run.{Trace, run, ending, round_trace, and_then}

-- A POST that may be tried again: at most 1024 events, rejected less than `max_retries` times, its
-- backoff the initial one or at most `backoff_max_ms`.
pub record IsTriable (heartbeat : HeartbeatConfig) (p : Pending) : Type 0 where
  pub bounded : length p.batch.events ≤ max_batch_events
  pub patient : (p.rejections ≡ 0) ⊎ (p.rejections < heartbeat.max_retries)
  pub waits :
      (p.backoff_ms ≡ heartbeat.backoff_initial_ms) ⊎ (p.backoff_ms ≤ heartbeat.backoff_max_ms)

-- The POST in flight, if there is one, may be tried again.
abbrev pub Triable : HeartbeatConfig → Option Pending → Type 0
Triable heartbeat none = Unit
Triable heartbeat (some p) = IsTriable heartbeat p

-- The loop keeps its configuration and a POST that may be tried again.
abbrev pub Keeps : HeartbeatConfig → Loop → Type 0
Keeps heartbeat l = (l.delivery.heartbeat ≡ heartbeat) × Triable heartbeat l.in_flight

prepare-Keeps :
    (heartbeat : HeartbeatConfig) (now : ℕ) (l : Loop)
    → Keeps heartbeat l
    → Keeps heartbeat (prepare now l)
prepare-Keeps heartbeat now l (same, triable) = elim (prepare-Prepared now l) [
  | inl (flying, numbered, configured, kept) ↦
      (configured ∙ same, subst (Triable heartbeat) (sym flying) triable)
  | inr (batch, f) ↦ (
    f.configured ∙ same,
    subst (Triable heartbeat) (sym f.flying) (record {
      bounded = f.bounded;
      patient = inl refl;
      waits = inl (ap (λ h. h.backoff_initial_ms) same);
    }),
  )
]

back_off-Keeps :
    (heartbeat : HeartbeatConfig) (stopped : Bool) (p : Pending) (l : Loop)
    → l.delivery.heartbeat ≡ heartbeat
    → IsTriable heartbeat p
    → Keeps heartbeat (ending (back_off stopped p l))
unfolding back_off next_backoff
back_off-Keeps heartbeat stopped p l same t = go stopped
  where
    waited : Pending
    waited = record p { backoff_ms = next_backoff p.backoff_ms l.delivery.heartbeat }

    waited-IsTriable : IsTriable heartbeat waited
    waited-IsTriable = record {
      bounded = t.bounded;
      patient = t.patient;
      waits = inr (omega (arith, ap (λ h. h.backoff_max_ms) same));
    }

    go : (stopped : Bool) → Keeps heartbeat (ending (back_off stopped p l))
    go true = (same, waited-IsTriable)
    go false = (same, waited-IsTriable)

settle-Keeps :
    (heartbeat : HeartbeatConfig) (a : Option Attempt) (stopped : Bool) (p : Pending) (l : Loop)
    → Keeps heartbeat l
    → l.in_flight ≡ some p
    → Keeps heartbeat (ending (settle a stopped p l))
unfolding settle drop_rejected
settle-Keeps heartbeat none stopped p l keeps e = keeps
settle-Keeps heartbeat (some delivered) stopped p l (same, triable) e = (same, tt)
settle-Keeps heartbeat (some transient_failure) stopped p l (same, triable) e =
    let failures = (p.transient_failures + 1) % 2 ^ 32 in
    let t = subst (Triable heartbeat) e triable in
    elim (Bool-cases (is_nil p.batch.events && leb l.delivery.heartbeat.max_retries failures)) [
      | inl ends ↦ rw ends (same, tt)
      | inr goes ↦ rw goes (
          back_off-Keeps heartbeat stopped (record p { transient_failures = failures }) l same
            (record { bounded = t.bounded; patient = t.patient; waits = t.waits }))
    ]
settle-Keeps heartbeat (some (rejected s)) stopped p l (same, triable) e =
    let refusals = (p.rejections + 1) % 2 ^ 32 in
    let t = subst (Triable heartbeat) e triable in
    elim (Bool-cases (leb l.delivery.heartbeat.max_retries refusals)) [
      | inl ends ↦ rw ends (same, tt)
      | inr goes ↦ rw goes (
          back_off-Keeps heartbeat stopped (record p { rejections = refusals }) l same
            (record {
              bounded = t.bounded;
              patient = inr (ground (arith, goes, ap (λ h. h.max_retries) same));
              waits = t.waits;
            }))
    ]

await-Keeps :
    (heartbeat : HeartbeatConfig) (in_flight : Option Pending) (r : Round)
    (response : Option Response) (stopped : Bool) (l : Loop)
    → Keeps heartbeat l
    → l.in_flight ≡ in_flight
    → Keeps heartbeat
        (ending (await in_flight (record r { response = response; stopped = stopped }) l))
unfolding await
await-Keeps heartbeat none r response true l keeps e = keeps
await-Keeps heartbeat none r response false l keeps e = keeps
await-Keeps heartbeat (some p) r none stopped l keeps e = keeps
await-Keeps heartbeat (some p) r (some response) stopped l keeps e =
    settle-Keeps heartbeat (classify response) stopped p l keeps e

round-Keeps :
    (heartbeat : HeartbeatConfig) (r : Round) (l : Loop)
    → Keeps heartbeat l
    → Keeps heartbeat (ending (round r l))
unfolding round
round-Keeps heartbeat r l keeps =
    let l' = prepare r.now (capture_into r.captured l) in
    await-Keeps heartbeat l'.in_flight r r.response r.stopped l'
      (prepare-Keeps heartbeat r.now (capture_into r.captured l) keeps) refl

and_then-Keeps :
    (heartbeat : HeartbeatConfig) (trace : Trace) (flow : Flow) (rest : Loop → Trace × Flow)
    → Keeps heartbeat (ending flow)
    → ((l : Loop) → Keeps heartbeat l → Keeps heartbeat (ending (rest l).1))
    → Keeps heartbeat (ending (and_then trace flow rest).1)
and_then-Keeps heartbeat trace (goes_on l) rest keeps h = h l keeps
and_then-Keeps heartbeat trace (returns l) rest keeps h = keeps
and_then-Keeps heartbeat trace (fails l) rest keeps h = keeps

-- From a loop whose POST in flight, if any, may be tried again, every run ends in such a loop, with
-- the configuration it began with: a POST in flight has at most 1024 events, has been rejected less
-- than `max_retries` times (or never) and waits the initial backoff or at most `backoff_max_ms`.
pub run-Keeps :
    (rounds : List Round) (heartbeat : HeartbeatConfig) (l : Loop)
    → Keeps heartbeat l
    → Keeps heartbeat (ending (run rounds l).1)
unfolding run
run-Keeps [] heartbeat l keeps = keeps
run-Keeps (r ∷ rounds) heartbeat l keeps =
    and_then-Keeps heartbeat (round_trace r l) (round r l) (run rounds)
      (round-Keeps heartbeat r l keeps) (run-Keeps rounds heartbeat)
