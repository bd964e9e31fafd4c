-- ===== src/Delivery/Order.antt =====
-- agent/cg-agent/src/delivery.rs: the order of the POSTs and what a retry sends.
use cyber_guard_enterprise.Prelude.{
  ℕ, ◌+◌, ◌%◌, ◌^◌, ◌≡◌, ◌≢◌, refl, sym, ap, subst, ◌∙◌, ◌⊎◌, inl, inr, Bool, true, false, List, [],
  ◌∷◌, Option, none, some, arith, ◌&&◌, leb, Bool-cases, Text,
}
use cyber_guard_enterprise.Etw.Ring.{EventRing}
use cyber_guard_enterprise.Paths.{Entry}
use cyber_guard_enterprise.Delivery.Batches.{
  HeartbeatConfig, Batch, Pending, Response, Attempt, delivered, transient_failure, rejected, new,
  drop_rejected, classify,
}
use cyber_guard_enterprise.Delivery.{
  Loop, Round, Flow, goes_on, returns, fails, start, prepare, capture_into, await, round, settle,
  back_off, is_nil,
}
use cyber_guard_enterprise.Delivery.Steps.{prepare-Prepared}
use cyber_guard_enterprise.Delivery.Run.{Trace, run, attempted, round_trace, and_then}

-- The batch of the attempt after one at `b` that came to `a`: the same or the next one; after a
-- delivery the next one; after a failure to deliver events the same.
pub record Next (b : Batch) (a : Option Attempt) (b' : Batch) : Type 0 where
  pub orderly : (b' ≡ b) ⊎ (b'.sequence ≡ (b.sequence + 1) % 2 ^ 64)
  pub advances : a ≡ some delivered → b'.sequence ≡ (b.sequence + 1) % 2 ^ 64
  pub repeats : a ≡ some transient_failure → is_nil b.events ≡ false → b' ≡ b

-- The first batch has number 1.
abbrev pub From : Option (Batch × Option Attempt) → Batch → Type 0
From none b = b.sequence ≡ 1
From (some (b, a)) b' = Next b a b'

-- Every attempt comes from the one before.
abbrev pub Chain : Option (Batch × Option Attempt) → List (Batch × Response) → Type 0
Chain last [] = Unit
Chain last ((b, response) ∷ attempts) = From last b × Chain (some (b, classify response)) attempts

-- What is left in flight after an attempt.
abbrev Remains : Batch → Option Attempt → Option Pending → Type 0
Remains b a none = a ≡ some transient_failure → is_nil b.events ≡ true
Remains b a (some p) = (p.batch ≡ b) × (a ≢ some delivered)

-- The loop's state after the last attempt.
abbrev After : Option (Batch × Option Attempt) → Option Pending → ℕ → Type 0
After none in_flight sequence = (in_flight ≡ none) × (sequence ≡ 0)
After (some (b, a)) in_flight sequence = Remains b a in_flight × (b.sequence ≡ sequence)

-- The state in which an attempt is made, or not.
abbrev Ready : Option (Batch × Option Attempt) → Option Pending → ℕ → Type 0
Ready last none sequence = After last none sequence
Ready last (some p) sequence = From last p.batch × (p.batch.sequence ≡ sequence)

kept-Ready :
    (last : Option (Batch × Option Attempt)) (in_flight : Option Pending) (sequence : ℕ)
    → After last in_flight sequence
    → Ready last in_flight sequence
kept-Ready last none sequence after = after
kept-Ready none (some p) sequence (idle, first) = absurd cc
kept-Ready (some (b, a)) (some p) sequence ((same, undelivered), numbered) = (
  record { orderly = inl same; advances = λ e. absurd (undelivered e); repeats = λ e events. same },
  ap (λ b. b.sequence) same ∙ numbered,
)

formed-From :
    (last : Option (Batch × Option Attempt)) (b : Batch) (sequence : ℕ)
    → After last none sequence
    → b.sequence ≡ (sequence + 1) % 2 ^ 64
    → From last b
formed-From none b sequence (idle, first) e = omega (arith, first, e)
formed-From (some (b', a)) b sequence (ended, numbered) e =
    let next : b.sequence ≡ (b'.sequence + 1) % 2 ^ 64 = omega (arith, numbered, e) in
    record {
      orderly = inr next;
      advances = λ e. next;
      repeats = λ failed events. absurd (true-false (sym (ended failed) ∙ events));
    }
  where
    true-false : true ≢ false
    true-false e = cc

prepare-Ready :
    (last : Option (Batch × Option Attempt)) (now : ℕ) (l : Loop)
    → After last l.in_flight l.delivery.sequence
    → let l' = prepare now l in Ready last l'.in_flight l'.delivery.sequence
prepare-Ready last now l after = elim (prepare-Prepared now l) [
  | inl (flying, numbered, configured, same) ↦
      rw (flying, numbered) (kept-Ready last l.in_flight l.delivery.sequence after)
  | inr (batch, f) ↦ rw f.flying (
    formed-From last batch l.delivery.sequence
        (subst (λ p. After last p l.delivery.sequence) f.idle after) f.numbered,
    sym f.current,
  )
]

-- What holds of the loop when it goes on.
abbrev pub Goes : (Loop → Type 0) → Flow → Type 0
Goes P (goes_on l) = P l
Goes P (returns l) = Unit
Goes P (fails l) = Unit

back_off-After :
    (stopped : Bool) (p : Pending) (l : Loop) (a : Option Attempt)
    → a ≢ some delivered
    → p.batch.sequence ≡ l.delivery.sequence
    → Goes
        (λ l'. After (some (p.batch, a)) l'.in_flight l'.delivery.sequence)
        (back_off stopped p l)
unfolding back_off
back_off-After true p l a undelivered e = tt
back_off-After false p l a undelivered e = ((refl, undelivered), e)

nil_of_and : (a b : Bool) → (a && b) ≡ true → a ≡ true
nil_of_and true b h = refl
nil_of_and false b h = cc

settle-After :
    (a : Option Attempt) (stopped : Bool) (p : Pending) (l : Loop)
    → p.batch.sequence ≡ l.delivery.sequence
    → Goes
        (λ l'. After (some (p.batch, a)) l'.in_flight l'.delivery.sequence)
        (settle a stopped p l)
unfolding settle drop_rejected
settle-After none stopped p l e = tt
settle-After (some delivered) stopped p l e = (λ f. absurd cc, e)
settle-After (some transient_failure) stopped p l e =
    let failures = (p.transient_failures + 1) % 2 ^ 32 in
    elim (Bool-cases (is_nil p.batch.events && leb l.delivery.heartbeat.max_retries failures)) [
      | inl ends ↦ rw ends (λ f. nil_of_and (is_nil p.batch.events) _ ends, e)
      | inr goes ↦
          rw goes
            (back_off-After stopped (record p { transient_failures = failures }) l _ (λ f. cc) e)
    ]
settle-After (some (rejected s)) stopped p l e =
    let refusals = (p.rejections + 1) % 2 ^ 32 in
    elim (Bool-cases (leb l.delivery.heartbeat.max_retries refusals)) [
      | inl ends ↦ rw ends (λ f. absurd cc, e)
      | inr goes ↦
          rw goes (back_off-After stopped (record p { rejections = refusals }) l _ (λ f. cc) e)
    ]

-- What an attempt, or none, adds to the chain.
abbrev Links : Option (Batch × Option Attempt) → List (Batch × Response) → Flow → Type 0
Links last [] flow = Goes (λ l. After last l.in_flight l.delivery.sequence) flow
Links last ((b, response) ∷ attempts) flow =
    From last b
    × Goes (λ l. After (some (b, classify response)) l.in_flight l.delivery.sequence) flow

await-Links :
    (last : Option (Batch × Option Attempt)) (in_flight : Option Pending) (r : Round)
    (response : Option Response) (stopped : Bool) (l : Loop)
    → Ready last in_flight l.delivery.sequence
    → l.in_flight ≡ in_flight
    → Links last
        (attempted in_flight response)
        (await in_flight (record r { response = response; stopped = stopped }) l)
unfolding await
await-Links last none r response true l ready e = tt
await-Links last none r response false l ready e = rw e ready
await-Links last (some p) r none stopped l ready e = tt
await-Links last (some p) r (some response) stopped l (from, numbered) e =
    (from, settle-After (classify response) stopped p l numbered)

round-Links :
    (last : Option (Batch × Option Attempt)) (r : Round) (l : Loop)
    → After last l.in_flight l.delivery.sequence
    → Links last (round_trace r l).attempts (round r l)
unfolding round
round-Links last r l after =
    let l' = prepare r.now (capture_into r.captured l) in
    await-Links last l'.in_flight r r.response r.stopped l'
      (prepare-Ready last r.now (capture_into r.captured l) after) refl

-- A round makes one attempt at most.
and_then-Chain :
    (last : Option (Batch × Option Attempt)) (in_flight : Option Pending)
    (response : Option Response) (trace : Trace) (flow : Flow) (rest : Loop → Trace × Flow)
    → trace.attempts ≡ attempted in_flight response
    → Links last (attempted in_flight response) flow
    → ((last : Option (Batch × Option Attempt)) (l : Loop)
        → After last l.in_flight l.delivery.sequence
        → Chain last (rest l).0.attempts)
    → Chain last (and_then trace flow rest).0.attempts
and_then-Chain last none response trace (goes_on l) rest e links h = rw e (h last l links)
and_then-Chain last none response trace (returns l) rest e links h = rw e tt
and_then-Chain last none response trace (fails l) rest e links h = rw e tt
and_then-Chain last (some p) none trace (goes_on l) rest e links h = rw e (h last l links)
and_then-Chain last (some p) none trace (returns l) rest e links h = rw e tt
and_then-Chain last (some p) none trace (fails l) rest e links h = rw e tt
and_then-Chain last (some p) (some response) trace (goes_on l) rest e (from, after) h =
    rw e (from, h (some (p.batch, classify response)) l after)
and_then-Chain last (some p) (some response) trace (returns l) rest e (from, after) h =
    rw e (from, tt)
and_then-Chain last (some p) (some response) trace (fails l) rest e (from, after) h =
    rw e (from, tt)

run-Chain :
    (rounds : List Round) (last : Option (Batch × Option Attempt)) (l : Loop)
    → After last l.in_flight l.delivery.sequence
    → Chain last (run rounds l).0.attempts
unfolding run
run-Chain [] last l after = tt
run-Chain (r ∷ rounds) last l after =
    and_then-Chain last (prepare r.now (capture_into r.captured l)).in_flight r.response
      (round_trace r l) (round r l) (run rounds) refl (round-Links last r l after)
      (run-Chain rounds)

-- Whatever the loop of a new agent captures and however the server answers, the first POST has
-- number 1 and each one after it is at the same batch, events included, or at a batch with the
-- next number (mod 2^64): the next one if the POST before was delivered, the same if that had
-- events and failed transiently.
pub run_orders :
    (rounds : List Round) (agent_id : Text) (heartbeat : HeartbeatConfig) (start_time : ℕ)
    (ring : Option EventRing) (paths : List Entry)
    → Chain none (run rounds (start (new agent_id heartbeat start_time ring paths))).0.attempts
unfolding start new
run_orders rounds agent_id heartbeat start_time ring paths = run-Chain rounds none _ (refl, refl)
