-- ===== src/Delivery/Outage.antt =====
-- agent/cg-agent/src/delivery.rs: a batch in flight while the server fails transiently.
use cyber_guard_enterprise.Prelude.{
  ℕ, suc, ◌≡◌, refl, sym, ap, subst, ◌∙◌, inl, inr, Bool, false, List, [], ◌∷◌, ◌++◌, Option, none,
  some, length, All,
}
use cyber_guard_enterprise.Delivery.Batches.{
  Batch, Pending, Response, Attempt, delivered, transient_failure, classify,
}
use cyber_guard_enterprise.Delivery.{
  Loop, Round, Flow, goes_on, prepare, capture_into, await, round, settle, back_off, is_nil,
}
use cyber_guard_enterprise.Delivery.Steps.{prepare-Prepared}
use cyber_guard_enterprise.Delivery.Run.{Trace, run, round_trace}

-- A round whose POST fails transiently, without a shutdown.
pub record Fails (r : Round) : Type 0 where
  pub response : Response
  pub answered : r.response ≡ some response
  pub failing : classify response ≡ some transient_failure
  pub running : r.stopped ≡ false

-- A round whose POST is acknowledged.
pub record Acks (r : Round) : Type 0 where
  pub response : Response
  pub answered : r.response ≡ some response
  pub acked : classify response ≡ some delivered

-- A batch with events is in flight.
abbrev Flying : Batch → Loop → Type 0
Flying b l = (p : Pending) × (l.in_flight ≡ some p) × (p.batch ≡ b)

prepare-Flying : (b : Batch) (now : ℕ) (l : Loop) → Flying b l → Flying b (prepare now l)
prepare-Flying b now l (p, flying, same) = elim (prepare-Prepared now l) [
  | inl (kept, numbered, configured, ring) ↦ (p, kept ∙ flying, same)
  | inr (batch, f) ↦ absurd (none-some (sym f.idle ∙ flying))
]
  where
    none-some : none ≡ some p → ⊥
    none-some e = cc

settle-fails :
    (stopped : Bool) (p : Pending) (l : Loop)
    → is_nil p.batch.events ≡ false
    → stopped ≡ false
    → (l' : Loop) × (settle (some transient_failure) stopped p l ≡ goes_on l') × Flying p.batch l'
unfolding settle back_off
settle-fails stopped p l events running = rw (events, running) (_, refl, (_, refl, refl))

-- What a round makes of an answered POST.
round-settle :
    (r : Round) (l : Loop) (p : Pending) (response : Response) (a : Option Attempt)
    → (prepare r.now (capture_into r.captured l)).in_flight ≡ some p
    → r.response ≡ some response
    → classify response ≡ a
    → (round r l ≡ settle a r.stopped p (prepare r.now (capture_into r.captured l)))
      × ((round_trace r l).attempts ≡ (p.batch, response) ∷ [])
unfolding round await
round-settle r l p response a flying answered is = rw (flying, answered, is) (refl, refl)

-- The attempts of a run that goes on after its first round.
run-goes_on :
    (r : Round) (rounds : List Round) (l l' : Loop)
    → round r l ≡ goes_on l'
    → (run (r ∷ rounds) l).0.attempts ≡ (round_trace r l).attempts ++ (run rounds l').0.attempts
      × ((run (r ∷ rounds) l).1 ≡ (run rounds l').1)
unfolding run
run-goes_on r rounds l l' e = rw e (refl, refl)

-- Attempts at one batch.
abbrev pub At : Batch → Batch × Response → Type 0
At b (b', response) = b' ≡ b

-- What an outage and its end come to, from a loop on.
abbrev Delivers : Batch → List Round → Trace × Flow → Type 0
Delivers b rounds (trace, flow) =
    All (At b) trace.attempts
    × (length trace.attempts ≡ suc (length rounds))
    × ((l' : Loop) × (flow ≡ goes_on l') × (l'.in_flight ≡ none))

acknowledged :
    (final : Round) (b : Batch) (l : Loop)
    → Flying b l
    → Acks final
    → Delivers b [] (run (final ∷ []) l)
unfolding run settle
acknowledged final b l flying acks =
    let (p, e, same) = prepare-Flying b final.now (capture_into final.captured l) flying in
    let (goes, attempts) =
      round-settle final l p acks.response (some delivered) e acks.answered acks.acked in
    let (attempts', flow) = run-goes_on final [] l _ goes in
    let all : (run (final ∷ []) l).0.attempts ≡ (p.batch, acks.response) ∷ [] =
      attempts' ∙ ap (λ x. x ++ []) attempts in
    (subst (All (At b)) (sym all) (same, tt), ap length all, (_, flow, refl))

keeps_failing :
    (r : Round) (rounds : List Round) (final : Round) (b : Batch) (l : Loop)
    → is_nil b.events ≡ false
    → Flying b l
    → Fails r
    → ((l' : Loop) → Flying b l' → Delivers b rounds (run (rounds ++ final ∷ []) l'))
    → Delivers b (r ∷ rounds) (run (r ∷ rounds ++ final ∷ []) l)
keeps_failing r rounds final b l events flying f h =
    let (p, e, same) = prepare-Flying b r.now (capture_into r.captured l) flying in
    let (settles, attempts) =
      round-settle r l p f.response (some transient_failure) e f.answered f.failing in
    let (l', goes, flying') =
      settle-fails r.stopped p (prepare r.now (capture_into r.captured l))
        (ap (λ b. is_nil b.events) same ∙ events) f.running in
    let (attempts', flow) = run-goes_on r (rounds ++ final ∷ []) l l' (settles ∙ goes) in
    let (at, count, (l'', goes', idle)) = h l' (subst (λ b. Flying b l') same flying') in
    let all : (run (r ∷ rounds ++ final ∷ []) l).0.attempts
        ≡ (p.batch, f.response) ∷ (run (rounds ++ final ∷ []) l').0.attempts =
      attempts' ∙ ap (λ x. x ++ (run (rounds ++ final ∷ []) l').0.attempts) attempts in
    (
      subst (All (At b)) (sym all) (same, at),
      ap length all ∙ ap suc count,
      (l'', flow ∙ goes', idle),
    )

outage :
    (rounds : List Round) (final : Round) (b : Batch) (l : Loop)
    → is_nil b.events ≡ false
    → Flying b l
    → All Fails rounds
    → Acks final
    → Delivers b rounds (run (rounds ++ final ∷ []) l)
outage [] final b l events flying failing acks = acknowledged final b l flying acks
outage (r ∷ rounds) final b l events flying (f, failing) acks =
    keeps_failing r rounds final b l events flying f
      (λ l' flying'. outage rounds final b l' events flying' failing acks)

-- With a batch with events in flight, however many rounds fail transiently, each attempts the same
-- batch, and the first POST that the server acknowledges, which also attempts it, ends with none
-- in flight; the loop goes on all the while.
pub outage_delivers :
    (rounds : List Round) (final : Round) (p : Pending) (l : Loop)
    → is_nil p.batch.events ≡ false
    → l.in_flight ≡ some p
    → All Fails rounds
    → Acks final
    → let (trace, flow) = run (rounds ++ final ∷ []) l in
      All (At p.batch) trace.attempts
      × (length trace.attempts ≡ suc (length rounds))
      × ((l' : Loop) × (flow ≡ goes_on l') × (l'.in_flight ≡ none))
outage_delivers rounds final p l events flying failing acks =
    outage rounds final p.batch l events (p, flying, refl) failing acks
