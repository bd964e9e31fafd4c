-- ===== src/Delivery/Lifetime.antt =====
-- agent/cg-agent/src/delivery.rs: the count of the events over a whole run and the final attempt.
use cyber_guard_enterprise.Prelude.{
  ℕ, ◌+◌, ◌%◌, ◌^◌, ◌<◌, ◌≡◌, refl, ◌∙◌, Bool, true, false, List, [], ◌∷◌, ◌++◌, Option, none, some,
  arith, length,
}
use cyber_guard_enterprise.Etw.Types.{RingEvent}
use cyber_guard_enterprise.Delivery.Batches.{Batch, Pending, Delivery, Response, classify}
use cyber_guard_enterprise.Delivery.{
  Loop, Round, Flow, goes_on, returns, fails, prepare, capture_into, await, round, ring_len,
  pending_count, finish, final_batch,
}
use cyber_guard_enterprise.Delivery.Steps.{capacity, dropped_total, form_batch_lem}
use cyber_guard_enterprise.Delivery.Run.{
  Trace, run, ending, attempted, round_trace, and_then, delivered_count, accepted_count,
}
use cyber_guard_enterprise.Delivery.Accounts.{
  Accounts, held, capture_into-Accounts, prepare-Accounts, settle-Accounts,
}

await-Accounts :
    (in_flight : Option Pending) (r : Round) (response : Option Response) (stopped : Bool)
    (l : Loop)
    → 0 < capacity l.delivery.ring
    → l.in_flight ≡ in_flight
    → Accounts 0
        (delivered_count (attempted in_flight response))
        l
        (ending (await in_flight (record r { response = response; stopped = stopped }) l))
unfolding await delivered_count
await-Accounts none r response true l room e = (refl, omega arith)
await-Accounts none r response false l room e = (refl, omega arith)
await-Accounts (some p) r none stopped l room e = (refl, omega arith)
await-Accounts (some p) r (some response) stopped l room e =
    let (same, count) = settle-Accounts (classify response) stopped p l room e in
    (same, omega (arith, count))

round-Accounts :
    (r : Round) (l : Loop)
    → 0 < capacity l.delivery.ring
    → Accounts
        (accepted_count r.captured)
        (delivered_count (round_trace r l).attempts)
        l
        (ending (round r l))
unfolding round
round-Accounts r l room =
    let l₁ = capture_into r.captured l in
    let l₂ = prepare r.now l₁ in
    let (same₁, count₁) = capture_into-Accounts r.captured l room in
    let (same₂, count₂) = prepare-Accounts r.now l₁ in
    let (same₃, count₃) =
      await-Accounts l₂.in_flight r r.response r.stopped l₂ (omega (arith, same₁, same₂)) refl in
    (same₃ ∙ same₂ ∙ same₁, omega (arith, count₁, count₂, count₃))

accepted_count-append :
    (xs ys : List (RingEvent × ℕ))
    → accepted_count (xs ++ ys) ≡ accepted_count xs + accepted_count ys
unfolding accepted_count
accepted_count-append [] ys = omega arith
accepted_count-append (x ∷ xs) ys = omega (arith, accepted_count-append xs ys)

delivered_count-append :
    (xs ys : List (Batch × Response))
    → delivered_count (xs ++ ys) ≡ delivered_count xs + delivered_count ys
unfolding delivered_count
delivered_count-append [] ys = omega arith
delivered_count-append (x ∷ xs) ys = omega (arith, delivered_count-append xs ys)

-- What `Accounts` says of a trace and of the flow that it ends in.
abbrev RunAccounts : Loop → Trace × Flow → Type 0
RunAccounts l (trace, flow) =
    Accounts (accepted_count trace.captured) (delivered_count trace.attempts) l (ending flow)

and_then-Accounts :
    (trace : Trace) (flow : Flow) (rest : Loop → Trace × Flow) (l : Loop)
    → 0 < capacity l.delivery.ring
    → RunAccounts l (trace, flow)
    → ((l' : Loop) → 0 < capacity l'.delivery.ring → RunAccounts l' (rest l'))
    → RunAccounts l (and_then trace flow rest)
and_then-Accounts trace (goes_on l') rest l room (same, count) h =
    let (same', count') = h l' (omega (arith, same)) in
    let t = (rest l').0 in
    (
      same' ∙ same,
      omega (
        arith,
        count,
        count',
        accepted_count-append trace.captured t.captured,
        delivered_count-append trace.attempts t.attempts,
      ),
    )
and_then-Accounts trace (returns l') rest l room a h = a
and_then-Accounts trace (fails l') rest l room a h = a

pub run-Accounts :
    (rounds : List Round) (l : Loop) → 0 < capacity l.delivery.ring → RunAccounts l (run rounds l)
unfolding run accepted_count delivered_count
run-Accounts [] l room = (refl, omega arith)
run-Accounts (r ∷ rounds) l room =
    and_then-Accounts (round_trace r l) (round r l) (run rounds) l room (round-Accounts r l room)
      (run-Accounts rounds)

final_batch_counts :
    (in_flight : Option Pending) (d : Delivery)
    → let (batch, d') = final_batch in_flight d in
      (dropped_total d'.ring ≡ dropped_total d.ring)
      × (ring_len d'.ring + length batch.events ≡ ring_len d.ring + pending_count in_flight)
unfolding final_batch
final_batch_counts (some p) d = (refl, refl)
final_batch_counts none d =
    let (numbered, current, configured, bounded, moves) = form_batch_lem d in
    let (moved, dropped, same) = moves in (dropped, omega (arith, moved))

-- Over the whole life of an agent that captures (its ring has room for an event), whatever the
-- events, the server's responses and the shutdown: when the loop has ended and `finish` has made
-- the final attempt, the events delivered, those reported as undelivered and the dropped total
-- come to what the agent held and had dropped at first and the events that the ring then took
-- (mod 2^64).
pub finish_accounts :
    (rounds : List Round) (l : Loop) (deadline : Option ℕ) (now : ℕ) (response : Response)
    (now' : ℕ)
    → 0 < capacity l.delivery.ring
    → let (trace, flow) = run rounds l in
      let last = ending flow in
      let final = (final_batch last.in_flight last.delivery).0 in
      let (finished, d) = finish last.in_flight deadline now response now' last.delivery in
      (dropped_total d.ring
          + finished.undelivered
          + delivered_count (trace.attempts ++ (final, response) ∷ []))
        % 2 ^ 64
      ≡ (held l + accepted_count trace.captured) % 2 ^ 64
unfolding finish delivered_count
finish_accounts rounds l deadline now response now' room =
    let (trace, flow) = run rounds l in
    let last = ending flow in
    let final = (final_batch last.in_flight last.delivery).0 in
    let (same, count) = run-Accounts rounds l room in
    let (dropped, moved) = final_batch_counts last.in_flight last.delivery in
    ground
      (arith, count, dropped, moved, delivered_count-append trace.attempts ((final, response) ∷ []))
