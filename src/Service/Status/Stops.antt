-- ===== src/Service/Status/Stops.antt =====
-- agent/cg-agent/src/service/windows.rs: what a stop that is asked for does to the reports.
use cyber_guard_enterprise.Prelude.{
  ℕ, ◌+◌, ◌-◌, ◌%◌, ◌^◌, ◌≤◌, ◌≡◌, ◌≢◌, refl, sym, ◌∙◌, ap, ◌&&◌, ◌||◌, Bool, true, false, List, [],
  ◌∷◌, ◌++◌, append_assoc, All, All-append, leb, ltb, if◌then◌else◌, arith,
}
use cyber_guard_enterprise.Service.Status.{
  State, service_start_pending, service_running, service_stop_pending, service_stopped, Report,
  Status, enter, progress, start_pending_cap, stop_pending_cap, running, request_stop, look,
  advance, advance_pending, tick, Event, a_step, runs, looks, ticks, a_stop, happens, happen,
  checkpoint_interval, is_start_pending, is_running,
}
use cyber_guard_enterprise.Service.Status.Reports.{rank}

abbrev pub IsNotRunning : Report → Type 0
IsNotRunning r = r.current_state ≢ service_running

-- Steps under a stop: the reports that they add are of no RUNNING.
pub record IsQuiet (s s' : Status) : Type 0 where
  pub added : List Report
  pub grown : s'.reported ≡ added ++ s.reported
  pub quiet : All IsNotRunning added
  pub asked : s'.stop_requested ≡ true

still : (s s' : Status) → s'.reported ≡ s.reported → s'.stop_requested ≡ true → IsQuiet s s'
still s s' e asked = record { added = []; grown = e; quiet = tt; asked = asked }

IsQuiet-trans : {a b c : Status} → IsQuiet a b → IsQuiet b c → IsQuiet a c
IsQuiet-trans p q = record {
  added = q.added ++ p.added;
  grown = q.grown ∙ ap (λ l. q.added ++ l) p.grown ∙ sym (append_assoc q.added p.added _);
  quiet = All-append IsNotRunning q.added p.added q.quiet p.quiet;
  asked = q.asked;
}

look-IsQuiet : (now : ℕ) (s : Status) → s.stop_requested ≡ true → IsQuiet s (look now s)
unfolding look enter
look-IsQuiet now s asked = by _ refl
  where
    by :
        (b : Bool)
        → (s.stop_requested
            && (is_start_pending s.status.current_state || is_running s.status.current_state))
          ≡ b
        → IsQuiet s (if b then enter service_stop_pending 0 now s else s)
    by true e = record {
      added = (enter service_stop_pending 0 now s).status ∷ [];
      grown = refl;
      quiet = ((λ p. cc), tt);
      asked = asked;
    }
    by false e = still s s refl asked

advance-IsQuiet :
    (cap now later set : ℕ) (s : Status)
    → s.status.current_state ≢ service_running
    → s.stop_requested ≡ true
    → IsQuiet s (advance cap now later set s)
unfolding advance
advance-IsQuiet cap now later set s other asked =
    by (leb checkpoint_interval (now - s.ticked) && ltb (later - s.since) cap)
  where
    next : Report
    next = record s.status { check_point = (s.status.check_point + 1) % 2 ^ 32 }

    by :
        (b : Bool)
        → IsQuiet s (
            if b then record s { status = next; ticked = set; reported = next ∷ s.reported } else s)
    by true = record { added = next ∷ []; grown = refl; quiet = (other, tt); asked = asked }
    by false = still s s refl asked

pending-IsQuiet :
    (st : State) (now later set : ℕ) (s : Status)
    → s.status.current_state ≡ st
    → s.stop_requested ≡ true
    → IsQuiet s (advance_pending st now later set s)
unfolding advance_pending
pending-IsQuiet service_start_pending now later set s e asked =
    advance-IsQuiet start_pending_cap now later set s (λ p. cc) asked
pending-IsQuiet service_stop_pending now later set s e asked =
    advance-IsQuiet stop_pending_cap now later set s (λ p. cc) asked
pending-IsQuiet service_running now later set s e asked = still s s refl asked
pending-IsQuiet service_stopped now later set s e asked = still s s refl asked

happens-IsQuiet : (e : Event) (s : Status) → s.stop_requested ≡ true → IsQuiet s (happens e s)
unfolding happens progress running tick request_stop
happens-IsQuiet (a_step now) s asked = still s _ (ground arith) (ground arith)
happens-IsQuiet (runs true now) s asked = still s _ (ground arith) (ground arith)
happens-IsQuiet (runs false now) s asked = still s _ (ground arith) (ground arith)
happens-IsQuiet (looks now) s asked = look-IsQuiet now s asked
happens-IsQuiet (ticks now later more next) s asked =
    let waited =
      pending-IsQuiet s.status.current_state now (now + later) (now + later + more) s refl asked in
    IsQuiet-trans waited (look-IsQuiet next _ waited.asked)
happens-IsQuiet a_stop s asked = still s _ refl refl

happen-IsQuiet :
    (events : List Event) (s : Status) → s.stop_requested ≡ true → IsQuiet s (happen events s)
unfolding happen
happen-IsQuiet [] s asked = still s s refl asked
happen-IsQuiet (e ∷ events) s asked =
    let first = happens-IsQuiet e s asked in
    IsQuiet-trans first (happen-IsQuiet events (happens e s) first.asked)

stop_begins :
    (now : ℕ) (s : Status) → s.stop_requested ≡ true → 2 ≤ rank (look now s).status.current_state
unfolding look enter
stop_begins now s asked = by s.status.current_state refl
  where
    by :
        (st : State)
        → s.status.current_state ≡ st
        → 2
          ≤ rank
              (if s.stop_requested
                  && (is_start_pending s.status.current_state || is_running s.status.current_state)
                then enter service_stop_pending 0 now s
                else s).status.current_state
    by service_start_pending e = ground arith
    by service_running e = ground arith
    by service_stop_pending e = ground arith
    by service_stopped e = ground arith

-- The steps in which a stop is asked for.
abbrev pub Asks : Event → Type 0
Asks (a_step now) = ⊥
Asks (looks now) = ⊥
Asks (runs stop_between now) = stop_between ≡ true
Asks (ticks now later more next) = ⊥
Asks a_stop = Unit

asked_by : (e : Event) (s : Status) → Asks e → (happens e s).stop_requested ≡ true
unfolding happens running request_stop enter
asked_by (a_step now) s asks = absurd asks
asked_by (looks now) s asks = absurd asks
asked_by (runs stop_between now) s asks = ground (arith, asks)
asked_by (ticks now later more next) s asks = absurd asks
asked_by a_stop s asks = refl

-- A step in which a stop is asked for, the handler's own or a `running` that had read the flag before:
-- the steps that follow it add no report of RUNNING, the request stays, and the next look of the
-- status thread leaves the service stopping or stopped.
pub asked-IsQuiet :
    (e : Event) (events : List Event) (now : ℕ) (s : Status)
    → Asks e
    → IsQuiet (happens e s) (happen events (happens e s))
      × (2 ≤ rank (look now (happen events (happens e s))).status.current_state)
asked-IsQuiet e events now s asks =
    let q = happen-IsQuiet events (happens e s) (asked_by e s asks) in
    (q, stop_begins now _ q.asked)
