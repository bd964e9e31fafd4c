-- ===== src/Service/Status/Legal.antt =====
-- agent/cg-agent/src/service/windows.rs: what the SCM is told over the life of the service.
use cyber_guard_enterprise.Prelude.{
  ◌∙◌, ℕ, ◌+◌, ◌-◌, ◌%◌, ◌^◌, ◌≤◌, ◌<◌, ◌≡◌, refl, sym, subst, ap, ◌&&◌, ◌||◌, not, and_true, Bool,
  true, false, arith, ◌⊎◌, inl, inr, leb, ltb, if◌then◌else◌,
}
use cyber_guard_enterprise.Service.Status.{
  State, service_start_pending, service_running, service_stop_pending, service_stopped, Report,
  Status, report, enter, progress, running, request_stop, look, advance, advance_pending, tick,
  Event, a_step, runs, looks, ticks, a_stop, happens, checkpoint_interval, start_pending_cap,
  stop_pending_cap, accept_stop_shutdown, first_check_point, is_start_pending, is_running,
}
use cyber_guard_enterprise.Service.Status.Reports.{
  rank, IsFormed, IsTimed, start_pending_of, IsLegal-IsFormed, kept_zero, report-IsKept, IsOpen,
}

running_true :
    (now : ℕ) (s : Status)
    → IsOpen s
    → s.status.current_state ≡ service_start_pending
    → IsOpen (enter service_running accept_stop_shutdown now s)
unfolding enter
running_true now s (k, open_) e =
    let (w, c) = kept_zero s open_ k in
    (
      report-IsKept _ s (record s { since = now; ticked = now }) k refl
          (inr (rw e (omega arith), refl)) (refl, refl, w, c) tt,
      omega arith,
    )

-- A pass of the look, of a service that is not yet stopping.
look_true :
    (now : ℕ) (s : Status)
    → IsOpen s
    → rank s.status.current_state < 2
    → IsOpen (enter service_stop_pending 0 now s)
unfolding enter
look_true now s (k, open_) early =
    let (w, c) = kept_zero s open_ k in
    (
      report-IsKept _ s (record s { since = now; ticked = now }) k refl (inr (early, refl))
          (refl, refl, w, c, omega arith) (omega arith),
      omega arith,
    )

early_of : (st : State) → (is_start_pending st || is_running st) ≡ true → rank st < 2
early_of service_start_pending e = omega arith
early_of service_running e = omega arith
early_of service_stop_pending e = cc
early_of service_stopped e = cc

look_by :
    (now : ℕ) (s : Status) (b : Bool)
    → (s.stop_requested
        && (is_start_pending s.status.current_state || is_running s.status.current_state))
      ≡ b
    → IsOpen s
    → IsOpen (if b then enter service_stop_pending 0 now s else s)
look_by now s true e k = look_true now s k (early_of s.status.current_state (and_true _ _ e).1)
look_by now s false e k = k

pub look-IsOpen : (now : ℕ) (s : Status) → IsOpen s → IsOpen (look now s)
unfolding look
look-IsOpen now s k = look_by now s _ refl k

-- The status with its next checkpoint.
abbrev ticked_report : Status → Report
ticked_report s = record s.status { check_point = (s.status.check_point + 1) % 2 ^ 32 }

advance_start :
    (set : ℕ) (s : Status)
    → IsOpen s
    → s.status.current_state ≡ service_start_pending
    → IsOpen (report (ticked_report s) (record s { ticked = set }))
advance_start set s (k, open_) e =
    let formed = subst (λ st. IsFormed st s.status) e (IsLegal-IsFormed s.status k.older k.legal) in
    (
      report-IsKept (ticked_report s) s (record s { ticked = set }) k refl
          (inl (refl, ap first_check_point e, refl))
          (subst (λ st. IsFormed st (ticked_report s)) (sym e) formed)
          (subst (λ st. IsTimed st (report (ticked_report s) (record s { ticked = set }))) (sym e)
            tt),
      open_,
    )

advance_stop :
    (now later set : ℕ) (s : Status)
    → now ≤ later
    → later ≤ set
    → leb checkpoint_interval (now - s.ticked) ≡ true
    → ltb (later - s.since) stop_pending_cap ≡ true
    → IsOpen s
    → s.status.current_state ≡ service_stop_pending
    → IsOpen (report (ticked_report s) (record s { ticked = set }))
advance_stop now later set s one two waited early (k, open_) e =
    let (a, h, w, c, old) =
      subst (λ st. IsFormed st s.status) e (IsLegal-IsFormed s.status k.older k.legal) in
    let timed = subst (λ st. IsTimed st s) e k.timed in
    (
      report-IsKept (ticked_report s) s (record s { ticked = set }) k refl
          (inl (refl, ap first_check_point e, refl))
          (subst (λ st. IsFormed st (ticked_report s)) (sym e) (a, h, w, c, ground arith))
          (subst (λ st. IsTimed st (report (ticked_report s) (record s { ticked = set }))) (sym e)
            (ground arith)),
      open_,
    )

advance_by :
    (now later set cap : ℕ) (s : Status) (b : Bool)
    → (leb checkpoint_interval (now - s.ticked) && ltb (later - s.since) cap) ≡ b
    → IsOpen s
    → ((s.status.current_state ≡ service_start_pending)
        ⊎ ((s.status.current_state ≡ service_stop_pending) × (cap ≡ stop_pending_cap)))
    → now ≤ later
    → later ≤ set
    → IsOpen (if b then report (ticked_report s) (record s { ticked = set }) else s)
advance_by now later set cap s true e k (inl start) one two = advance_start set s k start
advance_by now later set cap s true e k (inr (stop, capped)) one two =
    let (waited, early) = and_true _ _ e in
    advance_stop now later set s one two waited
      (subst (λ c. ltb (later - s.since) c ≡ true) capped early) k stop
advance_by now later set cap s false e k pending one two = k

advance_at :
    (st : State) (now later set : ℕ) (s : Status)
    → s.status.current_state ≡ st
    → IsOpen s
    → now ≤ later
    → later ≤ set
    → IsOpen (advance_pending st now later set s)
unfolding advance_pending advance
advance_at service_start_pending now later set s e k one two =
    advance_by now later set start_pending_cap s _ refl k (inl e) one two
advance_at service_stop_pending now later set s e k one two =
    advance_by now later set stop_pending_cap s _ refl k (inr (e, refl)) one two
advance_at service_running now later set s e k one two = k
advance_at service_stopped now later set s e k one two = k

progress_by :
    (now : ℕ) (s : Status) (b : Bool)
    → is_start_pending s.status.current_state ≡ b
    → IsOpen s
    → IsOpen (if b then record s { since = now } else s)
progress_by now s true e (k, open_) =
    let start = start_pending_of s.status.current_state e in
    (
      record {
        older = k.older;
        newest = k.newest;
        legal = k.legal;
        timed = subst (λ st. IsTimed st (record s { since = now })) (sym start) tt;
      },
      open_,
    )
progress_by now s false e k = k

request-IsOpen : (s : Status) → IsOpen s → IsOpen (request_stop s)
unfolding request_stop
request-IsOpen s (k, open_) = (
  record {
    older = k.older;
    newest = k.newest;
    legal = k.legal;
    timed = timed_at s.status.current_state k.timed;
  },
  open_,
)
  where
    timed_at : (st : State) → IsTimed st s → IsTimed st (record s { stop_requested = true })
    timed_at service_start_pending t = tt
    timed_at service_running t = tt
    timed_at service_stop_pending t = t
    timed_at service_stopped t = tt

between-IsOpen :
    (b : Bool) (s : Status)
    → IsOpen s
    → IsOpen (if b then record s { stop_requested = true } else s)
unfolding request_stop
between-IsOpen true s k = request-IsOpen s k
between-IsOpen false s k = k

-- A service that runs, from one that was starting, whatever the flag is by then.
running_by :
    (now : ℕ) (s s' : Status) (b : Bool)
    → (is_start_pending s.status.current_state && not s.stop_requested) ≡ b
    → s'.status ≡ s.status
    → IsOpen s'
    → IsOpen
        (if◌then◌else◌ {A = Bool × Status} b
          (true, enter service_running accept_stop_shutdown now s')
          (false, s')).1
running_by now s s' true e same k = running_true now s' k (
    ap (λ (r : Report). r.current_state) same
    ∙ start_pending_of s.status.current_state (and_true _ _ e).0)
running_by now s s' false e same k = k

between_same :
    (b : Bool) (s : Status)
    → (if b then record s { stop_requested = true } else s).status ≡ s.status
between_same true s = refl
between_same false s = refl

pub running-IsOpen :
    (stop_between : Bool) (now : ℕ) (s : Status) → IsOpen s → IsOpen (running stop_between now s).1
unfolding running
running-IsOpen b now s k = running_by now s _ _ refl (between_same b s) (between-IsOpen b s k)

-- Every step of the service's threads keeps a service open that has not ended.
pub happens-IsOpen : (e : Event) (s : Status) → IsOpen s → IsOpen (happens e s)
unfolding happens progress tick
happens-IsOpen (a_step now) s k = progress_by now s _ refl k
happens-IsOpen (runs b now) s k = running-IsOpen b now s k
happens-IsOpen (looks now) s k = look-IsOpen now s k
happens-IsOpen (ticks now later more next) s k = look-IsOpen next _ (
    advance_at s.status.current_state now (now + later) (now + later + more) s refl k (omega arith)
      (omega arith))
happens-IsOpen a_stop s k = request-IsOpen s k
