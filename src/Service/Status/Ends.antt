-- ===== src/Service/Status/Ends.antt =====
-- agent/cg-agent/src/service/windows.rs: what has been reported when the service has ended.
use cyber_guard_enterprise.Service.Exit.{
  ServiceExit, clean, failed, deadline_expired, specific_code as exit_code, with_log_failure,
}
use cyber_guard_enterprise.Prelude.{
  true, false, ℕ, ◌≡◌, refl, sym, subst, List, [], ◌∷◌, Option, none, some, arith, inr, Text,
}
use cyber_guard_enterprise.Service.Status.{
  service_stopped, Report, Status, enter, progress, running, request_stop, stopped, look,
  advance_pending, tick, Event, a_step, runs, looks, ticks, a_stop, happens, happen, life,
  win32_code, specific_code,
}
use cyber_guard_enterprise.Service.Status.Legal.{happens-IsOpen}
use cyber_guard_enterprise.Service.Status.Reports.{IsLegal, IsOpen, EndsWith, IsCause, start-IsOpen}

happen-IsOpen : (events : List Event) (s : Status) → IsOpen s → IsOpen (happen events s)
unfolding happen
happen-IsOpen [] s k = k
happen-IsOpen (e ∷ events) s k = happen-IsOpen events (happens e s) (happens-IsOpen e s k)

-- A service that has ended, with what has been reported.
record IsClosed (reports : List Report) (s : Status) : Type 0 where
  ended : s.status.current_state ≡ service_stopped
  same : s.reported ≡ reports

happens-IsClosed :
    (e : Event) {reports : List Report} {s : Status}
    → IsClosed reports s
    → IsClosed reports (happens e s)
unfolding happens progress running look tick advance_pending request_stop
happens-IsClosed (a_step now) k = ground arith
happens-IsClosed (runs true now) k = ground arith
happens-IsClosed (runs false now) k = ground arith
happens-IsClosed (looks now) k = ground arith
happens-IsClosed (ticks now later more next) k = ground arith
happens-IsClosed a_stop k = ground arith

happen-IsClosed :
    (events : List Event) {reports : List Report} {s : Status}
    → IsClosed reports s
    → IsClosed reports (happen events s)
unfolding happen
happen-IsClosed [] k = k
happen-IsClosed (e ∷ events) k = happen-IsClosed events (happens-IsClosed e k)

-- The codes of the end are those of its cause.
codes-IsCause :
    (exit : ServiceExit) (failure : Option Text) (r : Report)
    → r.win32_exit_code ≡ win32_code (exit_code (with_log_failure exit failure))
    → r.service_specific_exit_code ≡ specific_code (exit_code (with_log_failure exit failure))
    → IsCause exit failure r
unfolding with_log_failure
codes-IsCause (clean undelivered) none r w c = (w, c)
codes-IsCause (clean undelivered) (some reason) r w c = (w, c)
codes-IsCause (failed code line) failure r w c = (w, c)
codes-IsCause (deadline_expired pending undelivered) failure r w c = (w, c)

-- The end of an open service is a legal report, the last one.
stopped_ends :
    (now : ℕ) (exit : ServiceExit) (failure : Option Text) (s : Status)
    → IsOpen s
    → let ended = stopped now (exit_code (with_log_failure exit failure)) s in
      IsClosed ended.reported ended × IsLegal ended.reported × EndsWith exit failure ended.reported
unfolding stopped enter
stopped_ends now exit failure s (k, open_) = (
  record { ended = refl; same = refl },
  subst (λ l. IsLegal (ended_report ∷ l)) (sym k.newest) (inr (open_, refl), (refl, refl), k.legal),
  (refl, refl, codes-IsCause exit failure ended_report refl refl),
)
  where
    specific : Option ℕ
    specific = exit_code (with_log_failure exit failure)

    ended_report : Report
    ended_report =
        (enter service_stopped 0 now (record s {
          status = record s.status {
            win32_exit_code = win32_code specific;
            service_specific_exit_code = specific_code specific;
          };
        })).status

-- Whatever the threads do before the end and after it, the reports are legal, and the last one is
-- STOPPED with the cause of the end.
pub life-IsLegal :
    (started : ℕ) (before : List Event) (ended : ℕ) (exit : ServiceExit) (failure : Option Text)
    (after : List Event)
    → IsLegal (life started before ended exit failure after).reported
      × EndsWith exit failure (life started before ended exit failure after).reported
unfolding life
life-IsLegal started before ended exit failure after =
    let (closed, legal, ends) =
      stopped_ends ended exit failure _ (happen-IsOpen before _ (start-IsOpen started)) in
    let same = (happen-IsClosed after closed).same in
    subst (λ l. IsLegal l × EndsWith exit failure l) (sym same) (legal, ends)
