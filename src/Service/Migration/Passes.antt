-- ===== src/Service/Migration/Passes.antt =====
-- agent/cg-agent/src/service/windows.rs, serve: the pass over the old copies that follows a start which
-- goes on as committed. What the pass makes of each object is in Copies; here it is what it leaves of
-- the host: it deletes nothing but in the legacy directory, where the record's choice is to remove the
-- copies, and writes the copies that it did not reach into the record.
use cyber_guard_enterprise.Prelude.{List, [], ◌∷◌, Option, none, some}
use cyber_guard_enterprise.Prelude.Results.{Result, ok, err}
use cyber_guard_enterprise.Service.Migration.Arguments.{Choice, remove, keep, Texts, Request}
use cyber_guard_enterprise.Service.Migration.Host.{
  Record, Stop, Prepared, plain_start, console_layout, committed_start, Dir, Host, Environment,
}
use cyber_guard_enterprise.Service.Migration.Start.{prepare}

-- What a pass leaves of the legacy directory, however far it comes, and what it writes.
pub record Left : Type 0 where
  pub legacy : Option Dir
  pub not_reached : Option Texts

abbrev pub left_by : Choice → Option Dir → Option Dir → Option Dir
left_by keep before left = before
left_by remove before left = left

abbrev pub written_to : Record → Option Texts → Record
written_to r none = r
written_to r (some names) = record r { copies_not_reached = names }

abbrev pub pass_with : Left → Dir → Option Record → Host → Host
pass_with left d none h = h
pass_with left d (some r) h = record h {
  data_root = some (record d { saved = some (written_to r left.not_reached) });
  legacy = left_by r.choice h.legacy left.legacy;
}

abbrev pub pass_over : Left → Option Dir → Host → Host
pass_over left none h = h
pass_over left (some d) h = pass_with left d d.saved h

-- A start of the service: its environment and its request, and the pass, if there is one: it takes the
-- instance lock, and a service that goes on for so long.
pub record Turn : Type 0 where
  pub environment : Environment
  pub request : Option Request
  pub pass : Option Left

unfoldable pub after_prepare : Option Left → Result Stop Prepared × Host → Host
after_prepare none (r, h) = h
after_prepare (some left) (ok committed_start, h) = pass_over left h.data_root h
after_prepare (some left) (ok plain_start, h) = h
after_prepare (some left) (ok console_layout, h) = h
after_prepare (some left) (err stop, h) = h

-- One start after another.
unfoldable pub starts : List Turn → Host → Host
starts [] h = h
starts (t ∷ more) h = starts more (after_prepare t.pass (prepare t.environment t.request h))
