-- ===== src/Etw/Dispatch/Tests.antt =====
-- Tests of the dispatch, and the theorems about it at concrete inputs.
use cyber_guard_enterprise.Prelude.{
  ℕ, ◌+◌, ◌%◌, ◌^◌, ◌≡◌, refl, true, List, [], ◌∷◌, none, some, bytes, arith, All,
}
use cyber_guard_enterprise.Prelude.Int.{pos, negsuc}
use cyber_guard_enterprise.Etw.Types.{launch, terminate, process}
use cyber_guard_enterprise.Etw.Ring.{enqueue_or_drop}
use cyber_guard_enterprise.Etw.Cache
use cyber_guard_enterprise.Etw.Dispatch.{
  RawProcessRecord, RawNetworkRecord, no_discards, filetime_to_unix_nanos, first_discard, captured,
}
use cyber_guard_enterprise.Etw.Dispatch.Discards.{discard_all, sample, first_discard-discard_all}
use cyber_guard_enterprise.Etw.Dispatch.Correlation.{
  Capture, Input, process_record, network_record, swept, step, steps, terminate-correlates,
}
use cyber_guard_enterprise.Etw.Dispatch.Own.{IsOther, dispatch_all, dispatch_all-IsOther}

abbrev epoch_plus : ℕ → RawProcessRecord
epoch_plus n = record {
  activity_id = launch;
  pid = 7;
  parent_pid = 4;
  image_file_name = bytes "cmd.exe";
  command_line = [];
  subject_user_sid = bytes "S-1-5-18";
  filetime_100ns = pos (116_444_736_000_000_000 + n);
  exit_status = none;
}

abbrev ended : RawProcessRecord
ended = record (epoch_plus 9) { activity_id = terminate; exit_status = some (pos 0) }

abbrev connection : RawNetworkRecord
connection = record {
  event_id = 12;
  pid = 7 ∷ 0 ∷ 0 ∷ 0 ∷ [];
  saddr = 10 ∷ 0 ∷ 0 ∷ 1 ∷ [];
  daddr = 10 ∷ 0 ∷ 0 ∷ 2 ∷ [];
  sport = 1 ∷ 0 ∷ [];
  dport = 0 ∷ 80 ∷ [];
  filetime_100ns = pos (116_444_736_000_000_000 + 4);
}

abbrev odd : RawNetworkRecord
odd = record connection { event_id = 13; pid = 7 ∷ [] }

abbrev empty : Capture
empty = record {
  cache = [];
  ring = record { capacity = 4; events = []; dropped_total = 0 };
  discards = no_discards;
}

timestamps :
    (filetime_to_unix_nanos (pos (116_444_736_000_000_000 + 3)) ≡ some 300)
    × (filetime_to_unix_nanos (pos 116_444_735_999_999_999) ≡ none)
    × (filetime_to_unix_nanos (negsuc 0) ≡ none)
unfolding filetime_to_unix_nanos
timestamps = (refl, refl, refl)

abbrev between : List Input
between =
    network_record connection none (bytes "u2") 20
    ∷ process_record (record (epoch_plus 5) { pid = 8 }) (bytes "u3") 21
    ∷ swept (λ pid. true)
    ∷ []

terminate-correlates_example :
    let before = steps (step empty (process_record (epoch_plus 3) (bytes "u1") 10)) between in
    let after = step before (process_record ended (bytes "u4") 30) in
    (after.ring
      ≡ enqueue_or_drop (process (captured ended (bytes "u4") 900 (some 300))) 30 before.ring)
    × (Cache.created_time 7 after.cache ≡ none)
unfolding filetime_to_unix_nanos
terminate-correlates_example =
    terminate-correlates empty (epoch_plus 3) ended (bytes "u1") (bytes "u4") 10 30 300 900 between
      tt refl refl refl refl refl (tt, (omega arith, (refl, tt)))

first_discard-discard_all_example :
    let d = discard_all (odd ∷ connection ∷ []) no_discards in
    (first_discard d ≡ some (sample odd)) × (d.total ≡ 2 % 2 ^ 64)
first_discard-discard_all_example = first_discard-discard_all odd (connection ∷ []) (omega arith)

dispatch_all-IsOther_example :
    All
      (IsOther 7)
      (dispatch_all
        (some 7)
        ((connection, bytes "u", 1, []) ∷ [])
        (empty.ring, no_discards)).0.events
dispatch_all-IsOther_example =
    dispatch_all-IsOther 7 ((connection, bytes "u", 1, []) ∷ []) (empty.ring, no_discards) tt
