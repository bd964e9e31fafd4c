-- ===== src/Etw/Dispatch/Correlation.antt =====
-- agent/cg-agent/src/etw/dispatch.rs: a Launch, whatever is captured after it, and the Terminate
-- of its process.
use cyber_guard_enterprise.Prelude.{
  ℕ, ◌≡◌, refl, ap, subst, ◌∙◌, ◌≢◌, inl, inr, Bool, true, List, [], ◌∷◌, Option, none, some, Text,
  arith, All, Option-cases,
}
use cyber_guard_enterprise.Etw.Types.{launch, terminate, process, ActivityId}
use cyber_guard_enterprise.Etw.Ring.{EventRing, enqueue_or_drop}
use cyber_guard_enterprise.Etw.Cache
use cyber_guard_enterprise.Etw.Cache.{Entries}
use cyber_guard_enterprise.Etw.Cache.Laws.{
  IsMap, created_time-remove, created_time-insert, created_time-sweep, remove-IsMap, insert-IsMap,
  sweep_counts,
}
use cyber_guard_enterprise.Etw.Dispatch.{
  RawProcessRecord, RawNetworkRecord, NetworkDiscards, filetime_to_unix_nanos, created, captured,
  dispatch_record, dispatch_network_record,
}

-- The state that the session's callbacks and its hygiene thread share.
pub record Capture : Type 0 where
  pub cache : Entries
  pub ring : EventRing
  pub discards : NetworkDiscards

-- What can happen to it: a record of either provider, or a sweep with what its probe finds.
pub data Input : Type 0 where
  process_record : RawProcessRecord → Text → ℕ → Input
  network_record : RawNetworkRecord → Option ℕ → Text → ℕ → Input
  swept : (ℕ → Bool) → Input

unfoldable pub step : Capture → Input → Capture
step c (process_record raw uuid now) =
    let (cache, ring) = dispatch_record raw uuid now c.cache c.ring in
    record c { cache = cache; ring = ring }
step c (network_record raw excluded uuid now) =
    let (ring, discards) =
      dispatch_network_record raw excluded uuid now c.cache c.ring c.discards in
    record c { ring = ring; discards = discards }
step c (swept is_alive) = record c { cache = (Cache.sweep is_alive (λ m. m) c.cache).0 }

unfoldable pub steps : Capture → List Input → Capture
steps c [] = c
steps c (i ∷ is) = steps (step c i) is

-- The input neither starts nor ends the process, nor finds it dead.
abbrev pub LeavesAlone : ℕ → Input → Type 0
LeavesAlone pid (process_record raw uuid now) = raw.pid ≢ pid
LeavesAlone pid (network_record raw excluded uuid now) = Unit {0}
LeavesAlone pid (swept is_alive) = is_alive pid ≡ true

cache-created :
    (pid : ℕ) (raw : RawProcessRecord) (nanos : ℕ) (cache : Entries) (a : ActivityId)
    → raw.pid ≢ pid
    → IsMap cache
    → let after = (created raw nanos cache a).1 in
      IsMap after × (Cache.created_time pid after ≡ Cache.created_time pid cache)
unfolding created Cache.consult_and_purge
cache-created pid raw nanos cache launch h m = (
  insert-IsMap raw.pid nanos cache m,
  ground (arith, created_time-insert pid raw.pid nanos cache),
)
cache-created pid raw nanos cache terminate h m =
    (remove-IsMap raw.pid cache m, ground (arith, created_time-remove pid raw.pid cache))

cache-dispatch :
    (pid : ℕ) (raw : RawProcessRecord) (uuid : Text) (now : ℕ) (cache : Entries) (ring : EventRing)
    → raw.pid ≢ pid
    → IsMap cache
    → let after = (dispatch_record raw uuid now cache ring).0 in
      IsMap after × (Cache.created_time pid after ≡ Cache.created_time pid cache)
unfolding dispatch_record
cache-dispatch pid raw uuid now cache ring h m =
    elim (Option-cases (filetime_to_unix_nanos raw.filetime_100ns)) [
      | inl early ↦ rw (early, dispatch_record) (m, refl)
      | inr (nanos, e) ↦
          rw (e, dispatch_record) (cache-created pid raw nanos cache raw.activity_id h m)
    ]

cache-step :
    (pid : ℕ) (c : Capture) (i : Input)
    → LeavesAlone pid i
    → IsMap c.cache
    → IsMap (step c i).cache
      × (Cache.created_time pid (step c i).cache ≡ Cache.created_time pid c.cache)
unfolding step
cache-step pid c (process_record raw uuid now) h m =
    cache-dispatch pid raw uuid now c.cache c.ring h m
cache-step pid c (network_record raw excluded uuid now) h m = (m, refl)
cache-step pid c (swept is_alive) h m = (
  (sweep_counts is_alive (λ m. m) c.cache m).0,
  created_time-sweep is_alive (λ m. m) c.cache pid m ∙ rw h,
)

cache-steps :
    (pid : ℕ) (c : Capture) (is : List Input)
    → All (LeavesAlone pid) is
    → IsMap c.cache
    → Cache.created_time pid (steps c is).cache ≡ Cache.created_time pid c.cache
unfolding steps
cache-steps pid c [] h m = refl
cache-steps pid c (i ∷ is) h m =
    let (m', e) = cache-step pid c i h.0 m in cache-steps pid (step c i) is h.1 m' ∙ e

dispatch_dated :
    (raw : RawProcessRecord) (uuid : Text) (now nanos : ℕ) (cache : Entries) (ring : EventRing)
    (a : ActivityId)
    → raw.activity_id ≡ a
    → filetime_to_unix_nanos raw.filetime_100ns ≡ some nanos
    → let (held, cache') = created raw nanos cache a in
      dispatch_record raw uuid now cache ring
      ≡ (cache', enqueue_or_drop (process (captured raw uuid nanos held)) now ring)
unfolding dispatch_record
dispatch_dated raw uuid now nanos cache ring a h e =
    rw (e, dispatch_record)
      (ap
        (λ (x : ActivityId).
          let (held, cache') = created raw nanos cache x in
          (cache', enqueue_or_drop (process (captured raw uuid nanos held)) now ring))
        h)

-- A launch holds the process's creation time from then on.
launch-holds :
    (c : Capture) (raw : RawProcessRecord) (uuid : Text) (now nanos : ℕ)
    → raw.activity_id ≡ launch
    → filetime_to_unix_nanos raw.filetime_100ns ≡ some nanos
    → IsMap c.cache
    → let after = (step c (process_record raw uuid now)).cache in
      IsMap after × (Cache.created_time raw.pid after ≡ some nanos)
unfolding step created
launch-holds c raw uuid now nanos a e m =
    rw (dispatch_dated raw uuid now nanos c.cache c.ring launch a e, step)
      (
        insert-IsMap raw.pid nanos c.cache m,
        ground (arith, created_time-insert raw.pid raw.pid nanos c.cache),
      )

terminate-reports :
    (c : Capture) (raw : RawProcessRecord) (uuid : Text) (now born died : ℕ)
    → raw.activity_id ≡ terminate
    → filetime_to_unix_nanos raw.filetime_100ns ≡ some died
    → Cache.created_time raw.pid c.cache ≡ some born
    → let after = step c (process_record raw uuid now) in
      (after.ring ≡ enqueue_or_drop (process (captured raw uuid died (some born))) now c.ring)
      × (Cache.created_time raw.pid after.cache ≡ none)
unfolding step created Cache.consult_and_purge
terminate-reports c raw uuid now born died a e h =
    rw (dispatch_dated raw uuid now died c.cache c.ring terminate a e, step)
      (
        ap (λ held. enqueue_or_drop (process (captured raw uuid died held)) now c.ring) h,
        ground (arith, created_time-remove raw.pid raw.pid c.cache),
      )

-- A process's Terminate carries the timestamp of its Launch as the creation time, whatever records of
-- other processes, connections and sweeps that find the process alive came between the two, and
-- the cache no longer holds the process after it. The two timestamps are not before 1970.
pub terminate-correlates :
    (c : Capture) (started ended : RawProcessRecord) (uuid uuid' : Text) (now now' : ℕ)
    (born died : ℕ) (between : List Input)
    → IsMap c.cache
    → started.activity_id ≡ launch
    → ended.activity_id ≡ terminate
    → ended.pid ≡ started.pid
    → filetime_to_unix_nanos started.filetime_100ns ≡ some born
    → filetime_to_unix_nanos ended.filetime_100ns ≡ some died
    → All (LeavesAlone started.pid) between
    → let before = steps (step c (process_record started uuid now)) between in
      let after = step before (process_record ended uuid' now') in
      (after.ring
        ≡ enqueue_or_drop (process (captured ended uuid' died (some born))) now' before.ring)
      × (Cache.created_time started.pid after.cache ≡ none)
terminate-correlates c started ended uuid uuid' now now' born died between m a b p e e' quiet =
    let (m', held) = launch-holds c started uuid now born a e m in
    let before = steps (step c (process_record started uuid now)) between in
    let still =
      cache-steps started.pid (step c (process_record started uuid now)) between quiet m' ∙ held in
    let (reported, purged) =
      terminate-reports before ended uuid' now' born died b e' (rw p still) in
    let after = step before (process_record ended uuid' now') in
    (reported, subst (λ pid. Cache.created_time pid after.cache ≡ none) p purged)
