-- ===== src/Etw/Dispatch/Own.antt =====
-- agent/cg-agent/src/etw/dispatch.rs: the agent's own connections, which its reports would
-- otherwise feed on.
use cyber_guard_enterprise.Prelude.{
  ℕ, ◌≡◌, refl, ◌≢◌, inl, inr, false, List, [], ◌∷◌, Option, none, some, Text, arith, All, ◌==◌,
  Option-cases, Bool-cases,
}
use cyber_guard_enterprise.Etw.Types.{RingEvent, process, network, logon}
use cyber_guard_enterprise.Etw.Ring.{EventRing}
use cyber_guard_enterprise.Etw.Ring.Valid.{enqueue-All}
use cyber_guard_enterprise.Etw.Cache.{Entries}
use cyber_guard_enterprise.Etw.Cache
use cyber_guard_enterprise.Etw.Network.{
  DecodedConnection, connection_direction, decode_pid, decode_connection,
}
use cyber_guard_enterprise.Etw.Network.Decoding.{decode_connection_pid}
use cyber_guard_enterprise.Etw.Dispatch.{
  RawNetworkRecord, NetworkDiscards, filetime_to_unix_nanos, is_excluded, connected,
  dispatch_connection, dispatch_network_record,
}

-- Not a connection of the process `own`.
abbrev pub IsOther : ℕ → ℕ × RingEvent → Type 0
IsOther own (at, process event) = Unit {0}
IsOther own (at, network event) = event.pid ≢ own
IsOther own (at, logon event) = Unit {0}

module _ (own : ℕ) (uuid : Text) (now : ℕ) (cache : Entries) where
  dispatch_connection-IsOther :
      (raw : RawNetworkRecord) (connection : Option DecodedConnection) (ring : EventRing)
      (discards : NetworkDiscards)
      → ((c : DecodedConnection) → connection ≡ some c → c.pid ≢ own)
      → All (IsOther own) ring.events
      → All (IsOther own) (dispatch_connection raw connection uuid now cache ring discards).0.events
  unfolding dispatch_connection
  dispatch_connection-IsOther raw none ring discards h a = a
  dispatch_connection-IsOther raw (some c) ring discards h a =
      elim (Option-cases (filetime_to_unix_nanos raw.filetime_100ns)) [
        | inl early ↦ rw (early, dispatch_connection) a
        | inr (nanos, e) ↦
            rw (e, dispatch_connection)
              (enqueue-All (IsOther own)
                (network (connected c uuid nanos (Cache.created_time c.pid cache))) now ring a
                (h c refl))
      ]

  not_excluded :
      (raw : RawNetworkRecord) (c : DecodedConnection)
      → is_excluded (some own) (decode_pid raw.pid) ≡ false
      → decode_connection raw.event_id raw.pid raw.saddr raw.daddr raw.sport raw.dport ≡ some c
      → c.pid ≢ own
  not_excluded raw c n e =
      let p : decode_pid raw.pid ≡ some c.pid = decode_connection_pid _ _ _ _ _ _ e in
      let q : (c.pid == own) ≡ false = rw p at n in ground arith

  dispatch-IsOther :
      (raw : RawNetworkRecord) (ring : EventRing) (discards : NetworkDiscards)
      → All (IsOther own) ring.events
      → All
          (IsOther own)
          (dispatch_network_record raw (some own) uuid now cache ring discards).0.events
  unfolding dispatch_network_record
  dispatch-IsOther raw ring discards a = elim (Option-cases (connection_direction raw.event_id)) [
    | inl other ↦ rw (other, dispatch_network_record) a
    | inr (direction, e) ↦ elim (Bool-cases (is_excluded (some own) (decode_pid raw.pid))) [
      | inl mine ↦ rw (e, mine, dispatch_network_record) a
      | inr foreign ↦
          rw (e, foreign, dispatch_network_record)
            (dispatch_connection-IsOther raw _ ring discards (λ c h. not_excluded raw c foreign h)
              a)
    ]
  ]

-- The network records of a sequence, each with its UUID, instant and the cache it finds.
pub dispatch_all :
    Option ℕ
    → List (RawNetworkRecord × Text × ℕ × Entries)
    → EventRing × NetworkDiscards
    → EventRing × NetworkDiscards
dispatch_all excluded [] s = s
dispatch_all excluded ((raw, uuid, now, cache) ∷ rest) s =
    dispatch_all excluded rest (dispatch_network_record raw excluded uuid now cache s.0 s.1)

-- Whatever network records arrive, no connection of the excluded process enters the ring.
pub dispatch_all-IsOther :
    (own : ℕ) (raws : List (RawNetworkRecord × Text × ℕ × Entries))
    (s : EventRing × NetworkDiscards)
    → All (IsOther own) s.0.events
    → All (IsOther own) (dispatch_all (some own) raws s).0.events
unfolding dispatch_all
dispatch_all-IsOther own [] s a = a
dispatch_all-IsOther own ((raw, uuid, now, cache) ∷ rest) s a =
    dispatch_all-IsOther own rest (dispatch_network_record raw (some own) uuid now cache s.0 s.1)
      (dispatch-IsOther own uuid now cache raw s.0 s.1 a)
