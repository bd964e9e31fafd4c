-- ===== src/Etw/Network/Decoding.antt =====
-- agent/cg-agent/src/etw/network.rs: the decoding of a connection record against an encoding of
-- connections.
use cyber_guard_enterprise.Prelude.{
  ℕ, ◌/◌, ◌%◌, ◌^◌, ◌<◌, ◌≡◌, length-drop, All-drop, inl, inr, [], ◌∷◌, none, some, Text, All,
  length, take, text_eq, arith, ◌==◌, Bool-cases,
}
use cyber_guard_enterprise.Prelude.Fallible.{>>=-eq-some, subst_some}
use cyber_guard_enterprise.Net.{
  IpAddr, v4, v6, SocketAddr, socket_addr, to_ipv4_mapped, mapped_prefix,
}
use cyber_guard_enterprise.Etw.Types.{Direction, outbound, inbound}
use cyber_guard_enterprise.Etw.Network.{
  DecodedConnection, connection_direction, decode_pid, port, address, src_and_dst,
  decode_connection,
}

abbrev pub IsBytes : Text → Type 0
IsBytes s = All (λ b. b < 256) s

-- An address as the agent reports it: IPv4, or IPv6 that is not an IPv4-mapped address.
abbrev pub IsCanonical : IpAddr → Type 0
IsCanonical (v4 octets) = (length octets ≡ 4) × IsBytes octets
IsCanonical (v6 octets) = (length octets ≡ 16) × IsBytes octets × (to_ipv4_mapped octets ≡ none)

pub record IsEndpoint (e : SocketAddr) : Type 0 where
  pub address : IsCanonical e.ip
  pub port : e.port < 2 ^ 16

pub record IsConnection (c : DecodedConnection) : Type 0 where
  pub pid : c.pid < 2 ^ 32
  pub src : IsEndpoint c.src
  pub dst : IsEndpoint c.dst

-- The payload of a record of a connection, written from its documentation.
abbrev pub encode_pid : ℕ → Text
encode_pid pid = pid % 256 ∷ pid / 2 ^ 8 % 256 ∷ pid / 2 ^ 16 % 256 ∷ pid / 2 ^ 24 ∷ []

abbrev pub encode_port : ℕ → Text
encode_port p = p / 256 ∷ p % 256 ∷ []

abbrev pub octets : IpAddr → Text
octets (v4 o) = o
octets (v6 o) = o

-- The host's own end of a connection, and the peer's.
abbrev pub local_end : DecodedConnection → SocketAddr
local_end c = elim c.direction [ outbound ↦ c.src | inbound ↦ c.dst ]

abbrev pub remote_end : DecodedConnection → SocketAddr
remote_end c = elim c.direction [ outbound ↦ c.dst | inbound ↦ c.src ]

decode-encode_pid : (pid : ℕ) → decode_pid (encode_pid pid) ≡ some pid
unfolding decode_pid
decode-encode_pid pid = ground arith

decode-encode_port : (p : ℕ) → port (encode_port p) ≡ some p
unfolding port
decode-encode_port p = ground arith

address-octets : (a : IpAddr) → IsCanonical a → address (octets a) ≡ some a
unfolding address
address-octets (v4 o) h = ground arith
address-octets (v6 o) h = elim (Bool-cases (text_eq (take 12 o) mapped_prefix)) [
  | inl mapped ↦ cc (rw mapped at h.2)
  | inr plain ↦ rw plain (ground arith)
]

-- The fields of a record, each decoded.
decode_connection_fields :
    (event_id : ℕ) (pid saddr daddr sport dport : Text) (direction : Direction) (n s d : ℕ)
    (a b : IpAddr)
    → connection_direction event_id ≡ some direction
    → decode_pid pid ≡ some n
    → address saddr ≡ some a
    → port sport ≡ some s
    → address daddr ≡ some b
    → port dport ≡ some d
    → let ends = src_and_dst direction (socket_addr a s, socket_addr b d) in
      decode_connection event_id pid saddr daddr sport dport
      ≡ some (record { pid = n; direction = direction; src = ends.0; dst = ends.1 })
unfolding decode_connection
decode_connection_fields _ _ _ _ _ _ direction n s d a b e1 e2 e3 e4 e5 e6 =
    rw (e1, e2, e3, e4, e5, e6)

decode-encode_parts :
    (event_id : ℕ) (direction : Direction) (pid : ℕ) (src dst : SocketAddr)
    → IsEndpoint src
    → IsEndpoint dst
    → connection_direction event_id ≡ some direction
    → let c : DecodedConnection = record {
      pid = pid;
      direction = direction;
      src = src;
      dst = dst;
    } in
      decode_connection event_id
        (encode_pid c.pid)
        (octets (local_end c).ip)
        (octets (remote_end c).ip)
        (encode_port (local_end c).port)
        (encode_port (remote_end c).port)
      ≡ some c
decode-encode_parts event_id outbound pid src dst hs hd e =
    decode_connection_fields _ _ _ _ _ _ outbound pid src.port dst.port src.ip dst.ip e
      (decode-encode_pid pid) (address-octets src.ip hs.address) (decode-encode_port src.port)
      (address-octets dst.ip hd.address) (decode-encode_port dst.port)
decode-encode_parts event_id inbound pid src dst hs hd e =
    decode_connection_fields _ _ _ _ _ _ inbound pid dst.port src.port dst.ip src.ip e
      (decode-encode_pid pid) (address-octets dst.ip hd.address) (decode-encode_port dst.port)
      (address-octets src.ip hs.address) (decode-encode_port src.port)

-- A connection's record decodes to that connection, whichever of the two event ids of its
-- direction reports it: the initiator is `src` and the acceptor `dst` in both directions.
pub decode-encode :
    (event_id : ℕ) (c : DecodedConnection)
    → IsConnection c
    → connection_direction event_id ≡ some c.direction
    → decode_connection event_id
        (encode_pid c.pid)
        (octets (local_end c).ip)
        (octets (remote_end c).ip)
        (encode_port (local_end c).port)
        (encode_port (remote_end c).port)
      ≡ some c
decode-encode event_id c h e =
    decode-encode_parts event_id c.direction c.pid c.src c.dst h.src h.dst e

decode_pid_bound : (s : Text) {n : ℕ} → IsBytes s → decode_pid s ≡ some n → n < 2 ^ 32
unfolding decode_pid
decode_pid_bound (a ∷ b ∷ c ∷ d ∷ []) h e = ground arith
decode_pid_bound _ h e = cc

port_bound : (s : Text) {n : ℕ} → IsBytes s → port s ≡ some n → n < 2 ^ 16
unfolding port
port_bound (a ∷ b ∷ []) h e = ground arith
port_bound _ h e = cc

address-IsCanonical : (s : Text) {a : IpAddr} → IsBytes s → address s ≡ some a → IsCanonical a
unfolding address
address-IsCanonical s {a} h e = elim (Bool-cases (length s == 4)) [
  | inl four ↦ subst_some IsCanonical (rw four at e) (ground arith, h)
  | inr other ↦ elim (Bool-cases (length s == 16)) [
    | inl sixteen ↦ elim (Bool-cases (text_eq (take 12 s) mapped_prefix)) [
      | inl mapped ↦
          subst_some IsCanonical (rw (other, sixteen, mapped) at e)
            (ground (arith, length-drop {0} 12 s), All-drop _ 12 s h)
      | inr plain ↦
          subst_some IsCanonical (rw (other, sixteen, plain) at e) (ground arith, h, rw plain)
    ]
    | inr bad ↦ cc (rw (other, bad) at e)
  ]
]

ends-IsEndpoint :
    (direction : Direction) (s d : SocketAddr)
    → IsEndpoint s
    → IsEndpoint d
    → let ends = src_and_dst direction (s, d) in IsEndpoint ends.0 × IsEndpoint ends.1
ends-IsEndpoint outbound s d hs hd = (hs, hd)
ends-IsEndpoint inbound s d hs hd = (hd, hs)

-- Of a record's bytes, the decoding yields a PID of 32 bits, ports of 16 and addresses of which none
-- is an IPv4-mapped IPv6 address.
pub decode_connection-IsConnection :
    (event_id : ℕ) (pid saddr daddr sport dport : Text) {c : DecodedConnection}
    → IsBytes pid
    → IsBytes saddr
    → IsBytes daddr
    → IsBytes sport
    → IsBytes dport
    → decode_connection event_id pid saddr daddr sport dport ≡ some c
    → IsConnection c
unfolding decode_connection
decode_connection-IsConnection event_id pid saddr daddr sport dport hp hs hd hsp hdp e =
    let (direction, _, e1) = >>=-eq-some (connection_direction event_id) _ e in
    let (n, en, e2) = >>=-eq-some (decode_pid pid) _ e1 in
    let (a, ea, e3) = >>=-eq-some (address saddr) _ e2 in
    let (s, es, e4) = >>=-eq-some (port sport) _ e3 in
    let (b, eb, e5) = >>=-eq-some (address daddr) _ e4 in
    let (d, ed, e6) = >>=-eq-some (port dport) _ e5 in
    let (src, dst) =
      ends-IsEndpoint direction (socket_addr a s) (socket_addr b d)
        (record { address = address-IsCanonical saddr hs ea; port = port_bound sport hsp es })
        (record { address = address-IsCanonical daddr hd eb; port = port_bound dport hdp ed }) in
    subst_some IsConnection e6 (record { pid = decode_pid_bound pid hp en; src = src; dst = dst })

-- The PID of a decoded connection is that of its record.
pub decode_connection_pid :
    (event_id : ℕ) (pid saddr daddr sport dport : Text) {c : DecodedConnection}
    → decode_connection event_id pid saddr daddr sport dport ≡ some c
    → decode_pid pid ≡ some c.pid
unfolding decode_connection
decode_connection_pid event_id pid saddr daddr sport dport e =
    let (direction, _, e1) = >>=-eq-some (connection_direction event_id) _ e in
    let (n, en, e2) = >>=-eq-some (decode_pid pid) _ e1 in
    let (a, ea, e3) = >>=-eq-some (address saddr) _ e2 in
    let (s, es, e4) = >>=-eq-some (port sport) _ e3 in
    let (b, eb, e5) = >>=-eq-some (address daddr) _ e4 in
    let (d, ed, e6) = >>=-eq-some (port dport) _ e5 in
    subst_some (λ (c : DecodedConnection). decode_pid pid ≡ some c.pid) e6 en
