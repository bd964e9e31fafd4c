-- ===== src/Etw/Network.antt =====
-- agent/cg-agent/src/etw/network.rs: what a Kernel-Network connection record says.
pub mod Decoding
mod Tests
use cyber_guard_enterprise.Prelude.{
  ℕ, ◌+◌, ◌*◌, ◌^◌, Bool, ◌||◌, List, [], ◌∷◌, Option, none, some, Text, length, ◌==◌,
  if◌then◌else◌,
}
use cyber_guard_enterprise.Prelude.Fallible.{◌>>=◌}
use cyber_guard_enterprise.Net.{IpAddr, v4, v6, SocketAddr, socket_addr, to_ipv4_mapped}
use cyber_guard_enterprise.Etw.Types.{Direction, outbound, inbound}

abbrev pub tcp_connect_v4 : ℕ
tcp_connect_v4 = 12

abbrev pub tcp_accept_v4 : ℕ
tcp_accept_v4 = 15

abbrev pub tcp_connect_v6 : ℕ
tcp_connect_v6 = 28

abbrev pub tcp_accept_v6 : ℕ
tcp_accept_v6 = 31

pub record DecodedConnection : Type 0 where
  pub pid : ℕ
  pub direction : Direction
  pub src : SocketAddr
  pub dst : SocketAddr

unfoldable pub connection_direction : ℕ → Option Direction
connection_direction event_id =
    if event_id == tcp_connect_v4 || event_id == tcp_connect_v6
    then some outbound
    else if event_id == tcp_accept_v4 || event_id == tcp_accept_v6
    then some inbound
    else none

-- `u32::from_le_bytes` of four bytes.
unfoldable pub decode_pid : Text → Option ℕ
decode_pid (a ∷ b ∷ c ∷ d ∷ []) = some (a + b * 2 ^ 8 + c * 2 ^ 16 + d * 2 ^ 24)
decode_pid _ = none

-- `u16::from_be_bytes` of two bytes.
unfoldable pub port : Text → Option ℕ
port (hi ∷ lo ∷ []) = some (hi * 2 ^ 8 + lo)
port _ = none

-- An IPv6 address, or the IPv4 address that it maps.
abbrev pub unmapped : Text → Option Text → IpAddr
unmapped octets none = v6 octets
unmapped octets (some mapped) = v4 mapped

unfoldable pub address : Text → Option IpAddr
address octets =
    if length octets == 4
    then some (v4 octets)
    else if length octets == 16
    then some (unmapped octets (to_ipv4_mapped octets))
    else none

-- (saddr, sport) and (daddr, dport) as (local, remote).
abbrev pub local_and_remote : SocketAddr → SocketAddr → SocketAddr × SocketAddr
local_and_remote s d = (s, d)

-- (local, remote) as (initiator, acceptor).
abbrev pub src_and_dst : Direction → SocketAddr × SocketAddr → SocketAddr × SocketAddr
src_and_dst outbound (here, remote) = (here, remote)
src_and_dst inbound (here, remote) = (remote, here)

unfoldable pub decode_connection : ℕ → Text → Text → Text → Text → Text → Option DecodedConnection
decode_connection event_id pid saddr daddr sport dport = do
  direction ← connection_direction event_id
  pid' ← decode_pid pid
  saddr' ← address saddr
  sport' ← port sport
  daddr' ← address daddr
  dport' ← port dport
  let here_and_remote = local_and_remote (socket_addr saddr' sport') (socket_addr daddr' dport')
  let ends = src_and_dst direction here_and_remote
  some (record { pid = pid'; direction = direction; src = ends.0; dst = ends.1 })
