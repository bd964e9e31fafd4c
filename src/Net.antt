-- ===== src/Net.antt =====
-- The addresses of Rust's `std::net` that the agent's capture uses.
pub mod Display
use cyber_guard_enterprise.Prelude.{
  ℕ, [], ◌∷◌, Option, none, some, Text, take, drop, text_eq, if◌then◌else◌,
}

-- `IpAddr`: the octets in network order, 4 or 16 of them.
pub data IpAddr : Type 0 where
  v4 : Text → IpAddr
  v6 : Text → IpAddr

-- `SocketAddr`.
pub record SocketAddr : Type 0 where
  pub ip : IpAddr
  pub port : ℕ

-- `SocketAddr::new`.
abbrev pub socket_addr : IpAddr → ℕ → SocketAddr
socket_addr ip port = record { ip = ip; port = port }

-- The twelve octets before an IPv4 address in its IPv4-mapped IPv6 form, `::ffff:a.b.c.d`.
abbrev pub mapped_prefix : Text
mapped_prefix = 0 ∷ 0 ∷ 0 ∷ 0 ∷ 0 ∷ 0 ∷ 0 ∷ 0 ∷ 0 ∷ 0 ∷ 255 ∷ 255 ∷ []

-- `Ipv6Addr::to_ipv4_mapped`.
abbrev pub to_ipv4_mapped : Text → Option Text
to_ipv4_mapped octets =
    if text_eq (take 12 octets) mapped_prefix then some (drop 12 octets) else none
