-- ===== src/Net/Display.antt =====
-- The text of an address: `Display` of `Ipv4Addr` and `Ipv6Addr`.
use cyber_guard_enterprise.Prelude.{
  ℕ, text_eq, ◌≡◌, refl, ◌+◌, ◌*◌, List, [], ◌∷◌, ◌++◌, Option, none, some, Text, bytes, take, drop,
  ltb, ◌==◌, if◌then◌else◌,
}
use cyber_guard_enterprise.Prelude.Print.{to_decimal, to_hex}
use cyber_guard_enterprise.Net.{IpAddr, v4, v6, to_ipv4_mapped}

-- The octets of an IPv4 address in decimal, a dot between two.
unfoldable pub dotted : Text → Text
unfolding to_decimal
dotted [] = []
dotted (a ∷ []) = to_decimal a
dotted (a ∷ b ∷ rest) = to_decimal a ++ 46 ∷ dotted (b ∷ rest)

-- The eight 16-bit segments of an IPv6 address.
unfoldable pub segments : Text → List ℕ
segments [] = []
segments (a ∷ []) = []
segments (a ∷ b ∷ rest) = (a * 256 + b) ∷ segments rest

-- A run of zero segments: where it starts, and how long it is.
pub record Span : Type 0 where
  pub start : ℕ
  pub len : ℕ

abbrev no_span : Span
no_span = record { start = 0; len = 0 }

abbrev grow : ℕ → Span → Span
grow i s = if s.len == 0 then record { start = i; len = 1 } else record s { len = s.len + 1 }

abbrev longer : Span → Span → Span
longer s t = if ltb t.len s.len then s else t

-- The first of the longest runs of zero segments, from segment `i` on.
unfoldable pub longest_zeroes : ℕ → List ℕ → Span → Span → Span
longest_zeroes i [] current longest = longest
longest_zeroes i (s ∷ rest) current longest =
    let current' = grow i current in
    if s == 0
    then longest_zeroes (i + 1) rest current' (longer current' longest)
    else longest_zeroes (i + 1) rest no_span longest

-- Segments in hexadecimal, a colon between two.
unfoldable pub colons : List ℕ → Text
unfolding to_hex
colons [] = []
colons (s ∷ []) = to_hex s
colons (s ∷ t ∷ rest) = to_hex s ++ 58 ∷ colons (t ∷ rest)

unfoldable pub compressed : List ℕ → Text
unfolding colons longest_zeroes
compressed segs =
    let zeroes = longest_zeroes 0 segs no_span no_span in
    if ltb 1 zeroes.len
    then colons (take zeroes.start segs) ++ 58 ∷ 58 ∷ colons (drop (zeroes.start + zeroes.len) segs)
    else colons segs

abbrev v6_text : Option Text → Text → Text
v6_text (some mapped) octets = bytes "::ffff:" ++ dotted mapped
v6_text none octets = compressed (segments octets)

unfoldable pub ip_text : IpAddr → Text
unfolding dotted compressed segments
ip_text (v4 octets) = dotted octets
ip_text (v6 octets) = v6_text (to_ipv4_mapped octets) octets

printed :
    (ip_text (v4 (10 ∷ 0 ∷ 0 ∷ 255 ∷ [])) ≡ bytes "10.0.0.255")
    × (ip_text (v6 (254 ∷ 128 ∷ 0 ∷ 0 ∷ 0 ∷ 0 ∷ 0 ∷ 0 ∷ 0 ∷ 0 ∷ 0 ∷ 0 ∷ 0 ∷ 0 ∷ 0 ∷ 26 ∷ []))
        ≡ bytes "fe80::1a")
unfolding ip_text text_eq
printed = (refl, refl)
