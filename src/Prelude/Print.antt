-- ===== src/Prelude/Print.antt =====
-- Unsigned integers as `Display` and `LowerHex` print them.
use cyber_guard_enterprise.Prelude.Tests.{ltb, if◌then◌else◌}
use cyber_guard_enterprise.Prelude.Bytes.{Text}
use Prim.Native.Nat.{ℕ, zero, suc, ◌+◌, ◌/◌, ◌%◌}
use mathlib.Core.List.{[], ◌∷◌}

-- A digit below 16, in lower case.
abbrev pub digit : ℕ → ℕ
digit d = if ltb d 10 then 48 + d else 87 + d

-- The digits of `n` in base `b`, in front of a text; the fuel bounds their number.
unfoldable pub to_radix : ℕ → ℕ → ℕ → Text → Text
to_radix b zero n rest = rest
to_radix b (suc fuel) n rest =
    let more = to_radix b fuel (n / b) (digit (n % b) ∷ rest) in
    if ltb n b then digit n ∷ rest else more

-- Twenty decimal digits hold every `u64`, and sixteen hexadecimal ones.
unfoldable pub to_decimal : ℕ → Text
unfolding to_radix
to_decimal n = to_radix 10 20 n []

unfoldable pub to_hex : ℕ → Text
unfolding to_radix
to_hex n = to_radix 16 16 n []
