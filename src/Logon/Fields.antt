-- ===== src/Logon/Fields.antt =====
-- agent/cg-agent/src/logon/mod.rs: the fields of a record, one by one.
-- `parse` is `str::parse::<IpAddr>`.
use cyber_guard_enterprise.Prelude.{
  ℕ, Bool, true, false, not, ◌&&◌, ◌||◌, List, [], ◌∷◌, Option, none, some, Text, bytes, is_empty,
  text_eq, starts_with, ends_with_byte, eq_ignore_ascii_case, leb, ◌==◌, if◌then◌else◌,
}
use cyber_guard_enterprise.Prelude.Fallible.{◌>>=◌}
use cyber_guard_enterprise.Net.{IpAddr, v4, v6, to_ipv4_mapped}
use cyber_guard_enterprise.Etw.Network.{unmapped}
use cyber_guard_enterprise.Logon.Types.{LogonSource, LogonEvent}

abbrev pub event_logon_success : ℕ
event_logon_success = 4624

abbrev pub event_logon_failure : ℕ
event_logon_failure = 4625

abbrev pub withheld : Text
withheld = bytes "<withheld>"

abbrev pub no_value : Text
no_value = bytes "-"

-- 0xC000_006A, 0234, 0072, 006F, 0070, 0193, 0071, 0224 and 015B.
abbrev pub account_exists_codes : List ℕ
account_exists_codes =
    3221225578 ∷ 3221226036 ∷ 3221225586 ∷ 3221225583 ∷ 3221225584 ∷ 3221225875 ∷ 3221225585
    ∷ 3221226020 ∷ 3221225819 ∷ []

pub data LogonDecode : Type 0 where
  report : LogonEvent → LogonDecode
  excluded unusable before_epoch : LogonDecode

abbrev pub value_or_dash : Option Text → Text
value_or_dash none = no_value
value_or_dash (some v) = if is_empty v then no_value else v

abbrev pub any_text : (Text → Bool) → List Text → Bool
any_text p [] = false
any_text p (t ∷ ts) = p t || any_text p ts

abbrev pub exact : List Text
exact = bytes "S-1-5-18" ∷ bytes "S-1-5-19" ∷ bytes "S-1-5-20" ∷ []

abbrev pub prefixes : List Text
prefixes =
    bytes "S-1-5-80-"
    ∷ bytes "S-1-5-82-"
    ∷ bytes "S-1-5-83-"
    ∷ bytes "S-1-5-84-"
    ∷ bytes "S-1-5-90-"
    ∷ bytes "S-1-5-96-"
    ∷ []

-- A computer account's name ends in `$`.
unfoldable pub is_excluded_target : Text → Text → Bool
is_excluded_target sid name =
    any_text (text_eq sid) exact || any_text (starts_with sid) prefixes || ends_with_byte name 36

abbrev pub code_or_zero : Option ℕ → ℕ
code_or_zero none = 0
code_or_zero (some code) = code

unfoldable pub failure_code : Option ℕ → Option ℕ → ℕ
failure_code status none = code_or_zero status
failure_code status (some code) = if code == 0 then code_or_zero status else code

abbrev pub any_code : ℕ → List ℕ → Bool
any_code code [] = false
any_code code (c ∷ codes) = code == c || any_code code codes

unfoldable pub name_is_kept : ℕ → Bool
name_is_kept code = any_code code account_exists_codes

unfoldable pub logon_type_id : Option ℕ → ℕ
logon_type_id none = 99
logon_type_id (some t) =
    if t == 0 then 1 else if (leb 2 t && leb t 5) || (leb 7 t && leb t 13) then t else 99

unfoldable pub auth_protocol_id : Text → ℕ
auth_protocol_id name =
    if text_eq name no_value
    then 0
    else if eq_ignore_ascii_case name (bytes "NTLM")
    then 1
    else if eq_ignore_ascii_case name (bytes "Kerberos")
    then 2
    else 99

-- What stands before the first `%`, a zone suffix.
unfoldable pub without_zone : Text → Text
without_zone [] = []
without_zone (c ∷ s) = let rest = without_zone s in if c == 37 then [] else c ∷ rest

-- An IPv4-mapped IPv6 address becomes IPv4.
abbrev pub canonical_ip : IpAddr → IpAddr
canonical_ip (v4 octets) = v4 octets
canonical_ip (v6 octets) = unmapped octets (to_ipv4_mapped octets)

abbrev pub hostname : Option Text → Option Text
hostname none = none
hostname (some w) = if not (is_empty w) && not (text_eq w no_value) then some w else none

unfoldable pub source : (Text → Option IpAddr) → Option Text → Option Text → Option LogonSource
source parse ip_address workstation = do
  text ← ip_address
  ip ← parse (without_zone text)
  some (record { ip = canonical_ip ip; hostname = hostname workstation })

abbrev pub elevated : Option Text → Option Bool
elevated none = none
elevated (some token) =
    if text_eq token (bytes "%%1842")
    then some true
    else if text_eq token (bytes "%%1843")
    then some false
    else none

-- `ERROR_NO_MORE_ITEMS` and `ERROR_INVALID_OPERATION`.
unfoldable pub read_is_exhausted : ℕ → Bool
read_is_exhausted code = code == 259 || code == 4317
