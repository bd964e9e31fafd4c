-- ===== src/Service/Migration/Arguments/Tests.antt =====
-- agent/cg-agent/src/service/migration.rs: start arguments that are accepted and refused.
use cyber_guard_enterprise.Prelude.{◌≡◌, ◌↔◌, refl, [], ◌∷◌, ◌++◌, none, some, Text, bytes, text_eq}
use cyber_guard_enterprise.Prelude.Results.{ok, err}
use cyber_guard_enterprise.Service.Migration.Arguments.{
  remove, Texts, Request, insert, text_lt, strip_prefix, is_fingerprint, parse_choice, parse_trust,
  parse_argument, take_argument, parse_loop, requested, parse_start_arguments,
}
use cyber_guard_enterprise.Service.Migration.Arguments.Form.{parse_start_arguments-Asks}
use cyber_guard_enterprise.Service.Migration.Arguments.Words.{Asks}

abbrev fingerprint : Text
fingerprint = bytes "sha256:0123456789abcdef0123456789abcdef0123456789abcdef0123456789abcdef"

abbrev arguments : Texts
arguments =
    (bytes "--trust-anchor-sha256=" ++ fingerprint)
    ∷ bytes "--migrate-legacy=remove"
    ∷ (bytes "--trust-anchor-sha256=" ++ fingerprint)
    ∷ []

abbrev request : Request
request = record { choice = remove; fingerprints = fingerprint ∷ [] }

accepts : parse_start_arguments arguments ≡ ok (some request)
unfolding parse_start_arguments parse_loop parse_argument parse_choice parse_trust take_argument
    requested is_fingerprint strip_prefix insert text_lt text_eq
accepts = refl

no_arguments : parse_start_arguments [] ≡ ok none
unfolding parse_start_arguments
no_arguments = refl

refuses_twice :
    parse_start_arguments (bytes "--migrate-legacy=remove" ∷ bytes "--migrate-legacy=remove" ∷ [])
    ≡ err (bytes "cg-agent: invalid migration arguments: --migrate-legacy is given more than once")
unfolding parse_start_arguments parse_loop parse_argument parse_choice parse_trust take_argument
    requested is_fingerprint strip_prefix insert text_lt text_eq
refuses_twice = refl

parse_start_arguments-Asks_example :
    (parse_start_arguments arguments ≡ ok (some request)) ↔ Asks arguments request
parse_start_arguments-Asks_example = parse_start_arguments-Asks arguments request
