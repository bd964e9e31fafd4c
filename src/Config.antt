-- ===== src/Config.antt =====
-- agent/cg-agent/src/config.rs: loading and validating agent.toml.
pub mod Accepted
pub mod Types
pub mod Position
pub mod Uuid
pub mod Rules
pub mod Refusals
mod Tests
use cyber_guard_enterprise.Prelude.{
  Bool, true, false, ◌&&◌, ◌||◌, not, ◌++◌, Option, none, some, Text, bytes, is_empty, text_eq,
  starts_with, ◌==◌,
}
use cyber_guard_enterprise.Prelude.Results.{
  Result, ok, err, Done, done, ◌>>=◌, ◌>>◌, guard, ok_or, map_err,
}
use cyber_guard_enterprise.Delivery.Batches.{HeartbeatConfig}
use cyber_guard_enterprise.Config.Types.{
  ConfigError, missing_key, invalid, not_found, io, ServerConfig, EnrollmentConfig, TlsConfig,
  EnvelopeConfig, AgentConfig, Toml,
}
use cyber_guard_enterprise.Config.Position.{parse_error}
use cyber_guard_enterprise.Config.Uuid.{is_uuidv7}

-- `ServerConfig::heartbeat_target`.
unfoldable pub heartbeat_target : ServerConfig → Text
heartbeat_target server = elim server.heartbeat_url [ none ↦ server.url | some url ↦ url ]

abbrev pub is_some {ℓ} : {A : Type ℓ} → Option A → Bool
is_some none = false
is_some (some a) = true

abbrev pub is_https : Text → Bool
is_https url = starts_with url (bytes "https://")

abbrev pub is_url : Text → Bool
is_url url = starts_with url (bytes "http://") || is_https url

-- A key of a table, as text: an absent table is an absent key.
unfoldable pub required : {V : Type 0} → Toml V → V → Text → Text → Result ConfigError Text
required toml raw table key =
    let name = table ++ bytes "." ++ key in
    ok_or (elim (toml.get raw table) [ none ↦ none | some t ↦ toml.get t key ]) (missing_key name)
    >>= λ value. ok_or (toml.as_str value) (invalid (name ++ bytes " must be a string"))

-- A required key and its test.
unfoldable pub check_key :
    {V : Type 0} → Toml V → V → Text → Text → (Text → Bool) → Text → Result ConfigError Done
unfolding required
check_key toml raw table key test message =
    required toml raw table key >>= λ text. guard (test text) (invalid message)

abbrev pub is_filled : Text → Bool
is_filled s = not (is_empty s)

-- The keys that are tested before the whole document is deserialized.
unfoldable pub check_required : {V : Type 0} → Toml V → V → Result ConfigError Done
unfolding check_key
check_required toml raw =
    check_key toml raw (bytes "server") (bytes "url") is_url (bytes "server.url not a valid URL")
    >> (check_key toml raw (bytes "agent") (bytes "id") is_uuidv7 (bytes "agent.id not a UUIDv7")
        >> check_key toml raw (bytes "agent") (bytes "hostname") is_filled
            (bytes "agent.hostname must be non-empty"))

abbrev pub has_zero : HeartbeatConfig → Bool
has_zero h =
    h.interval_seconds == 0
    || h.request_timeout_seconds == 0
    || h.backoff_initial_ms == 0
    || h.backoff_max_ms == 0

unfoldable pub check_heartbeat :
    (HeartbeatConfig → Bool) → HeartbeatConfig → Result ConfigError Done
check_heartbeat is_below_one h =
    guard (not (has_zero h)) (invalid (bytes "heartbeat numeric fields must be > 0"))
    >> guard (not (is_below_one h)) (invalid (bytes "heartbeat.backoff_factor must be >= 1.0"))

unfoldable pub check_enrollment : ServerConfig → Option EnrollmentConfig → Result ConfigError Done
check_enrollment server none = ok done
check_enrollment server (some enrollment) =
    guard (is_https server.url)
      (invalid (bytes "server.url must use https when [enrollment] is set"))
    >> guard (is_some server.trust_anchor_path) (missing_key (bytes "server.trust_anchor_path"))

unfoldable pub check_anchor : Option Text → Result ConfigError Done
check_anchor none = ok done
check_anchor (some path) =
    guard (not (is_empty path)) (invalid (bytes "server.trust_anchor_path must be non-empty"))

abbrev pub says {ℓ} : {A : Type ℓ} → (A → Text) → Text → Option A → Bool
says field value none = true
says field value (some a) = text_eq (field a) value

abbrev pub says_version : Option TlsConfig → Bool
says_version tls = says (λ (t : TlsConfig). t.minimum_version) (bytes "1.3") tls

abbrev pub says_form : Option EnvelopeConfig → Bool
says_form envelope = says (λ (e : EnvelopeConfig). e.canonical_form) (bytes "JCS") envelope

-- What the secure path asks, where the trust anchor is set.
unfoldable pub check_secure : AgentConfig → Option Text → Result ConfigError Done
check_secure c none = ok done
check_secure c (some path) =
    guard (is_some c.server.heartbeat_url || is_https c.server.url) (
      invalid (
        bytes
          "server.url must use https when server.trust_anchor_path is set and server.heartbeat_url is absent"))
    >> (guard (says_version c.tls) (invalid (bytes "tls.minimum_version must be \"1.3\""))
        >> guard (says_form c.envelope) (invalid (bytes "envelope.canonical_form must be \"JCS\"")))

unfoldable pub check_heartbeat_url : Option Text → Result ConfigError Done
check_heartbeat_url none = ok done
check_heartbeat_url (some url) =
    guard (is_https url) (invalid (bytes "server.heartbeat_url must use https"))

-- The tests of the deserialized document, in the order of the code.
unfoldable pub validate : (HeartbeatConfig → Bool) → AgentConfig → Result ConfigError AgentConfig
unfolding check_heartbeat check_enrollment check_anchor check_secure check_heartbeat_url
validate is_below_one c =
    check_heartbeat is_below_one c.heartbeat
    >> (check_enrollment c.server c.enrollment
        >> (check_anchor c.server.trust_anchor_path
            >> (check_secure c c.server.trust_anchor_path
                >> (check_heartbeat_url c.server.heartbeat_url >> ok c))))

unfoldable pub load_from_str : {V : Type 0} → Toml V → Text → Result ConfigError AgentConfig
load_from_str toml content = map_err (parse_error content) (toml.from_str content) >>= λ raw.
    check_required toml raw
    >> (map_err (parse_error content) (toml.deserialize content) >>= λ config.
        validate toml.is_below_one config)

-- `load_from_path`: what the file system answers is the first two arguments.
unfoldable pub load_from_path :
    {V : Type 0} → Toml V → Bool → Result Text Text → Text → Result ConfigError AgentConfig
load_from_path toml exists contents path = elim exists [
  | false ↦ err (not_found path)
  | true ↦ map_err io contents >>= λ content. load_from_str toml content
]
