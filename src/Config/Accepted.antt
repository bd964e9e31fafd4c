-- ===== src/Config/Accepted.antt =====
-- agent/cg-agent/src/config.rs: the rules of a deserialized configuration, and what each error says of
-- it.
use cyber_guard_enterprise.Prelude.{◌<◌, ◌≡◌, ◌≢◌, Bool, true, false, [], none, some, Text, bytes}
use cyber_guard_enterprise.Delivery.Batches.{HeartbeatConfig}
use cyber_guard_enterprise.Config.{is_https, heartbeat_target}
use cyber_guard_enterprise.Config.Types.{
  ConfigError, missing_key, invalid, EnrollmentConfig, TlsConfig, EnvelopeConfig, AgentConfig,
}

abbrev pub IsHttps : Text → Type 0
IsHttps url = is_https url ≡ true

-- The numeric fields that the loader tests: all but `max_retries`, which may be 0.
pub record IsPositive (h : HeartbeatConfig) : Type 0 where
  pub interval : 0 < h.interval_seconds
  pub timeout : 0 < h.request_timeout_seconds
  pub initial : 0 < h.backoff_initial_ms
  pub maximum : 0 < h.backoff_max_ms

-- What holds of the trust anchor, where there is one: it names a file, and the secure path's target is
-- reached over TLS, of the version and with the canonical form that the agent has.
pub record IsSecure (c : AgentConfig) (path : Text) : Type 0 where
  pub named : path ≢ []
  pub target : IsHttps (heartbeat_target c.server)
  pub version : (t : TlsConfig) → c.tls ≡ some t → t.minimum_version ≡ bytes "1.3"
  pub form : (e : EnvelopeConfig) → c.envelope ≡ some e → e.canonical_form ≡ bytes "JCS"

pub record IsAccepted (is_below_one : HeartbeatConfig → Bool) (c : AgentConfig) : Type 0 where
  pub positive : IsPositive c.heartbeat
  pub factor : is_below_one c.heartbeat ≡ false
  pub enrolls :
      (e : EnrollmentConfig)
      → c.enrollment ≡ some e
      → IsHttps c.server.url × ((path : Text) × (c.server.trust_anchor_path ≡ some path))
  pub anchored : (path : Text) → c.server.trust_anchor_path ≡ some path → IsSecure c path
  pub explicit : (url : Text) → c.server.heartbeat_url ≡ some url → IsHttps url

-- What is wrong with the document, by the error.
pub data Breaks (is_below_one : HeartbeatConfig → Bool) (c : AgentConfig)
    : ConfigError → Type 0 where
  zero_field :
      ¬ IsPositive c.heartbeat
      → Breaks is_below_one c (invalid (bytes "heartbeat numeric fields must be > 0"))
  low_factor :
      is_below_one c.heartbeat ≡ true
      → Breaks is_below_one c (invalid (bytes "heartbeat.backoff_factor must be >= 1.0"))
  plain_enrollment :
      c.enrollment ≢ none
      → ¬ IsHttps c.server.url
      → Breaks is_below_one c (invalid (bytes "server.url must use https when [enrollment] is set"))
  unanchored_enrollment :
      c.enrollment ≢ none
      → c.server.trust_anchor_path ≡ none
      → Breaks is_below_one c (missing_key (bytes "server.trust_anchor_path"))
  empty_anchor :
      c.server.trust_anchor_path ≡ some []
      → Breaks is_below_one c (invalid (bytes "server.trust_anchor_path must be non-empty"))
  plain_target :
      c.server.trust_anchor_path ≢ none
      → c.server.heartbeat_url ≡ none
      → ¬ IsHttps c.server.url
      → Breaks is_below_one c (
          invalid (
            bytes
              "server.url must use https when server.trust_anchor_path is set and server.heartbeat_url is absent"))
  other_version :
      c.server.trust_anchor_path ≢ none
      → (t : TlsConfig) → c.tls ≡ some t
      → t.minimum_version ≢ bytes "1.3"
      → Breaks is_below_one c (invalid (bytes "tls.minimum_version must be \"1.3\""))
  other_form :
      c.server.trust_anchor_path ≢ none
      → (e : EnvelopeConfig) → c.envelope ≡ some e
      → e.canonical_form ≢ bytes "JCS"
      → Breaks is_below_one c (invalid (bytes "envelope.canonical_form must be \"JCS\""))
  plain_heartbeat :
      (url : Text)
      → c.server.heartbeat_url ≡ some url
      → ¬ IsHttps url
      → Breaks is_below_one c (invalid (bytes "server.heartbeat_url must use https"))
