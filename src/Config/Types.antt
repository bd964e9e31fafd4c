-- ===== src/Config/Types.antt =====
-- agent/cg-agent/src/config.rs and agent/cg-agent/src/errors.rs: the tables of agent.toml and the
-- errors of loading it. The defaults that serde fills in are what `deserialize` returns.
use cyber_guard_enterprise.Prelude.{ℕ, Bool, Option, Text}
use cyber_guard_enterprise.Prelude.Results.{Result}
use cyber_guard_enterprise.Delivery.Batches.{HeartbeatConfig}

pub data ConfigError : Type 0 where
  not_found : Text → ConfigError
  io : Text → ConfigError
  parse : (message : Text) (position : Option (ℕ × ℕ)) → ConfigError
  missing_key : Text → ConfigError
  invalid : Text → ConfigError

pub record ServerConfig : Type 0 where
  pub url : Text
  pub trust_anchor_path : Option Text
  pub heartbeat_url : Option Text

pub record AgentIdentity : Type 0 where
  pub id : Text
  pub hostname : Text

pub record EnrollmentConfig : Type 0 where
  pub token : Option Text
  pub cert_path : Text
  pub key_path : Text
  pub identity_path : Text

pub record TlsConfig : Type 0 where
  pub minimum_version : Text

pub record EnvelopeConfig : Type 0 where
  pub canonical_form : Text

pub record AgentConfig : Type 0 where
  pub server : ServerConfig
  pub agent : AgentIdentity
  pub heartbeat : HeartbeatConfig
  pub enrollment : Option EnrollmentConfig
  pub tls : Option TlsConfig
  pub envelope : Option EnvelopeConfig

-- `toml::de::Error`: its text, and the start of its span.
pub record TomlError : Type 0 where
  pub message : Text
  pub span_start : Option ℕ

-- The TOML parser and serde, which are not the agent's code: `V` is `toml::Value`, and
-- `is_below_one` is `backoff_factor < 1.0` of a heartbeat table.
pub record Toml (V : Type 0) : Type 0 where
  pub from_str : Text → Result TomlError V
  pub get : V → Text → Option V
  pub as_str : V → Option Text
  pub deserialize : Text → Result TomlError AgentConfig
  pub is_below_one : HeartbeatConfig → Bool
