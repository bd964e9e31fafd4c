-- ===== src/Config/Tests.antt =====
-- agent/cg-agent/src/config.rs: a document loaded, documents refused, and the witnesses.
use cyber_guard_enterprise.Prelude.{
  ◌≡◌, ◌↔◌, refl, true, false, Option, none, some, Text, bytes, text_eq, starts_with, if◌then◌else◌,
  ◌*◌,
}
use cyber_guard_enterprise.Prelude.Results.{ok, err}
use cyber_guard_enterprise.Delivery.Batches.{HeartbeatConfig}
use cyber_guard_enterprise.Config.{
  heartbeat_target, required, check_key, check_required, check_heartbeat, check_enrollment,
  check_anchor, check_secure, check_heartbeat_url, validate, load_from_str, load_from_path,
}
use cyber_guard_enterprise.Config.Types.{not_found, parse, invalid, AgentConfig, Toml}
use cyber_guard_enterprise.Config.Position.{
  before, newlines, last_line, characters, position, parse_error,
}
use cyber_guard_enterprise.Config.Uuid.{split, parts_fit, is_uuidv7}
use cyber_guard_enterprise.Config.Uuid.Form.{IsUuid, is_uuidv7-IsUuid}

abbrev agent_id : Text
agent_id = bytes "01934abc-def0-7000-89ab-0000000000bb"

accepts_v7 : is_uuidv7 agent_id ≡ true
unfolding is_uuidv7 split parts_fit starts_with
accepts_v7 = refl

refuses_v4 : is_uuidv7 (bytes "01934abc-def0-4000-89ab-0000000000bb") ≡ false
unfolding is_uuidv7 split parts_fit starts_with
refuses_v4 = refl

refuses_upper_case : is_uuidv7 (bytes "01934ABC-def0-7000-89ab-0000000000bb") ≡ false
unfolding is_uuidv7 split parts_fit starts_with
refuses_upper_case = refl

third_line : position (bytes "a = 1\nb = 2\nc @ 3") 14 ≡ (3, 3)
unfolding position before newlines last_line characters
third_line = refl

-- A parsed document: tables, texts and other values.
data Value : Type 0 where
  document table : Value
  text : Text → Value
  number : Value

abbrev heartbeat : HeartbeatConfig
heartbeat = record {
  interval_seconds = 30;
  request_timeout_seconds = 10;
  max_retries = 3;
  backoff_initial_ms = 1000;
  scale = λ x. 2 * x;
  backoff_max_ms = 60000;
}

abbrev secure : Option Text → AgentConfig
secure heartbeat_url = record {
  server = record {
    url = bytes "http://127.0.0.1:8080";
    trust_anchor_path = some (bytes "/tmp/ca.pem");
    heartbeat_url = heartbeat_url;
  };
  agent = record { id = agent_id; hostname = bytes "TEST-PC" };
  heartbeat = heartbeat;
  enrollment = none;
  tls = none;
  envelope = some (record { canonical_form = bytes "JCS" });
}

-- A parser of one document, with the tables `server` and `agent`.
abbrev value_of : Value → Text → Option Value
value_of document key =
    if text_eq key (bytes "server")
    then some table
    else if text_eq key (bytes "agent")
    then some table
    else none
value_of table key =
    if text_eq key (bytes "url")
    then some (text (bytes "http://127.0.0.1:8080"))
    else if text_eq key (bytes "id")
    then some (text agent_id)
    else if text_eq key (bytes "hostname")
    then some (text (bytes "TEST-PC"))
    else none
value_of (text t) key = none
value_of number key = none

abbrev as_text : Value → Option Text
as_text (text t) = some t
as_text document = none
as_text table = none
as_text number = none

abbrev toml_of : AgentConfig → Toml Value
toml_of config = record {
  from_str = λ content.
      if text_eq content (bytes "@")
      then err (record { message = bytes "expected a key"; span_start = some 0 })
      else ok document;
  get = value_of;
  as_str = as_text;
  deserialize = λ content. ok config;
  is_below_one = λ h. false;
}

abbrev two_ports : Toml Value
two_ports = toml_of (secure (some (bytes "https://127.0.0.1:8443")))

loads_two_ports :
    load_from_str two_ports (bytes "") ≡ ok (secure (some (bytes "https://127.0.0.1:8443")))
unfolding load_from_str check_required check_key required is_uuidv7 split parts_fit starts_with
    validate check_heartbeat check_enrollment check_anchor check_secure check_heartbeat_url text_eq
loads_two_ports = refl

refuses_plain_target :
    load_from_str (toml_of (secure none)) (bytes "")
    ≡ err (
        invalid (
          bytes
            "server.url must use https when server.trust_anchor_path is set and server.heartbeat_url is absent"))
unfolding load_from_str check_required check_key required is_uuidv7 split parts_fit starts_with
    validate check_heartbeat check_enrollment check_anchor check_secure check_heartbeat_url text_eq
refuses_plain_target = refl

refuses_no_toml :
    load_from_str two_ports (bytes "@") ≡ err (parse (bytes "expected a key") (some (1, 1)))
unfolding load_from_str parse_error position before newlines last_line characters text_eq
refuses_no_toml = refl

no_file :
    load_from_path two_ports false (ok (bytes "")) (bytes "agent.toml")
    ≡ err (not_found (bytes "agent.toml"))
unfolding load_from_path
no_file = refl

target :
    heartbeat_target (secure (some (bytes "https://127.0.0.1:8443"))).server
    ≡ bytes "https://127.0.0.1:8443"
unfolding heartbeat_target
target = refl

is_uuidv7-IsUuid_example : (is_uuidv7 agent_id ≡ true) ↔ IsUuid agent_id
is_uuidv7-IsUuid_example = is_uuidv7-IsUuid agent_id
