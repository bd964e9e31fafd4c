-- ===== src/Config/Refusals.antt =====
-- agent/cg-agent/src/config.rs: what a loaded configuration satisfies, and what an error says.
use cyber_guard_enterprise.Prelude.{◌≡◌, ◌≢◌, Bool, true, false, [], ◌++◌, none, some, Text, bytes}
use cyber_guard_enterprise.Prelude.Results.{ok, err}
use cyber_guard_enterprise.Config.{is_url}
use cyber_guard_enterprise.Config.Types.{
  ConfigError, missing_key, invalid, TomlError, Toml, AgentConfig,
}
use cyber_guard_enterprise.Config.Position.{parse_error}
use cyber_guard_enterprise.Config.Uuid.{is_uuidv7}
use cyber_guard_enterprise.Config.Accepted.{IsAccepted, Breaks}

-- What a document says under a key of a table.
pub data Says {V : Type 0} (toml : Toml V) (raw : V) (table key : Text) : Text → Type 0 where
  says :
      (t v : V) (text : Text)
      → toml.get raw table ≡ some t
      → toml.get t key ≡ some v
      → toml.as_str v ≡ some text
      → Says toml raw table key text

-- A key that the document lacks, and one whose value is not a text.
abbrev pub IsAbsent : {V : Type 0} → Toml V → V → Text → Text → Type 0
IsAbsent {V} toml raw table key = (t : V) → toml.get raw table ≡ some t → toml.get t key ≡ none

abbrev pub IsNoText : {V : Type 0} → Toml V → V → Text → Text → Type 0
IsNoText {V} toml raw table key =
    (t : V) × (v : V) × (toml.get raw table ≡ some t)
    × (toml.get t key ≡ some v)
    × (toml.as_str v ≡ none)

-- What is wrong with the required keys, by the error.
pub data Lacks {V : Type 0} (toml : Toml V) (raw : V) : ConfigError → Type 0 where
  absent :
      (table key : Text)
      → IsAbsent toml raw table key
      → Lacks toml raw (missing_key (table ++ bytes "." ++ key))
  no_text :
      (table key : Text)
      → IsNoText toml raw table key
      → Lacks toml raw (invalid (table ++ bytes "." ++ key ++ bytes " must be a string"))
  no_url :
      (url : Text)
      → Says toml raw (bytes "server") (bytes "url") url
      → is_url url ≡ false
      → Lacks toml raw (invalid (bytes "server.url not a valid URL"))
  no_uuid :
      (id : Text)
      → Says toml raw (bytes "agent") (bytes "id") id
      → is_uuidv7 id ≡ false
      → Lacks toml raw (invalid (bytes "agent.id not a UUIDv7"))
  empty_hostname :
      Says toml raw (bytes "agent") (bytes "hostname") []
      → Lacks toml raw (invalid (bytes "agent.hostname must be non-empty"))

pub record HasKeys {V : Type 0} (toml : Toml V) (raw : V) : Type 0 where
  pub url : Text
  pub says_url : Says toml raw (bytes "server") (bytes "url") url
  pub url_fits : is_url url ≡ true
  pub id : Text
  pub says_id : Says toml raw (bytes "agent") (bytes "id") id
  pub id_fits : is_uuidv7 id ≡ true
  pub hostname : Text
  pub says_hostname : Says toml raw (bytes "agent") (bytes "hostname") hostname
  pub hostname_fits : hostname ≢ []

module _ {V : Type 0} (toml : Toml V) (raw : V) where
  -- The text of a key that passes its test.
  Reads : Text → Text → (Text → Bool) → Type 0
  Reads table key test = (text : Text) × Says toml raw table key text × (test text ≡ true)

module _ {V : Type 0} (toml : Toml V) (content : Text) where
  -- What an error of loading says of the document.
  pub data Blames : ConfigError → Type 0 where
    no_toml :
        (error : TomlError) → toml.from_str content ≡ err error → Blames (parse_error content error)
    lacks :
        (raw : V) (e : ConfigError) → toml.from_str content ≡ ok raw → Lacks toml raw e → Blames e
    no_shape :
        (error : TomlError)
        → toml.deserialize content ≡ err error
        → Blames (parse_error content error)
    breaks :
        (c : AgentConfig) (e : ConfigError)
        → toml.deserialize content ≡ ok c
        → Breaks toml.is_below_one c e
        → Blames e

  -- What a loaded configuration satisfies.
  pub record IsLoaded (c : AgentConfig) : Type 0 where
    pub raw : V
    pub parsed : toml.from_str content ≡ ok raw
    pub keys : HasKeys toml raw
    pub deserialized : toml.deserialize content ≡ ok c
    pub accepted : IsAccepted toml.is_below_one c
