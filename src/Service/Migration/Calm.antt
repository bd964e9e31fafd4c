-- ===== src/Service/Migration/Calm.antt =====
-- agent/cg-agent/src/service/migration.rs: a start in which nothing fails.
use cyber_guard_enterprise.Prelude.{map, ◌≡◌, true, Option, none, some, Text}
use cyber_guard_enterprise.Prelude.Results.{Result, ok, done}
use cyber_guard_enterprise.Service.Migration.Arguments.{Texts, Request}
use cyber_guard_enterprise.Service.Migration.Entries.{check_names_again}
use cyber_guard_enterprise.Service.Migration.Host.{
  paths_of, Record, Dir, Host, Environment, Verified, asks_for,
}

-- Where a start finds what it needs, by the names in its lines, and what its directories list just
-- before the first rename.
pub record Names : Type 0 where
  pub product_root : Text
  pub data_root_name : Text
  pub staging_name : Text
  pub legacy_name : Text
  pub restricted_names : Texts
  pub root_listed : Result Text Texts
  pub data_root_listed : Result Text Texts

-- A start in which nothing fails.
abbrev pub calm : Names → Verified → Environment
calm names verified = record {
  at = λ point. none;
  lock = ok done;
  sees_staging = true;
  sees_legacy = true;
  record_unread = none;
  directories_refused = none;
  verifies = λ h. ok verified;
  restricted = names.restricted_names;
  root_entries = names.root_listed;
  data_root_entries = names.data_root_listed;
  product_root_path = names.product_root;
  data_root_path = names.data_root_name;
  staging_path = names.staging_name;
  legacy_path = names.legacy_name;
}

-- The request is the one that a record of the host's asks for.
abbrev pub Agrees : Request → Option Dir → Type 0
Agrees q none = Unit
Agrees q (some d) = (r : Record) → d.saved ≡ some r → asks_for r q ≡ true

abbrev pub AgreesWith : Request → Host → Type 0
AgreesWith q h = Agrees q h.data_root × Agrees q h.staging

-- The directories list no other names than when the files were checked.
abbrev pub IsUnchanged : Names → Verified → Type 0
IsUnchanged names verified =
    check_names_again (paths_of (calm names verified)) names.root_listed names.data_root_listed
      (map (λ file. file.0) verified.files)
    ≡ ok done

abbrev pub shut : Dir → Dir
shut l = record l { closed = true }
