-- ===== src/Service/Migration/Host.antt =====
-- agent/cg-agent/src/service/migration.rs: the directories that a start reads and changes, and the
-- points at which it can fail or be cut.
-- The directories are those beside one another under `CyberGuard`. An operation that Windows refuses
-- is a failure at the point that comes before it.
use cyber_guard_enterprise.Prelude.{
  ℕ, Bool, true, false, ◌&&◌, ◌||◌, List, [], ◌∷◌, Option, none, some, Text, bytes, text_eq,
}
use cyber_guard_enterprise.Prelude.Results.{Result, ok, err, Done, done}
use cyber_guard_enterprise.Custody.{failure}
use cyber_guard_enterprise.Errors.{enrollment_stderr_line, persistence}
use cyber_guard_enterprise.Service.Migration.Entries.{has_name, Paths}
use cyber_guard_enterprise.Service.Migration.Arguments.{
  Choice, remove, keep, Texts, Request, insert,
}

-- `migration.json`.
pub record Record : Type 0 where
  pub choice : Choice
  pub fingerprints : Texts
  pub agent_id : Text
  pub key_fingerprint : Text
  pub enrolling_account : Option Text
  pub files : List (Text × Text)
  pub reversal_pending : Bool
  pub copies_not_reached : Texts

abbrev pub choice_eq : Choice → Choice → Bool
choice_eq remove remove = true
choice_eq remove keep = false
choice_eq keep remove = false
choice_eq keep keep = true

abbrev pub texts_eq : Texts → Texts → Bool
texts_eq [] [] = true
texts_eq [] (t ∷ ts) = false
texts_eq (s ∷ ss) [] = false
texts_eq (s ∷ ss) (t ∷ ts) = text_eq s t && texts_eq ss ts

-- `collect` to a set.
abbrev pub collect : Texts → Texts
collect [] = []
collect (t ∷ ts) = insert t (collect ts)

-- `Record::asks_for`.
unfoldable pub asks_for : Record → Request → Bool
asks_for r q =
    choice_eq r.choice q.choice && texts_eq (collect r.fingerprints) (collect q.fingerprints)

pub data Point : Type 0 where
  close_product_root close_data_root delete_interrupted_staging : Point
  create_staging write_record : Point
  stage : Text → Point
  check_staged_point first_rename second_rename record_reversal rename_back clear_reversal : Point
  complete_commit : Point

pub data Injected : Type 0 where
  fails : Text → Injected
  crash : Injected

-- Why a start ends, and how it goes on.
pub data Stop : Type 0 where
  refused : (code : ℕ) (line : Text) → Stop
  crashed : Stop

pub data Prepared : Type 0 where
  plain_start console_layout committed_start : Prepared

-- A directory: whether it passes `agent.toml`'s policy as a directory, the record in it, and the
-- names of its other files.
pub record Dir : Type 0 where
  pub closed : Bool
  pub saved : Option Record
  pub names : Texts

pub record Host : Type 0 where
  pub data_root : Option Dir
  pub staging : Option Dir
  pub legacy : Option Dir

-- What items 2.2 to 2.4 find out: the checks of each file, its bytes and its restriction.
pub record Verified : Type 0 where
  pub agent_id : Text
  pub key_fingerprint : Text
  pub enrolling_account : Option Text
  pub files : List (Text × Text)

-- One start's environment: what goes wrong at each point, and what else it is answered.
pub record Environment : Type 0 where
  pub at : Point → Option Injected
  pub lock : Result Stop Done
  pub sees_staging : Bool
  pub sees_legacy : Bool
  pub record_unread : Option Text
  pub directories_refused : Option Stop
  pub verifies : Host → Result Stop Verified
  pub restricted : Texts
  pub root_entries : Result Text Texts
  pub data_root_entries : Result Text Texts
  pub product_root_path : Text
  pub data_root_path : Text
  pub staging_path : Text
  pub legacy_path : Text

abbrev pub paths_of : Environment → Paths
paths_of env = record {
  product_root = env.product_root_path;
  data_root = env.data_root_path;
  staging = env.staging_path;
}

-- A step that ends with an error keeps what it had changed by then.
abbrev pub Step {ℓ κ} : Type ℓ → Type κ → Type (ℓ ⊔ κ)
Step E A = Host → Result E A × Host

module _ {ℓ κ} {E : Type ℓ} {A : Type κ} where
  abbrev pub gives : A → Step E A
  gives a h = (ok a, h)

  abbrev pub stops : E → Step E A
  stops e h = (err e, h)

  abbrev pub continues {ι} : {B : Type ι} → Result E A × Host → (A → Step E B) → Result E B × Host
  continues (ok a, h) f = f a h
  continues (err e, h) f = (err e, h)

  -- The errors of a part, renamed.
  abbrev pub renames {ι} : {F : Type ι} → (E → F) → Result E A × Host → Result F A × Host
  renames f (ok a, h) = (ok a, h)
  renames f (err e, h) = (err (f e), h)

-- `map_err` on a step.
abbrev pub with_errors {ℓ κ ι} :
    {E : Type ℓ} {F : Type κ} {A : Type ι} → (E → F) → Step E A → Step F A
with_errors f m h = renames f (m h)

infixl 5 ◌>>>◌
abbrev pub ◌>>>◌ {ℓ κ} : {E : Type ℓ} {B : Type κ} → Step E Done → Step E B → Step E B
(m >>> k) h = continues (m h) (λ d. k)

abbrev pub answer : Option Injected → Result Injected Done
answer none = ok done
answer (some cut) = err cut

-- `watch.at`.
unfoldable pub at_point : Environment → Point → Step Injected Done
at_point env point h = (answer (env.at point), h)

-- The names of the console installation's identity files, and those of a whole staged tree.
abbrev pub identity_files : Texts
identity_files = bytes "cert.pem" ∷ bytes "key.dat" ∷ bytes "identity.json" ∷ []

abbrev pub staged_names : Texts
staged_names =
    bytes "agent.toml"
    ∷ bytes "server-ca.pem"
    ∷ bytes "identity"
    ∷ bytes "identity\\cert.pem"
    ∷ bytes "identity\\key.dat"
    ∷ bytes "identity\\identity.json"
    ∷ []

-- `IDENTITY_FILES.iter().any(..)`.
abbrev pub any_name : Texts → Texts → Bool
any_name [] names = false
any_name (t ∷ ts) names = has_name t names || any_name ts names

unfoldable pub is_console : Option Dir → Bool
is_console none = false
is_console (some d) = any_name identity_files d.names

-- `counts`, where the check can open the directory.
abbrev pub counts : Bool → Option Dir → Bool
counts sees none = false
counts sees (some d) = sees && d.closed

-- Windows' ERROR_ALREADY_EXISTS and ERROR_FILE_NOT_FOUND.
abbrev pub rename_failure : Text → ℕ → Injected
rename_failure path error = fails (failure (bytes "rename") path error)

abbrev pub identity_line : Text → Text
identity_line reason = enrollment_stderr_line (persistence reason)
