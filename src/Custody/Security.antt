-- ===== src/Custody/Security.antt =====
-- agent/cg-agent/src/custody.rs: what Windows answers of an object, the policies, and the checks of a descriptor.
use cyber_guard_enterprise.Prelude.{
  ℕ, ◌+◌, ◌*◌, Bool, true, false, ◌&&◌, ◌||◌, not, List, [], ◌∷◌, ◌++◌, map, Option, none, some,
  Text, bytes, length, leb, ◌==◌, if◌then◌else◌,
}
use cyber_guard_enterprise.Prelude.Results.{
  Result, ok, err, Done, done, ◌>>=◌, ◌>>◌, guard, map_err,
}
use cyber_guard_enterprise.Prelude.Print.{to_decimal}

-- A SID in its binary form.
abbrev pub Sid : Type 0
Sid = Text

-- What Windows says of SIDs.
pub record Sids : Type 0 where
  pub is_valid : Sid → Bool
  pub is_local_system : Sid → Bool
  pub is_administrators : Sid → Bool
  pub equal : Sid → Sid → Bool

pub data Principal : Type 0 where
  system administrators : Principal
  sid : Sid → Principal

pub record Policy : Type 0 where
  pub owners : List Principal
  pub allowed : List Principal
  pub protected : Bool

-- `Policy::shared`.
abbrev pub shared : Policy
shared = record {
  owners = system ∷ administrators ∷ [];
  allowed = system ∷ administrators ∷ [];
  protected = false;
}

-- `Policy::configuration`.
abbrev pub configuration : Policy
configuration = record {
  owners = system ∷ [];
  allowed = system ∷ administrators ∷ [];
  protected = true;
}

-- `Policy::system_only`.
abbrev pub system_only : Policy
system_only = record { owners = system ∷ []; allowed = system ∷ []; protected = true }

-- The second byte of a SID, its number of subauthorities.
abbrev pub subauthorities : Sid → ℕ
subauthorities [] = 0
subauthorities (a ∷ []) = 0
subauthorities (a ∷ b ∷ s) = b

-- `Principal::matches`; a null pointer is `none`.
unfoldable pub matches : Sids → Principal → Option Sid → Bool
matches sids p none = false
matches sids system (some s) = sids.is_valid s && sids.is_local_system s
matches sids administrators (some s) = sids.is_valid s && sids.is_administrators s
matches sids (sid own) (some s) =
    sids.is_valid s
    && leb 8 (length own)
    && length own == 8 + 4 * subauthorities own
    && sids.is_valid own
    && sids.equal own s

-- `principals.iter().any(|p| p.matches(sid))`.
unfoldable pub any_matches : Sids → List Principal → Option Sid → Bool
any_matches sids [] s = false
any_matches sids (p ∷ principals) s = matches sids p s || any_matches sids principals s

pub data Kind : Type 0 where
  directory file : Kind

-- `BY_HANDLE_FILE_INFORMATION`, of what the checks read of it.
pub record Information : Type 0 where
  pub is_reparse_point : Bool
  pub is_directory : Bool
  pub number_of_links : ℕ
  pub id : ℕ × ℕ

pub record Ace : Type 0 where
  pub ace_type : ℕ
  pub inherit_only : Bool
  pub mask : ℕ
  pub ace_sid : Sid

-- A security descriptor, as it is read: the number of a failure is its Win32 error.
pub record Descriptor : Type 0 where
  pub owner : Result ℕ (Option Sid)
  pub dacl : Result ℕ (Option (List (Result ℕ Ace)))
  pub is_protected : Result ℕ Bool

pub record Handle : Type 0 where
  pub information : Result Text Information
  pub security : Result Text Descriptor
  pub contents : Result Text Text

abbrev pub unreadable_security : Text → ℕ → Text
unreadable_security path code =
    bytes "read the security of " ++ path ++ bytes ": Win32 error " ++ to_decimal code

abbrev pub unreadable_ace : Text → ℕ → Text
unreadable_ace path code =
    bytes "read an ACE of " ++ path ++ bytes ": Win32 error " ++ to_decimal code

abbrev pub other_ace : Text → ℕ → Text
other_ace path ace_type =
    path ++ bytes " holds an ACE of type " ++ to_decimal ace_type ++ bytes ", which is not checked"

-- `check_shape`, on what the handle reported.
unfoldable pub shape_of : Information → Text → Kind → Result Text Done
shape_of info path kind =
    guard (not info.is_reparse_point) (path ++ bytes " is a reparse point") >> (elim kind [
      | directory ↦ guard info.is_directory (path ++ bytes " is not a directory")
      | file ↦
          guard (not info.is_directory) (path ++ bytes " is not a regular file")
          >> guard (info.number_of_links == 1) (path ++ bytes " is hard-linked")
    ])

unfoldable pub check_shape : Handle → Text → Kind → Result Text Done
check_shape handle path kind = handle.information >>= λ info. shape_of info path kind

-- `names`.
abbrev pub name : Principal → Text
name system = bytes "SYSTEM"
name administrators = bytes "Administrators"
name (sid s) = bytes "the policy's account"

abbrev pub join : Text → List Text → Text
join joiner [] = []
join joiner (t ∷ []) = t
join joiner (t ∷ u ∷ texts) = t ++ joiner ++ join joiner (u ∷ texts)

abbrev pub names : List Principal → Text → Text
names principals joiner = join joiner (map name principals)

-- One entry of the DACL: it denies, or allows a principal of the policy's.
unfoldable pub check_ace : Sids → Text → Policy → Ace → Result Text Done
check_ace sids path policy ace =
    if ace.ace_type == 1
    then ok done
    else if ace.ace_type == 0
    then guard (any_matches sids policy.allowed (some ace.ace_sid)) (
        path
        ++ bytes " allows access to a principal other than "
        ++ names policy.allowed (bytes " and "))
    else err (other_ace path ace.ace_type)

-- The loop of `check_descriptor` over the entries of the DACL.
unfoldable pub check_aces : Sids → Text → Policy → List (Result ℕ Ace) → Result Text Done
check_aces sids path policy [] = ok done
check_aces sids path policy (err code ∷ aces) = err (unreadable_ace path code)
check_aces sids path policy (ok ace ∷ aces) =
    check_ace sids path policy ace >> check_aces sids path policy aces

-- A DACL that the policy wants protected.
unfoldable pub check_protected : Descriptor → Text → Policy → Result Text Done
check_protected descriptor path policy =
    if policy.protected
    then (map_err (unreadable_security path) descriptor.is_protected >>= λ protected.
        guard protected (path ++ bytes "'s DACL is not protected"))
    else ok done

-- The DACL itself: there, protected if the policy asks for it, and each of its entries.
unfoldable pub check_dacl :
    Sids → Descriptor → Text → Policy → Option (List (Result ℕ Ace)) → Result Text Done
check_dacl sids descriptor path policy none = err (path ++ bytes " has no DACL")
check_dacl sids descriptor path policy (some aces) =
    check_protected descriptor path policy >> check_aces sids path policy aces

unfoldable pub check_descriptor : Sids → Descriptor → Text → Policy → Result Text Done
check_descriptor sids descriptor path policy =
    map_err (unreadable_security path) descriptor.owner >>= λ owner.
    map_err (unreadable_security path) descriptor.dacl >>= λ dacl.
    guard (any_matches sids policy.owners owner)
      (path ++ bytes " is not owned by " ++ names policy.owners (bytes " or "))
    >> check_dacl sids descriptor path policy dacl
