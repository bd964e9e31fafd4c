-- ===== src/Custody.antt =====
-- agent/cg-agent/src/custody.rs: who may own an object and whom its DACL may allow, and the checks
-- through an open handle.
-- A handle is what Windows answers about the object behind it; each answer may be a failure. A path is
-- the text that displays it.
pub mod Security
pub mod Descriptors
pub mod Secure
mod Tests
use cyber_guard_enterprise.Prelude.{
  ℕ, zero, suc, ◌+◌, ◌*◌, ◌≡◌, Bool, true, false, ◌&&◌, ◌||◌, not, List, [], ◌∷◌, ◌++◌, map, Option,
  none, some, Text, bytes, length, leb, ltb, ◌==◌, if◌then◌else◌,
}
use cyber_guard_enterprise.Prelude.Results.{
  Result, ok, err, Done, done, ◌>>=◌, ◌>>◌, guard, ok_or, map_err, is_ok,
}
use cyber_guard_enterprise.Prelude.Print.{to_decimal}
use cyber_guard_enterprise.Custody.Security.{
  Sid, Sids, Principal, Policy, any_matches, Kind, Ace, Descriptor, Handle, unreadable_security,
  unreadable_ace, other_ace, shape_of, check_shape, check_descriptor, directory, file,
}

unfoldable pub check_security : Sids → Handle → Text → Policy → Result Text Done
check_security sids handle path policy =
    handle.security >>= λ descriptor. check_descriptor sids descriptor path policy

-- `check_if_exists_within`; the answer to the open is an argument.
unfoldable pub check_if_exists :
    Sids → Result Text (Option Handle) → Text → Kind → Policy → Result Text Bool
check_if_exists sids (err reason) path kind policy = err reason
check_if_exists sids (ok none) path kind policy = ok false
check_if_exists sids (ok (some handle)) path kind policy =
    check_shape handle path kind >> (check_security sids handle path policy >> ok true)

unfoldable pub check : Sids → Result Text (Option Handle) → Text → Kind → Policy → Result Text Done
check sids opened path kind policy = check_if_exists sids opened path kind policy >>= λ there.
    guard there (path ++ bytes " does not exist")

pub data Unread : Type 0 where
  unreadable refused : Text → Unread

-- `read_checked_within`, from an open handle on.
unfoldable pub read_through : Sids → Handle → Text → Policy → Result Unread (Option Text)
read_through sids handle path policy = map_err unreadable handle.information >>= λ info.
    map_err refused (shape_of info path file)
    >> (map_err unreadable handle.security >>= λ descriptor.
        map_err refused (check_descriptor sids descriptor path policy)
        >> (map_err unreadable handle.contents >>= λ contents. ok (some contents)))

unfoldable pub read_checked_within :
    Sids → Result Text (Option Handle) → Text → Policy → Result Unread (Option Text)
read_checked_within sids (err reason) path policy = err (unreadable reason)
read_checked_within sids (ok none) path policy = ok none
read_checked_within sids (ok (some handle)) path policy = read_through sids handle path policy

abbrev pub reason_of : Unread → Text
reason_of (unreadable reason) = reason
reason_of (refused reason) = reason

unfoldable pub read_checked :
    Sids → Result Text (Option Handle) → Text → Policy → Result Text (Option Text)
read_checked sids opened path policy =
    map_err reason_of (read_checked_within sids opened path policy)

unfoldable pub has_security : Sids → Result Text (Option Handle) → Text → Policy → Bool
has_security sids (err reason) path policy = false
has_security sids (ok none) path policy = false
has_security sids (ok (some handle)) path policy = is_ok (check_security sids handle path policy)

unfoldable pub is_plain_directory : Result Text (Option Handle) → Text → Bool
is_plain_directory (err reason) path = false
is_plain_directory (ok none) path = false
is_plain_directory (ok (some handle)) path = is_ok (check_shape handle path directory)

-- `Descriptor::owned_by`.
unfoldable pub owned_by : Sids → Descriptor → List Principal → Result Text Bool
owned_by sids descriptor owners =
    map_err (λ code. bytes "read a descriptor's owner: Win32 error " ++ to_decimal code)
      descriptor.owner
    >>= λ owner. ok (any_matches sids owners owner)

pub record AllowEntry : Type 0 where
  pub entry_sid : Sid
  pub entry_mask : ℕ

-- The loop of `Descriptor::allow_entries`.
unfoldable pub allowing : Text → List (Result ℕ Ace) → Result Text (List AllowEntry)
allowing path [] = ok []
allowing path (err code ∷ aces) = err (unreadable_ace path code)
allowing path (ok ace ∷ aces) =
    let rest = allowing path aces in
    if ace.inherit_only
    then rest
    else if ace.ace_type == 1
    then rest
    else if ace.ace_type == 0
    then (rest >>= λ entries.
        ok (record { entry_sid = ace.ace_sid; entry_mask = ace.mask } ∷ entries))
    else err (other_ace path ace.ace_type)

unfoldable pub allow_entries : Descriptor → Text → Result Text (Option (List AllowEntry))
allow_entries descriptor path = map_err (unreadable_security path) descriptor.dacl >>= λ dacl.
    elim dacl [ none ↦ ok none | some aces ↦ allowing path aces >>= λ entries. ok (some entries) ]

-- `in_use`.
abbrev pub in_use : Text → Text
in_use path = path ++ bytes " is in use by another process"

-- A Win32 failure of a verb on a path; 32, 33 and 995 are ERROR_SHARING_VIOLATION,
-- ERROR_LOCK_VIOLATION and ERROR_OPERATION_ABORTED.
unfoldable pub failure : Text → Text → ℕ → Text
failure verb path error =
    if error == 32 || error == 33 || error == 995
    then in_use path
    else if leb 6800 error && leb error 6899
    then path
      ++ bytes " is held by another process's file transaction (Win32 error "
      ++ to_decimal error
      ++ bytes ")"
    else verb ++ bytes " " ++ path ++ bytes ": Win32 error " ++ to_decimal error

-- What `recv_timeout` comes to.
pub data Received {ℓ} (A : Type ℓ) : Type ℓ where
  answered : Result Text A → Received A
  disconnected timed_out : Received A

-- `CANCEL_TRIES`.
abbrev pub cancel_tries : ℕ
cancel_tries = 50

-- The waits after a cancellation, with so many tries left; each answer is taken from the list.
unfoldable pub cancelled : {A : Type 0} → ℕ → Text → (ℕ → Received A) → Result Text A
cancelled zero path receive = err (in_use path)
cancelled (suc tries) path receive =
    let rest = cancelled tries path receive in
    elim (receive tries) [
      | answered result ↦ result
      | disconnected ↦ err (in_use path)
      | timed_out ↦ rest
    ]

-- `bounded`, after its thread has started: the first wait, and then the tries.
unfoldable pub bounded : {A : Type 0} → Text → Received A → (ℕ → Received A) → Result Text A
unfolding cancelled
bounded path (answered result) receive = result
bounded path disconnected receive = err (bytes "the operation on " ++ path ++ bytes " panicked")
bounded path timed_out receive = cancelled cancel_tries path receive

-- `open_raw`, by its Win32 error: 2 and 3 are ERROR_FILE_NOT_FOUND and ERROR_PATH_NOT_FOUND.
unfoldable pub open_raw : Result ℕ Handle → Result ℕ (Option Handle)
open_raw (ok handle) = ok (some handle)
open_raw (err error) = if error == 2 || error == 3 then ok none else err error

-- The operation of `open_existing`.
unfoldable pub open_existing : Text → Result ℕ Handle → Result Text (Option Handle)
open_existing path created = map_err (failure (bytes "open") path) (open_raw created)

-- The operation of `open_waiting`.
unfoldable pub open_waiting : Text → Result ℕ Handle → Result Text Handle
open_waiting path created =
    open_existing path created >>= λ handle. ok_or handle (path ++ bytes " does not exist")
