-- ===== src/Service/Migration/Files/Checks.antt =====
-- agent/cg-agent/src/service/migration.rs: what check_what_is_there has found when it goes on.
use cyber_guard_enterprise.Prelude.{
  ◌≡◌, refl, sym, ap, subst, ◌∙◌, Bool, true, false, [], ◌∷◌, ◌++◌, map, append-nil, append_assoc,
  Option, none, some, Text, text_eq, text_eq_iff, leb, All, All-map, All-append, map-append, arith,
  Bool-cases, inl, inr, ◌⊎◌, if◌then◌else◌,
}
use cyber_guard_enterprise.Prelude.Results.{
  ok, done, guard, map_err, >>-ok, >>=-ok, guard-ok, ok-ok, map_err-ok,
}
use cyber_guard_enterprise.Custody.Security.{Sid, Sids, Handle}
use cyber_guard_enterprise.Service.Migration.Arguments.{Texts}
use cyber_guard_enterprise.Service.Migration.Entries.{
  has_name, required_names, Paths, in_directory, check_root_entries, data_root_names,
  check_required_names,
}
use cyber_guard_enterprise.Service.Migration.Host.{fails, answer}
use cyber_guard_enterprise.Service.Migration.Route.Staging.{naming}
use cyber_guard_enterprise.Service.Migration.Files.{
  MigrationCustody, check_file, FileId, Checked, agree, Answers, check_each, position_in,
  insert_name, sort_names, names_to_check, no_files, check_what_is_there,
}
use cyber_guard_enterprise.Service.Migration.Files.Trusted.{IsTrusted, check_file-IsTrusted}

agree-ok :
    (path : Text) (account others account' : Option Sid)
    → agree path account others ≡ ok account'
    → ((account ≡ none) ⊎ (account' ≡ account)) × ((others ≡ none) ⊎ (account' ≡ others))
unfolding agree
agree-ok path account none account' h = (inr (sym (ok-ok h)), inl refl)
agree-ok path none (some other) account' h = (inl refl, inr (sym (ok-ok h)))
agree-ok path (some account) (some other) account' h =
    let (same, rest) = >>-ok (guard (text_eq account other) _) (ok (some other)) h in
    let e : account ≡ other = (text_eq_iff account other).0 (guard-ok _ _ same) in
    (inr (sym (ok-ok rest) ∙ ap some (sym e)), inr (sym (ok-ok rest)))

has_name_later :
    (s n : Text) (names : Texts) → has_name s names ≡ true → has_name s (n ∷ names) ≡ true
has_name_later s n names h = elim (Bool-cases (text_eq s n)) [
  | inl same ↦ ground (arith, same)
  | inr other ↦ ground (arith, other, h)
]

-- Sorting keeps the names.
insert_name-keeps :
    (s n : Text) (names : Texts)
    → has_name s (n ∷ names) ≡ true
    → has_name s (insert_name n names) ≡ true
insert_name-keeps s n [] h = h
insert_name-keeps s n (m ∷ names) h =
    placed (insert_name-keeps s n names)
      (leb (position_in required_names n) (position_in required_names m)) (Bool-cases (text_eq s m))
  where
    passed :
        (text_eq s n ≡ true) ⊎ (text_eq s n ≡ false)
        → text_eq s m ≡ false
        → has_name s (n ∷ names) ≡ true
    passed (inl same) other = ground (arith, same)
    passed (inr not_it) other = ground (arith, not_it, other, h)

    placed :
        (has_name s (n ∷ names) ≡ true → has_name s (insert_name n names) ≡ true)
        → (before : Bool) → (text_eq s m ≡ true) ⊎ (text_eq s m ≡ false)
        → has_name s (if before then n ∷ m ∷ names else m ∷ insert_name n names) ≡ true
    placed keeps true e = h
    placed keeps false (inl same) = ground (arith, same)
    placed keeps false (inr other) =
        has_name_later s m (insert_name n names) (keeps (passed (Bool-cases (text_eq s n)) other))

sort_names-keeps :
    (s : Text) (names : Texts) → has_name s names ≡ true → has_name s (sort_names names) ≡ true
sort_names-keeps s [] h = h
sort_names-keeps s (n ∷ names) h =
    insert_name-keeps s n (sort_names names)
      (first (sort_names-keeps s names) (Bool-cases (text_eq s n)))
  where
    first :
        (has_name s names ≡ true → has_name s (sort_names names) ≡ true)
        → (text_eq s n ≡ true) ⊎ (text_eq s n ≡ false)
        → has_name s (n ∷ sort_names names) ≡ true
    first keeps (inl same) = ground (arith, same)
    first keeps (inr other) =
        has_name_later s n (sort_names names) (keeps (ground (arith, other, h)))

check_required_names-ok :
    (paths : Paths) (names required : Texts)
    → check_required_names paths names required ≡ ok done
    → All (λ r. has_name r names ≡ true) required
unfolding check_required_names
check_required_names-ok paths names [] h = tt
check_required_names-ok paths names (r ∷ required) h =
    let (there, rest) =
      >>-ok (guard (has_name r names) _) (check_required_names paths names required) h in
    (guard-ok _ _ there, check_required_names-ok paths names required rest)

module _ (sids : Sids) (custody : MigrationCustody) (paths : Paths) (answers : Answers) where
  -- A file that was checked through its handle, and that allows no other account than the one found.
  abbrev pub IsFound : Option Sid → Text × FileId → Type 0
  IsFound account (name, id) =
      (others : Option Sid) × (((handle : Handle) × (answers.opened name ≡ ok handle)
          × IsTrusted sids custody handle (in_directory paths.data_root name) name others id)
        × ((others ≡ none) ⊎ (account ≡ others)))

  IsFound-later :
      (account account' : Option Sid)
      → (account ≡ none) ⊎ (account' ≡ account)
      → (file : Text × FileId) → IsFound account file
      → IsFound account' file
  IsFound-later account account' e file (others, (trusted, inl nobody)) =
      (others, (trusted, inl nobody))
  IsFound-later account account' (inl nothing) file (others, (trusted, inr same)) =
      (others, (trusted, inl (sym same ∙ nothing)))
  IsFound-later account account' (inr kept) file (others, (trusted, inr same)) =
      (others, (trusted, inr (kept ∙ same)))

  check_each-IsFound :
      (names : Texts) (checked final : Checked)
      → check_each sids custody paths answers names checked ≡ ok final
      → All (IsFound checked.enrolling_account) checked.files
      → All (IsFound final.enrolling_account) final.files
        × (map (λ file. file.0) final.files ≡ map (λ file. file.0) checked.files ++ names)
  unfolding check_each
  check_each-IsFound [] checked final h found = (
    subst (λ c. All (IsFound c.enrolling_account) c.files) (ok-ok h) found,
    sym (ap (λ c. map (λ file. file.0) c.files) (ok-ok h))
        ∙ sym (append-nil (map (λ file. file.0) checked.files)),
  )
  check_each-IsFound (name ∷ names) checked final h found =
      let (asked, h) =
        >>-ok
          (map_err (naming (in_directory paths.data_root name)) (answer (answers.at_check name))) _
          h in
      let (file, checks, h) =
        >>=-ok
          (map_err fails (
            check_file sids custody (answers.opened name) (in_directory paths.data_root name) name))
          _ h in
      let (account, agrees, h) =
        >>=-ok
          (map_err fails
            (agree (in_directory paths.data_root name) checked.enrolling_account file.1))
          _ h in
      let (kept, same) =
        agree-ok (in_directory paths.data_root name) checked.enrolling_account file.1 account
          (map_err-ok fails _ agrees) in
      let (all, named) =
        check_each-IsFound names
          (record { files = checked.files ++ (name, file.0) ∷ []; enrolling_account = account })
          final h
          (All-append (IsFound account) checked.files ((name, file.0) ∷ [])
            (All-map (IsFound checked.enrolling_account) (IsFound account)
              (IsFound-later checked.enrolling_account account kept) checked.files found)
            (
              (
                file.1,
                (
                  check_file-IsTrusted sids custody (answers.opened name)
                      (in_directory paths.data_root name) name file.0 file.1
                      (map_err-ok fails _ checks),
                  same,
                ),
              ),
              tt,
            )) in
      (
        all,
        named
            ∙ ap (λ l. l ++ names) (map-append (λ file. file.0) checked.files ((name, file.0) ∷ []))
            ∙ append_assoc (map (λ file. file.0) checked.files) (name ∷ []) names,
      )

  -- What the checks have found: each file checked through its handle, with at most one other account
  -- among them, and every file that a console installation has.
  pub record IsChecked (checked : Checked) : Type 0 where
    pub files_found : All (IsFound checked.enrolling_account) checked.files
    pub has_required :
        All (λ r. has_name r (map (λ file. file.0) checked.files) ≡ true) required_names

  names_to_check-ok :
      (continued : Bool) (names : Texts)
      → names_to_check paths answers continued ≡ ok names
      → All (λ r. has_name r names ≡ true) required_names
  unfolding names_to_check
  names_to_check-ok continued names h =
      let (rooted, h) = >>-ok (check_root_entries paths continued answers.root_entries) _ h in
      let (sensitive, asked, h) = >>=-ok answers.is_case_sensitive _ h in
      let (plain, h) = >>-ok (guard _ _) _ h in
      let (found, lists, h) = >>=-ok (data_root_names paths answers.data_root_entries) _ h in
      let (there, h) =
        >>-ok (check_required_names paths found required_names) (ok (sort_names found)) h in
      subst (λ names. All (λ r. has_name r names ≡ true) required_names) (ok-ok h)
        (All-map (λ r. has_name r found ≡ true) (λ r. has_name r (sort_names found) ≡ true)
          (λ r. sort_names-keeps r found) required_names
          (check_required_names-ok paths found required_names there))

  -- When the checks go on, each file found has been a regular file with one link, owned by one of
  -- the owners, the DACL of each identity file has let in no one but the service, Administrators or
  -- one other account, which is the same for them all, and no file of a console installation was
  -- missing.
  pub check_what_is_there-IsChecked :
      (continued : Bool) (checked : Checked)
      → check_what_is_there sids custody paths answers continued ≡ ok checked
      → IsChecked checked
  unfolding check_what_is_there
  check_what_is_there-IsChecked continued checked h =
      let (names, listed, h) =
        >>=-ok (map_err fails (names_to_check paths answers continued)) _ h in
      let (found, named) = check_each-IsFound names no_files checked h tt in
      record {
        files_found = found;
        has_required =
            subst (λ l. All (λ r. has_name r l ≡ true) required_names) (sym named)
              (names_to_check-ok continued names (map_err-ok fails _ listed));
      }
