-- ===== src/Service/Migration/Files/Trusted.antt =====
-- agent/cg-agent/src/service/migration.rs: what a file is that passes the check.
use cyber_guard_enterprise.Prelude.{
  ◌≡◌, sym, ap, subst, ◌∙◌, true, ◌||◌, not, Option, none, Text, ◌==◌, arith, if◌then◌else◌,
}
use cyber_guard_enterprise.Prelude.Results.{
  Result, ok, guard, map_err, >>-ok, >>=-ok, guard-ok, ok-ok, map_err-ok,
}
use cyber_guard_enterprise.Custody.{owned_by}
use cyber_guard_enterprise.Custody.Security.{
  Sid, Sids, any_matches, Information, Descriptor, Handle,
}
use cyber_guard_enterprise.Custody.Descriptors.{IsFile}
use cyber_guard_enterprise.Service.Migration.Entries.{has_name}
use cyber_guard_enterprise.Service.Migration.Host.{identity_files}
use cyber_guard_enterprise.Service.Migration.Files.{
  MigrationCustody, check_identity_file, check_file, FileId,
}
use cyber_guard_enterprise.Service.Migration.Files.Private.{
  IsPrivate, check_identity_file-IsPrivate,
}

module _ (sids : Sids) (custody : MigrationCustody) where
  -- A file that was checked, with the account that it allows besides the service.
  pub record IsTrusted (handle : Handle) (path : Text) (name : Text) (others : Option Sid)
      (id : FileId) : Type 0 where
    pub info : Information
    pub informed : handle.information ≡ ok info
    pub is_file : IsFile info
    pub has_id : id ≡ info.id
    pub descriptor : Descriptor
    pub secured : handle.security ≡ ok descriptor
    pub owner : Option Sid
    pub has_owner : descriptor.owner ≡ ok owner
    pub is_owned : any_matches sids custody.owners owner ≡ true
    pub is_private :
        has_name name identity_files ≡ true → IsPrivate sids custody others descriptor path

  owned_by-ok :
      (descriptor : Descriptor)
      → owned_by sids descriptor custody.owners ≡ ok true
      → (owner : Option Sid) × (descriptor.owner ≡ ok owner)
        × (any_matches sids custody.owners owner ≡ true)
  unfolding owned_by
  owned_by-ok descriptor h =
      let (owner, has_owner, rest) = >>=-ok (map_err _ descriptor.owner) _ h in
      (owner, map_err-ok _ descriptor.owner has_owner, cc)

  pub check_file-IsTrusted :
      (opened : Result Text Handle) (path name : Text) (id : FileId) (others : Option Sid)
      → check_file sids custody opened path name ≡ ok (id, others)
      → (handle : Handle) × (opened ≡ ok handle) × IsTrusted handle path name others id
  unfolding check_file
  check_file-IsTrusted opened path name id others h =
      let (handle, open_, h) = >>=-ok opened _ h in
      let (info, informed, h) = >>=-ok handle.information _ h in
      let (regular, h) = >>-ok (guard _ _) _ h in
      let (one, h) = >>-ok (guard _ _) _ h in
      let (descriptor, secured, h) = >>=-ok handle.security _ h in
      let (owned, owns, h) = >>=-ok (owned_by sids descriptor custody.owners) _ h in
      let (is_owned, h) = >>-ok (guard _ _) _ h in
      let (found, finds, h) =
        >>=-ok
          (if has_name name identity_files
            then check_identity_file sids custody descriptor path
            else ok none)
          _ h in
      let regular = guard-ok (not (info.is_reparse_point || info.is_directory)) _ regular in
      let one = guard-ok (info.number_of_links == 1) _ one in
      let is_owned = guard-ok owned _ is_owned in
      let (owner, has_owner, fits) = owned_by-ok descriptor (owns ∙ ap ok is_owned) in
      let same : ◌≡◌ {A = FileId × Option Sid} (info.id, found) (id, others) = ok-ok h in
      (
        handle,
        open_,
        record {
          info = info;
          informed = informed;
          is_file = record {
            plain = ground (arith, regular);
            regular = ground (arith, regular);
            one_link = ground (arith, one);
          };
          has_id = sym (ap (λ x. x.0) same);
          descriptor = descriptor;
          secured = secured;
          owner = owner;
          has_owner = has_owner;
          is_owned = fits;
          is_private = λ identity.
              check_identity_file-IsPrivate sids custody descriptor path others (
                subst
                  (λ b.
                    (if b then check_identity_file sids custody descriptor path else ok none)
                    ≡ ok others)
                  identity (finds ∙ ap (λ x. ok (x.1)) same));
        },
      )
