-- ===== src/Service/Migration/Copies/Objects.antt =====
-- agent/cg-agent/src/service/migration.rs: what was done to an object of the legacy directory that was
-- restricted, and to one that was removed.
use cyber_guard_enterprise.Prelude.{
  ◌≡◌, refl, true, false, not, ◌||◌, Option, none, some, Text, text_eq_iff, ◌==◌, arith,
}
use cyber_guard_enterprise.Prelude.Results.{ok, done, guard, >>-ok, >>=-ok, guard-ok, map_err-ok}
use cyber_guard_enterprise.Custody.Security.{Handle, Information, directory, check_shape, shape_of}
use cyber_guard_enterprise.Service.Migration.Entries.{known_name, in_directory}
use cyber_guard_enterprise.Service.Migration.Host.{Record, fails, answer}
use cyber_guard_enterprise.Service.Migration.Copies.{
  Directory, show_id, id_of, is_expected, expected, check_copy, restrict_known, restrict_copy,
  remove_copy, remove_legacy_directory,
}

-- The object behind a handle is the file of that name that the migration recorded, with one link.
pub record IsRecorded (r : Record) (name : Text) (handle : Handle) : Type 0 where
  pub info : Information
  pub informs : handle.information ≡ ok info
  pub plain : info.is_reparse_point ≡ false
  pub regular : info.is_directory ≡ false
  pub one_link : info.number_of_links ≡ 1
  pub known : Text
  pub knows : known_name name ≡ some known
  pub recorded : id_of known r.files ≡ some (show_id info.id)

-- An object that was opened, found to be the recorded file through that handle, and secured.
pub record WasRestricted (d : Directory) (r : Record) (name : Text) : Type 0 where
  pub handle : Handle
  pub opens : d.copy_opened name ≡ ok handle
  pub is_recorded : IsRecorded r name handle
  pub secures : d.copy_secured name ≡ ok done

-- An object that was opened again, found to be the recorded file still, and deleted.
pub record WasRemoved (d : Directory) (r : Record) (name : Text) : Type 0 where
  pub handle : Handle
  pub reopens : d.copy_reopened name ≡ ok handle
  pub is_recorded : IsRecorded r name handle
  pub deletes : d.copy_deleted name ≡ ok done

-- The legacy directory, opened again as a directory and deleted.
pub record WasDeleted (d : Directory) : Type 0 where
  pub handle : Handle
  pub reopens : d.reopened ≡ ok handle
  pub info : Information
  pub informs : handle.information ≡ ok info
  pub plain : info.is_reparse_point ≡ false
  pub is_directory : info.is_directory ≡ true
  pub deletes : d.deleted ≡ ok done

expected-some :
    (o : Option Text) (r : Record) (id : Text)
    → is_expected (expected o r) id ≡ true
    → (known : Text) × (o ≡ some known) × (id_of known r.files ≡ some id)
expected-some none r id h = cc
expected-some (some known) r id h = (known, refl, found (id_of known r.files) h)
  where
    found : (own : Option Text) → is_expected own id ≡ true → own ≡ some id
    found none h = cc
    found (some own) h = let e = (text_eq_iff own id).0 h in cc

check_copy-IsRecorded :
    (handle : Handle) (path name : Text) (r : Record)
    → check_copy handle path name r ≡ ok done
    → IsRecorded r name handle
unfolding check_copy
check_copy-IsRecorded handle path name r h =
    let (info, informs, h) = >>=-ok handle.information _ h in
    let (regular, h) = >>-ok (guard _ _) _ h in
    let (same, one) = >>-ok (guard _ _) _ h in
    let regular = guard-ok (not (info.is_reparse_point || info.is_directory)) _ regular in
    let one = guard-ok (info.number_of_links == 1) _ one in
    let (known, knows, recorded) =
      expected-some (known_name name) r (show_id info.id) (guard-ok _ _ same) in
    record {
      info = info;
      informs = informs;
      plain = ground (arith, regular);
      regular = ground (arith, regular);
      one_link = ground (arith, one);
      known = known;
      knows = knows;
      recorded = recorded;
    }

pub restrict_copy-WasRestricted :
    (d : Directory) (name : Text) (r : Record)
    → restrict_copy d name r ≡ ok done
    → WasRestricted d r name
unfolding restrict_copy restrict_known
restrict_copy-WasRestricted d name r h = by (known_name name) h
  where
    by : (known : Option Text) → restrict_known d name r known ≡ ok done → WasRestricted d r name
    by none h = cc
    by (some known) h =
        let (goes, h) = >>-ok (answer (d.at_copy known)) _ h in
        let (handle, opens, h) = >>=-ok (d.copy_opened name) _ (map_err-ok fails _ h) in
        let (checks, secures) =
          >>-ok (check_copy handle (in_directory d.legacy_path name) name r) _ h in
        record {
          handle = handle;
          opens = opens;
          is_recorded =
              check_copy-IsRecorded handle (in_directory d.legacy_path name) name r checks;
          secures = secures;
        }

pub remove_copy-WasRemoved :
    (d : Directory) (name : Text) (r : Record)
    → remove_copy d name r ≡ ok done
    → WasRemoved d r name
unfolding remove_copy
remove_copy-WasRemoved d name r h =
    let (handle, reopens, h) = >>=-ok (d.copy_reopened name) _ h in
    let (checks, deletes) =
      >>-ok (check_copy handle (in_directory d.legacy_path name) name r) _ h in
    record {
      handle = handle;
      reopens = reopens;
      is_recorded = check_copy-IsRecorded handle (in_directory d.legacy_path name) name r checks;
      deletes = deletes;
    }

pub remove_legacy_directory-WasDeleted :
    (d : Directory) → remove_legacy_directory d ≡ ok done → WasDeleted d
unfolding remove_legacy_directory check_shape shape_of
remove_legacy_directory-WasDeleted d h =
    let (goes, h) = >>-ok (answer d.at_remove) _ h in
    let (handle, reopens, h) = >>=-ok d.reopened _ (map_err-ok fails _ h) in
    let (checks, deletes) = >>-ok (check_shape handle d.legacy_path directory) _ h in
    let (info, informs, shape) = >>=-ok handle.information _ checks in
    record {
      handle = handle;
      reopens = reopens;
      info = info;
      informs = informs;
      plain = ground (arith, shape);
      is_directory = ground (arith, shape);
      deletes = deletes;
    }
