-- ===== src/Service/Migration/Copies/Reports.antt =====
-- agent/cg-agent/src/service/migration.rs: what the report of a pass says of the old copies.
use cyber_guard_enterprise.Prelude.{
  bytes, ◌∙◌, ◌≡◌, refl, sym, ap, subst, Bool, true, false, [], ◌∷◌, Option, none, some, Text, All,
  All-map, inl, inr, ◌⊎◌, if◌then◌else◌,
}
use cyber_guard_enterprise.Prelude.Results.{
  ◌>>=◌, ok_or, ◌>>◌, map_err, Result, ok, err, Done, done, >>=-ok, ok-ok,
}
use cyber_guard_enterprise.Service.Migration.Arguments.{Choice, remove, keep, Texts}
use cyber_guard_enterprise.Service.Migration.Entries.{file_name}
use cyber_guard_enterprise.Service.Migration.Host.{answer, Record, Injected, fails, crash, texts_eq}
use cyber_guard_enterprise.Service.Migration.Copies.{
  Copies, no_copies, Directory, take_copies, sort, restricted_first, removed_last, empty_directory,
  is_nothing, rewrite_record, pass, copies, restrict_legacy_directory, remove_legacy_directory,
}
use cyber_guard_enterprise.Service.Migration.Copies.Objects.{
  WasDeleted, remove_legacy_directory-WasDeleted,
}
use cyber_guard_enterprise.Service.Migration.Copies.Taken.{
  All-sort, IsSound, missed-IsSound, take_copies_directory, take_copies_lem,
}
use cyber_guard_enterprise.Service.Migration.Copies.Extends.{
  IsReported, Extends, Extends-IsReported, Extends-refl, missed-Extends, some-some,
}

-- The report at the end of a pass, from the one before the directory's removal.
abbrev Removes : Directory → Choice → Copies → Type 0
Removes d choice report =
    report.directory_removed ≡ true → (choice ≡ remove) × (d.listed_again ≡ ok []) × WasDeleted d

abbrev Finishes : Directory → Record → Choice → Copies → Copies → Type 0
Finishes d r choice report report' =
    Extends report report' × IsSound d r choice report' × Removes d choice report'

idle-Finishes :
    (d : Directory) (r : Record) (choice : Choice) (report report' : Copies)
    → ◌≡◌ {A = Result Text Copies} (ok report) (ok report')
    → IsSound d r choice report
    → report.directory_removed ≡ false
    → Finishes d r choice report report'
idle-Finishes d r choice report report' h sound there =
    subst (Finishes d r choice report) (ok-ok h) (Extends-refl report, sound, λ e. cc)

removed_last-Finishes :
    (d : Directory) (r : Record) (report report' : Copies) (cut : Result Injected Done)
    → remove_legacy_directory d ≡ cut
    → removed_last d report cut ≡ ok report'
    → d.listed_again ≡ ok []
    → IsSound d r remove report
    → report.directory_removed ≡ false
    → Finishes d r remove report report'
unfolding removed_last
removed_last-Finishes d r report report' (ok done) cuts h nothing sound there =
    subst (Finishes d r remove report) (ok-ok h) (
      record { restricts = λ n h. h; misses = λ n h. h },
      record { keeps = sound.keeps; restricts = sound.restricts; removes = sound.removes },
      λ e. (refl, nothing, remove_legacy_directory-WasDeleted d cuts),
    )
removed_last-Finishes d r report report' (err crash) cuts h nothing sound there = cc
removed_last-Finishes d r report report' (err (fails reason)) cuts h nothing sound there =
    subst (Finishes d r remove report) (ok-ok h) (
      missed-Extends (file_name d.legacy_path) report,
      missed-IsSound d r remove (file_name d.legacy_path) report sound,
      λ e. cc,
    )

empty_directory-Finishes :
    (d : Directory) (r : Record) (choice : Choice) (restricted : Bool) (report report' : Copies)
    → empty_directory d choice restricted report ≡ ok report'
    → IsSound d r choice report
    → report.directory_removed ≡ false
    → Finishes d r choice report report'
unfolding empty_directory
empty_directory-Finishes d r keep restricted report report' h sound there =
    idle-Finishes d r keep report report' h sound there
empty_directory-Finishes d r remove false report report' h sound there =
    idle-Finishes d r remove report report' h sound there
empty_directory-Finishes d r remove true report report' h sound there =
    let (names, lists, h) = >>=-ok d.listed_again _ h in listing names lists h
  where
    listing :
        (names : Texts)
        → d.listed_again ≡ ok names
        → (if is_nothing names
            then removed_last d report (remove_legacy_directory d)
            else ok report)
          ≡ ok report'
        → Finishes d r remove report report'
    listing [] lists h =
        removed_last-Finishes d r report report' (remove_legacy_directory d) refl h lists sound
          there
    listing (n ∷ names) lists h = idle-Finishes d r remove report report' h sound there

-- What a pass over a legacy directory did: each object that it holds is reported, what is reported as
-- done was done to the recorded files, and the record that is written, if one is.
pub record IsAccount (d : Directory) (r : Record) (report : Copies) (written : Option Record)
    : Type 0 where
  pub names : Texts
  pub lists : d.listed ≡ ok names
  pub reports : All (IsReported report) names
  pub sound : IsSound d r r.choice report
  pub removes :
      report.directory_removed ≡ true
      → (r.choice ≡ remove) × (d.listed_again ≡ ok []) × WasDeleted d
  pub records :
      (r' : Record) → written ≡ some r' → r' ≡ record r { copies_not_reached = report.not_reached }

restricted_first-IsSound :
    (d : Directory) (r : Record) (choice : Choice) (cut : Result Injected Done)
    (first : Bool × Copies)
    → restricted_first d cut ≡ ok first
    → IsSound d r choice first.1 × (first.1.directory_removed ≡ false)
unfolding restricted_first
restricted_first-IsSound d r choice (ok x) first h =
    subst (λ first. IsSound d r choice first.1 × (first.1.directory_removed ≡ false)) (ok-ok h)
      (record { keeps = λ e. refl; restricts = λ n h. cc; removes = λ n h. cc }, refl)
restricted_first-IsSound d r choice (err crash) first h = cc
restricted_first-IsSound d r choice (err (fails reason)) first h =
    subst (λ first. IsSound d r choice first.1 × (first.1.directory_removed ≡ false)) (ok-ok h)
      (record { keeps = λ e. refl; restricts = λ n h. cc; removes = λ n h. cc }, refl)

rewrite_record_lem :
    (d : Directory) (r : Record) (report : Copies) (r' : Record)
    → rewrite_record d r report ≡ some r'
    → r' ≡ record r { copies_not_reached = report.not_reached }
unfolding rewrite_record
rewrite_record_lem d r report r' h =
    written (texts_eq r.copies_not_reached report.not_reached)
      (answer d.at_rewrite >> map_err fails d.rewritten) h
  where
    written :
        (same : Bool) (w : Result Injected Done)
        → (if same then none else (elim w [
          | ok x ↦ some (record r { copies_not_reached = report.not_reached })
          | err cut ↦ none
        ]))
          ≡ some r'
        → r' ≡ record r { copies_not_reached = report.not_reached }
    written true w h = cc
    written false (ok x) h = sym (some-some h)
    written false (err cut) h = cc

pass-IsAccount :
    (d : Directory) (r : Record) (report : Copies) (written : Option Record)
    → pass d r ≡ ok (report, written)
    → IsAccount d r report written
unfolding pass
pass-IsAccount d r report written h =
    let (first, firsts, h) = >>=-ok (restricted_first d (restrict_legacy_directory d)) _ h in
    let (names, lists, h) = >>=-ok d.listed _ h in
    let (taken, takes, h) = >>=-ok (take_copies d r (sort names) first.1) _ h in
    let (final, finishes, h) = >>=-ok (empty_directory d r.choice first.0 taken) _ h in
    let (sound, there) =
      restricted_first-IsSound d r r.choice (restrict_legacy_directory d) first firsts in
    let (more, reported, sound') = take_copies_lem d r (sort names) first.1 taken takes sound in
    let (last, sound'', removes) =
      empty_directory-Finishes d r r.choice first.0 taken final finishes sound'
        (take_copies_directory d r (sort names) first.1 taken takes ∙ there) in
    let same : ◌≡◌ {A = Copies × Option Record} (final, rewrite_record d r final)
        (report, written) =
      ok-ok h in
    subst (λ x. IsAccount d r x.0 x.1) same
      (record {
        names = names;
        lists = lists;
        reports =
            All-map (IsReported taken) (IsReported final) (Extends-IsReported taken final last)
              names (All-sort (IsReported taken) names reported);
        sound = sound'';
        removes = removes;
        records = rewrite_record_lem d r final;
      })

-- A pass over the old copies that comes to its end, with the record of the data root, either finds
-- no legacy directory that counts, and does nothing, or reports each object of the legacy directory
-- as restricted or as not reached. What it reports as restricted was opened, was found through that
-- handle to be the recorded file of that name with one link, and was secured; what it reports as
-- removed is among those, was opened again and found to be that file still, and was deleted; nothing
-- is removed where the choice is to keep the copies. The directory is reported as removed only where
-- the choice is to remove them and it listed nothing more, was opened as a directory and was deleted.
-- A record that it writes is the one read but for the copies that were not reached, which are the
-- report's.
pub copies-IsAccount :
    (d : Directory) (r : Record) (report : Copies) (written : Option Record)
    → d.root_record ≡ ok (some r)
    → copies d ≡ ok (report, written)
    → ((d.is_counted ≡ false) × (report ≡ no_copies) × (written ≡ none))
      ⊎ IsAccount d r report written
unfolding copies
copies-IsAccount d r report written read h = counted d.is_counted refl (
    sym (
      ap
        (λ found. map_err (λ stop. bytes "the record cannot be read") found >>= λ found.
          ok_or found (bytes "the data root holds no record") >>= λ r.
          if d.is_counted then pass d r else ok (no_copies, none))
        read)
    ∙ h)
  where
    counted :
        (b : Bool)
        → d.is_counted ≡ b
        → (if b then pass d r else ok (no_copies, none)) ≡ ok (report, written)
        → ((d.is_counted ≡ false) × (report ≡ no_copies) × (written ≡ none))
          ⊎ IsAccount d r report written
    counted true e h = inr (pass-IsAccount d r report written h)
    counted false e h =
        let same : ◌≡◌ {A = Copies × Option Record} (no_copies, none) (report, written) = ok-ok h in
        inl (e, sym (ap (λ x. x.0) same), sym (ap (λ x. x.1) same))
