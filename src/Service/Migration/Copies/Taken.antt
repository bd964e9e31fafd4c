-- ===== src/Service/Migration/Copies/Taken.antt =====
-- agent/cg-agent/src/service/migration.rs: what the loop over the old copies reports of them.
use cyber_guard_enterprise.Prelude.{
  ◌∙◌, ◌≡◌, refl, sym, ap, subst, Bool, true, false, [], ◌∷◌, ◌++◌, Text, text_eq, text_eq_iff, All,
  arith, inl, inr, ◌⊎◌, if◌then◌else◌,
}
use cyber_guard_enterprise.Prelude.Results.{Result, ok, err, Done, done, >>=-ok, ok-ok}
use cyber_guard_enterprise.Service.Migration.Arguments.{Choice, remove, keep, Texts, text_lt}
use cyber_guard_enterprise.Service.Migration.Entries.{has_name}
use cyber_guard_enterprise.Service.Migration.Host.{Record, Injected, fails, crash}
use cyber_guard_enterprise.Service.Migration.Files.Private.{has_name-append, has_name-last}
use cyber_guard_enterprise.Service.Migration.Copies.Objects.{
  WasRestricted, WasRemoved, restrict_copy-WasRestricted, remove_copy-WasRemoved,
}
use cyber_guard_enterprise.Service.Migration.Copies.{
  Copies, missed, Directory, removal, chosen, remove_copy, take_copy, take_copies, restrict_copy,
  place, sort,
}
use cyber_guard_enterprise.Service.Migration.Copies.Extends.{
  IsReported, Extends, Extends-IsReported, Extends-refl, Extends-trans, missed-Extends,
  restricted-Extends,
}

-- What is reported as restricted and as removed was; and what was removed had been restricted, and was
-- to be removed.
pub record IsSound (d : Directory) (r : Record) (choice : Choice) (report : Copies) : Type 0 where
  pub keeps : choice ≡ keep → report.removed ≡ []
  pub restricts : (name : Text) → has_name name report.restricted ≡ true → WasRestricted d r name
  pub removes :
      (name : Text)
      → has_name name report.removed ≡ true
      → (has_name name report.restricted ≡ true) × WasRemoved d r name

pub has_name-either :
    (n m : Text) (names : Texts)
    → has_name n (names ++ m ∷ []) ≡ true
    → (has_name n names ≡ true) ⊎ (n ≡ m)
has_name-either n m [] h = inr ((text_eq_iff n m).0 (ground (arith, h)))
has_name-either n m (x ∷ names) h =
    split (text_eq n x) refl (λ rest. has_name-either n m names rest)
  where
    split :
        (b : Bool)
        → text_eq n x ≡ b
        → (has_name n (names ++ m ∷ []) ≡ true → (has_name n names ≡ true) ⊎ (n ≡ m))
        → (has_name n (x ∷ names) ≡ true) ⊎ (n ≡ m)
    split true e later = inl (ground (arith, e))
    split false e later = passed (later (ground (arith, e, h)))
      where
        passed : (has_name n names ≡ true) ⊎ (n ≡ m) → (has_name n (x ∷ names) ≡ true) ⊎ (n ≡ m)
        passed (inl there) = inl (ground (arith, e, there))
        passed (inr same) = inr same

module _ (d : Directory) (r : Record) where
  pub missed-IsSound :
      (choice : Choice) (name : Text) (report : Copies)
      → IsSound d r choice report
      → IsSound d r choice (missed name report)
  missed-IsSound choice name report sound = record {
    keeps = sound.keeps;
    restricts = sound.restricts;
    removes = sound.removes;
  }

  pub restricted-IsSound :
      (choice : Choice) (name : Text) (report : Copies)
      → WasRestricted d r name
      → IsSound d r choice report
      → IsSound d r choice (record report { restricted = report.restricted ++ name ∷ [] })
  restricted-IsSound choice name report was sound = record {
    keeps = sound.keeps;
    restricts = λ n h. done_to n (has_name-either n name report.restricted h);
    removes = λ n h.
        let (there, removed) = sound.removes n h in
        (has_name-append n report.restricted (name ∷ []) there, removed);
  }
    where
      done_to :
          (n : Text) → (has_name n report.restricted ≡ true) ⊎ (n ≡ name) → WasRestricted d r n
      done_to n (inl h) = sound.restricts n h
      done_to n (inr same) = subst (WasRestricted d r) (sym same) was

  pub removal_lem :
      (name : Text) (result : Result Text Done) (report : Copies)
      → remove_copy d name r ≡ result
      → IsSound d r remove report
      → has_name name report.restricted ≡ true
      → Extends report (removal name result report)
        × IsSound d r remove (removal name result report)
  unfolding removal
  removal_lem name (ok done) report removes sound there = (
    record { restricts = λ n h. h; misses = λ n h. h },
    record {
      keeps = λ e. cc;
      restricts = sound.restricts;
      removes = λ n h. done_to n (has_name-either n name report.removed h);
    },
  )
    where
      done_to :
          (n : Text)
          → (has_name n report.removed ≡ true) ⊎ (n ≡ name)
          → (has_name n report.restricted ≡ true) × WasRemoved d r n
      done_to n (inl h) = sound.removes n h
      done_to n (inr same) =
          subst (λ n. (has_name n report.restricted ≡ true) × WasRemoved d r n) (sym same)
            (there, remove_copy-WasRemoved d name r removes)
  removal_lem name (err reason) report removes sound there =
      (missed-Extends name report, missed-IsSound remove name report sound)

  pub chosen_lem :
      (name : Text) (choice : Choice) (report : Copies)
      → IsSound d r choice report
      → has_name name report.restricted ≡ true
      → Extends report (chosen d name r choice report)
        × IsSound d r choice (chosen d name r choice report)
  unfolding chosen
  chosen_lem name keep report sound there = (Extends-refl report, sound)
  chosen_lem name remove report sound there =
      removal_lem name (remove_copy d name r) report refl sound there

  pub take_copy_lem :
      (name : Text) (cut : Result Injected Done) (report report' : Copies)
      → restrict_copy d name r ≡ cut
      → take_copy d name r cut report ≡ ok report'
      → IsSound d r r.choice report
      → Extends report report' × IsReported report' name × IsSound d r r.choice report'
  unfolding take_copy
  take_copy_lem name (ok done) report report' restricts h sound =
      let first : Copies = record report { restricted = report.restricted ++ name ∷ [] } in
      let there = has_name-last name report.restricted in
      let (more, sound') =
        chosen_lem name r.choice (record report { restricted = report.restricted ++ name ∷ [] })
          (restricted-IsSound r.choice name report (restrict_copy-WasRestricted d name r restricts)
            sound)
          there in
      subst
        (λ report'. Extends report report' × IsReported report' name × IsSound d r r.choice report')
        (ok-ok h)
        (
          Extends-trans report first (chosen d name r r.choice first)
              (restricted-Extends name report) more,
          inl (more.restricts name there),
          sound',
        )
  take_copy_lem name (err crash) report report' restricts h sound = cc
  take_copy_lem name (err (fails reason)) report report' restricts h sound =
      subst
        (λ report'. Extends report report' × IsReported report' name × IsSound d r r.choice report')
        (ok-ok h)
        (
          missed-Extends name report,
          inr (has_name-last name report.not_reached),
          missed-IsSound r.choice name report sound,
        )

pub take_copies_lem :
    (d : Directory) (r : Record) (names : Texts) (report report' : Copies)
    → take_copies d r names report ≡ ok report'
    → IsSound d r r.choice report
    → Extends report report' × All (IsReported report') names × IsSound d r r.choice report'
unfolding take_copies
take_copies_lem d r [] report report' h sound =
    subst (λ report'. Extends report report' × Unit × IsSound d r r.choice report') (ok-ok h)
      (Extends-refl report, tt, sound)
take_copies_lem d r (name ∷ names) report report' h sound =
    let (taken, takes, h) = >>=-ok (take_copy d name r (restrict_copy d name r) report) _ h in
    let (more, reported, sound') =
      take_copy_lem d r name (restrict_copy d name r) report taken refl takes sound in
    let (rest, all, sound'') = take_copies_lem d r names taken report' h sound' in
    (
      Extends-trans report taken report' more rest,
      (Extends-IsReported taken report' rest name reported, all),
      sound'',
    )

pub removal_directory :
    (name : Text) (r : Result Text Done) (report : Copies)
    → (removal name r report).directory_removed ≡ report.directory_removed
unfolding removal
removal_directory name (ok d) report = refl
removal_directory name (err reason) report = refl

pub chosen_directory :
    (d : Directory) (name : Text) (r : Record) (choice : Choice) (report : Copies)
    → (chosen d name r choice report).directory_removed ≡ report.directory_removed
unfolding chosen
chosen_directory d name r keep report = refl
chosen_directory d name r remove report = removal_directory name (remove_copy d name r) report

pub take_copy_directory :
    (d : Directory) (name : Text) (r : Record) (cut : Result Injected Done)
    (report report' : Copies)
    → take_copy d name r cut report ≡ ok report'
    → report'.directory_removed ≡ report.directory_removed
unfolding take_copy
take_copy_directory d name r (ok x) report report' h =
    sym (ap (λ report. report.directory_removed) (ok-ok h))
    ∙ chosen_directory d name r r.choice
        (record report { restricted = report.restricted ++ name ∷ [] })
take_copy_directory d name r (err crash) report report' h = cc
take_copy_directory d name r (err (fails reason)) report report' h =
    sym (ap (λ report. report.directory_removed) (ok-ok h))

pub take_copies_directory :
    (d : Directory) (r : Record) (names : Texts) (report report' : Copies)
    → take_copies d r names report ≡ ok report'
    → report'.directory_removed ≡ report.directory_removed
unfolding take_copies
take_copies_directory d r [] report report' h =
    sym (ap (λ report. report.directory_removed) (ok-ok h))
take_copies_directory d r (name ∷ names) report report' h =
    let (taken, takes, h) = >>=-ok (take_copy d name r (restrict_copy d name r) report) _ h in
    take_copies_directory d r names taken report' h
    ∙ take_copy_directory d name r (restrict_copy d name r) report taken takes

pub All-place :
    (P : Text → Type 0) (name : Text) (names : Texts)
    → All P (place name names)
    → P name × All P names
All-place P name [] h = h
All-place P name (n ∷ names) h = placed (text_lt n name) h (All-place P name names)
  where
    placed :
        (b : Bool)
        → All P (if b then n ∷ place name names else name ∷ n ∷ names)
        → (All P (place name names) → P name × All P names)
        → P name × (P n × All P names)
    placed true h later = let (own, rest) = later h.1 in (own, (h.0, rest))
    placed false h later = h

pub All-sort : (P : Text → Type 0) (names : Texts) → All P (sort names) → All P names
All-sort P [] h = tt
All-sort P (name ∷ names) h =
    let (own, rest) = All-place P name (sort names) h in (own, All-sort P names rest)
