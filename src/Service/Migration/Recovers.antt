-- ===== src/Service/Migration/Recovers.antt =====
-- agent/cg-agent/src/service/migration.rs: that an interrupted migration is completed.
use cyber_guard_enterprise.Prelude.{
  ◌≡◌, refl, sym, ap, subst, ◌∙◌, Bool, true, false, Option, none, some, inl, inr, ◌⊎◌, text_eq,
}
use cyber_guard_enterprise.Prelude.Results.{Result, ok, done}
use cyber_guard_enterprise.Service.Migration.Arguments.{Texts, Request}
use cyber_guard_enterprise.Service.Migration.Host.{
  Record, Stop, Dir, Host, Verified, Prepared, committed_start, continues, ◌>>>◌, at_point,
  asks_for, identity_files, staged_names, any_name, is_console, counts,
}
use cyber_guard_enterprise.Service.Migration.Route.Staging.{
  close_at, close_data_root_step, close_directories, remove_staging, delete_staging,
  create_staging_step, write_staged_record, clear_staged, stage_one, stage_all, check_whole,
  check_staged, begin_staging, record_and_stage,
}
use cyber_guard_enterprise.Service.Migration.Route.{
  check_again, take_lock, rename_data_root, rename_legacy, rename_staging, mark, reversed,
  renamed_back, reverse, second_done, second_step, commit, check_data_directories,
  discard_interrupted, stage_and_commit, verify_and_go_on, route,
}
use cyber_guard_enterprise.Service.Migration.Start.{
  staged_record, data_root_record, check_recorded, goes_on, committed, beside_recorded, beside_read,
  beside_a_console_layout, completed, complete_commit_step, complete_or_reverse, match_recorded,
  between_recorded, between_read, between_the_renames, on_console, choose_route, prepare,
}
use cyber_guard_enterprise.Service.Migration.Phases.{host_of, Phase, Safe}
use cyber_guard_enterprise.Service.Migration.Calm.{Names, calm, AgreesWith, IsUnchanged, shut}

module _ (names : Names) (verified : Verified) (q : Request)
    (same : IsUnchanged names verified) where
  abbrev Goes : Host → Type 0
  Goes h = (prepare (calm names verified) (some q) h).0 ≡ ok committed_start

  abbrev Chosen : (c s l : Bool) → Host → Type 0
  Chosen c s l h = (choose_route (calm names verified) (some q) true c s l h).0 ≡ ok committed_start

  fresh_goes : (d : Dir) → Chosen true false false (host_of (some d) none none)
  unfolding choose_route on_console route take_lock close_directories close_at at_point
      close_data_root_step discard_interrupted verify_and_go_on stage_and_commit record_and_stage
      begin_staging create_staging_step write_staged_record stage_all stage_one check_staged
      check_whole text_eq commit check_again rename_data_root second_step second_done rename_staging
      check_data_directories
  fresh_goes d = rw same refl

  -- A console layout, with its staging directory or without one.
  abbrev staged_dir : Option Record → Texts → Dir
  staged_dir saved names = record { closed = true; saved = saved; names = names }

  route_goes :
      (d : Dir) (saved : Option Record) (held : Texts)
      → ((r : Record) → saved ≡ some r → asks_for r q ≡ true)
      → Chosen true true false (host_of (some d) (some (staged_dir saved held)) none)
  unfolding choose_route beside_a_console_layout beside_read staged_record beside_recorded route
      take_lock close_directories close_at at_point close_data_root_step discard_interrupted
      delete_staging remove_staging verify_and_go_on stage_and_commit record_and_stage begin_staging
      create_staging_step write_staged_record clear_staged stage_all stage_one check_staged
      check_whole text_eq commit check_again rename_data_root second_step second_done rename_staging
      check_data_directories
  route_goes d none held asks = rw same refl
  route_goes d (some r) held asks = rw (asks r refl) rw same refl

  dir_eq :
      (s : Dir) {saved : Option Record} {held : Texts}
      → s.closed ≡ true
      → s.saved ≡ saved
      → s.names ≡ held
      → s ≡ staged_dir saved held
  dir_eq s closed saved named = λ i. record { closed = closed i; saved = saved i; names = named i }

  nothing_beside : (d : Dir) → is_console (some d) ≡ true → Goes (host_of (some d) none none)
  unfolding prepare
  nothing_beside d console =
      subst (λ c. Chosen c false false (host_of (some d) none none)) (sym console) (fresh_goes d)

  consoled-Goes :
      (d s : Dir)
      → is_console (some d) ≡ true
      → s.closed ≡ true
      → ((r : Record) → s.saved ≡ some r → asks_for r q ≡ true)
      → Goes (host_of (some d) (some s) none)
  unfolding prepare
  consoled-Goes d s console closed asks =
      subst (λ c. Chosen c (counts true (some s)) false (host_of (some d) (some s) none))
        (sym console)
        (subst (λ s. Chosen true (counts true (some s)) false (host_of (some d) (some s) none))
          (sym (dir_eq s closed refl refl)) (route_goes d s.saved s.names asks))

  abbrev between : Record → Dir → Host
  between r l = host_of none (some (staged_dir (some r) staged_names)) (some (shut l))

  -- The start or the one after it goes on as committed.
  abbrev Recovers : Host → Type 0
  Recovers h = Goes h ⊎ Goes (prepare (calm names verified) (some q) h).1

  abbrev under_lock : Record → Dir → Bool → Result Stop Prepared × Host
  under_lock r l pending = complete_or_reverse (calm names verified) r pending (between r l)

  recorded : (r : Record) → asks_for r q ≡ true → check_recorded (some q) r ≡ ok done
  unfolding check_recorded
  recorded r asks = rw asks refl

  -- Between the renames, what the mark of the record decides.
  decides :
      (r : Record) (l : Dir)
      → asks_for r q ≡ true
      → prepare (calm names verified) (some q) (between r l) ≡ under_lock r l r.reversal_pending
  unfolding prepare is_console choose_route between_the_renames between_read staged_record
      between_recorded match_recorded take_lock
  decides r l asks =
      ap
        (λ c.
          continues (c, between r l)
            (λ d.
              take_lock (calm names verified)
              >>> complete_or_reverse (calm names verified) r r.reversal_pending))
        (recorded r asks)

  completes : (r : Record) (l : Dir) → (under_lock r l false).0 ≡ ok committed_start
  unfolding complete_or_reverse complete_commit_step completed check_staged check_whole text_eq
      at_point rename_staging check_data_directories
  completes r l = refl

  reverses :
      (r : Record) (l : Dir)
      → (under_lock r l true).1
        ≡ host_of (some (shut l)) (some (staged_dir (some (mark false r)) staged_names)) none
  unfolding complete_or_reverse reverse renamed_back reversed at_point rename_legacy
      write_staged_record
  reverses r l = refl

  between-Recovers :
      (r : Record) (l : Dir)
      → asks_for r q ≡ true
      → is_console (some l) ≡ true
      → (pending : Bool) → r.reversal_pending ≡ pending
      → Recovers (between r l)
  unfolding asks_for is_console
  between-Recovers r l asks console false e =
      inl (ap (λ x. x.0) (decides r l asks) ∙ ap (λ p. (under_lock r l p).0) e ∙ completes r l)
  between-Recovers r l asks console true e = inr (
      subst Goes
        (sym (ap (λ x. x.1) (decides r l asks) ∙ ap (λ p. (under_lock r l p).1) e ∙ reverses r l))
        (consoled-Goes (shut l) (staged_dir (some (mark false r)) staged_names) console refl
          (λ r' same. marked_asks r' same)))
    where
      marked_asks :
          (r' : Record)
          → ◌≡◌ {A = Option Record} (some (mark false r)) (some r')
          → asks_for r' q ≡ true
      marked_asks r' same =
          let marked : mark false r ≡ r' = cc in subst (λ r. asks_for r q ≡ true) marked asks

  committed-Goes :
      (r : Record) (l : Dir)
      → asks_for r q ≡ true
      → Goes (host_of (some (staged_dir (some r) staged_names)) none (some (shut l)))
  unfolding prepare is_console text_eq choose_route committed check_data_directories
      data_root_record
  committed-Goes r l asks = ap goes_on (recorded r asks)

  closed_dir : (l : Dir) → l.closed ≡ true → l ≡ shut l
  closed_dir l closed = λ i. record { closed = closed i; saved = l.saved; names = l.names }

  recovers :
      (files : Texts)
      → any_name identity_files files ≡ true
      → (d s l : Option Dir) → Phase files d s l
      → AgreesWith q (host_of d s l)
      → Recovers (host_of d s l)
  unfolding is_console
  recovers files console (some d) none none p agrees =
      inl (nothing_beside d (ap (any_name identity_files) p.0 ∙ console))
  recovers files console (some d) (some s) none p agrees =
      inl (consoled-Goes d s (ap (any_name identity_files) p.0 ∙ console) p.1 agrees.1)
  recovers files console none (some s) (some l) (holds, (closed, (r, saved), whole)) agrees =
      subst (λ s. Recovers (host_of none (some s) (some l))) (sym (dir_eq s closed saved whole))
        (subst (λ l. Recovers (host_of none (some (staged_dir (some r) staged_names)) (some l)))
          (sym (closed_dir l holds.0))
          (between-Recovers r l (agrees.1 r saved) (ap (any_name identity_files) holds.1 ∙ console)
            r.reversal_pending refl))
  recovers files console (some d) none (some l) (holds, (closed, (r, saved), whole)) agrees = inl (
      subst (λ l. Goes (host_of (some d) none (some l))) (sym (closed_dir l holds.0))
        (subst (λ d. Goes (host_of (some d) none (some (shut l))))
          (sym (dir_eq d closed saved whole)) (committed-Goes r l (agrees.0 r saved))))
  recovers files console none none l p agrees = absurd p
  recovers files console none (some s) none p agrees = absurd p
  recovers files console (some d) (some s) (some l) p agrees = absurd p

-- In each state of a migration, also one that an interrupted start left, a start in which nothing
-- fails and no name appears after the check, with the arguments that the records on the host ask
-- for, goes on as committed, or, where it first completes an interrupted reversal, the same start
-- once more does.
pub prepare_recovers :
    (names : Names) (verified : Verified) (q : Request) (files : Texts) (h : Host)
    → IsUnchanged names verified
    → any_name identity_files files ≡ true
    → Safe files h
    → AgreesWith q h
    → let (ended, h') = prepare (calm names verified) (some q) h in
      (ended ≡ ok committed_start)
      ⊎ ((prepare (calm names verified) (some q) h').0 ≡ ok committed_start)
prepare_recovers names verified q files h same console p agrees =
    recovers names verified q same files console h.data_root h.staging h.legacy p agrees
