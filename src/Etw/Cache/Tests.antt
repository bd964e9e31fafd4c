-- ===== src/Etw/Cache/Tests.antt =====
-- The theorems about the cache at concrete inputs.
use cyber_guard_enterprise.Prelude.{
  ℕ, ◌≡◌, refl, Bool, not, ◌&&◌, [], ◌∷◌, none, arith, ◌==◌, if◌then◌else◌,
}
use cyber_guard_enterprise.Etw.Cache.{Entries, created_time, insert, sweep}
use cyber_guard_enterprise.Etw.Cache.Laws.{same, created_time-sweep}

abbrev running : Entries
running = (7, 100) ∷ (8, 200) ∷ (9, 300) ∷ []

-- Only process 9 is alive; process 8 is launched again during the sweep.
abbrev alive : ℕ → Bool
alive pid = pid == 9

abbrev relaunch : Entries → Entries
relaunch m = insert 8 250 m

sweep_keeps : (sweep alive relaunch running).0 ≡ (8, 250) ∷ (9, 300) ∷ []
unfolding sweep insert
sweep_keeps = refl

created_time-sweep_example : created_time 8 (sweep alive relaunch running).0 ≡ (
    if not (alive 8) && same (created_time 8 running) (created_time 8 (relaunch running))
    then none
    else created_time 8 (relaunch running))
created_time-sweep_example = created_time-sweep alive relaunch running 8 (omega arith)
