-- ===== src/Service/Rotation/Writing/Tests.antt =====
-- Tests of the writing of records, and the theorems about it at concrete inputs.
use cyber_guard_enterprise.Prelude.{
  ℕ, ◌≤◌, ◌≡◌, refl, inr, true, false, [], ◌∷◌, none, some, Text, bytes, length, arith,
}
use cyber_guard_enterprise.Service.Rotation.Log.{content, reopen, max_file_bytes}
use cyber_guard_enterprise.Service.Rotation.Log.Completes.{no_failures}
use cyber_guard_enterprise.Service.Rotation.Writing.{
  Writer, Calls, bounded, write_record, write_bounded, rotate_if_due, append_or_retry, append,
  append_raw, retry, end_partial,
}
use cyber_guard_enterprise.Service.Rotation.Writing.Ready.{IsReady}
use cyber_guard_enterprise.Service.Rotation.Writing.Whole.{Records, write_record-Records}
use cyber_guard_enterprise.Service.Rotation.Writing.Bounds.{IsCalm, IsWorking, write_record-within}

abbrev replaced : ℕ → Text
replaced n = bytes "{}"

abbrev one_line : Writer
one_line = record {
  log = record {
    dir = record {
      active = some (97 ∷ 10 ∷ []);
      rotating = none;
      archives = none ∷ none ∷ none ∷ none ∷ none ∷ [];
    };
    is_open = true;
    size = 2;
    unfinished = false;
  };
  failed = false;
  rotation_failing = none;
  rotation_retry_limit = 60;
}

abbrev calm : Calls
calm = record {
  now = 0;
  rotation = no_failures;
  recovery = false;
  first = none;
  reopening = false;
  newline = none;
  second = none;
}

-- The first append writes one byte of the record; the retry writes it all.
abbrev one_byte : Calls
one_byte = record calm { first = some 1 }

retried :
    (content (write_record replaced one_byte (98 ∷ 99 ∷ []) one_line).log.dir.active
      ≡ 97 ∷ 10 ∷ 98 ∷ 10 ∷ 98 ∷ 99 ∷ 10 ∷ [])
    × ((write_record replaced one_byte (98 ∷ 99 ∷ []) one_line).log.size ≡ 7)
unfolding write_record write_bounded rotate_if_due append_or_retry append append_raw retry reopen
    end_partial
retried = (refl, refl)

one_line-IsReady : IsReady one_line.log
one_line-IsReady = (refl, record { ended = inr (97 ∷ [], refl); sized = λ e. refl })

write_record-Records_example :
    Records
      (bounded replaced (98 ∷ 99 ∷ []))
      (write_record replaced one_byte (98 ∷ 99 ∷ []) one_line)
write_record-Records_example =
    write_record-Records replaced one_byte (98 ∷ 99 ∷ []) one_line refl one_line-IsReady

calm-IsCalm : IsCalm calm
calm-IsCalm = record { rotation = refl; first = refl }

one_line-IsWorking : IsWorking one_line
one_line-IsWorking = record {
  working = refl;
  open_ = refl;
  active = 97 ∷ 10 ∷ [];
  present = refl;
  sized = refl;
  within = omega arith;
  places = refl;
  idle = refl;
  finished = refl;
  rotating = refl;
}

write_record-within_example :
    let w' = write_record replaced calm (98 ∷ 99 ∷ []) one_line in
    (w'.failed ≡ false) × (length (content w'.log.dir.active) ≤ max_file_bytes)
write_record-within_example =
    write_record-within replaced calm (98 ∷ 99 ∷ []) one_line (λ n. omega arith) calm-IsCalm
      one_line-IsWorking
