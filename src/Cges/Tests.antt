-- ===== src/Cges/Tests.antt =====
-- Tests of the rendering, and the theorems about it at concrete inputs.
use cyber_guard_enterprise.Prelude.{ℕ, ◌≡◌, refl, arith, bytes, Text}
use cyber_guard_enterprise.Cges.{format_process_uid, derive_process_name, hex_code}
use cyber_guard_enterprise.Cges.Naming.{Splits, derive_process_name-Splits}
use cyber_guard_enterprise.Cges.Identity.{format_process_uid_injective}

rendered :
    (format_process_uid (bytes "a") 12 3405 ≡ bytes "a:12:3405")
    × (derive_process_name (bytes "C:\\dir/cmd.exe") ≡ bytes "cmd.exe")
    × (hex_code 3221225581 ≡ bytes "0xc000006d")
unfolding format_process_uid derive_process_name hex_code
rendered = (refl, refl, refl)

derive_process_name-Splits_example :
    (folder : Text) × Splits
      (bytes "C:\\cmd.exe")
      folder
      (derive_process_name (bytes "C:\\cmd.exe"))
derive_process_name-Splits_example = derive_process_name-Splits (bytes "C:\\cmd.exe")

abbrev pid : ℕ
pid = 12

abbrev nanos : ℕ
nanos = 3405

format_process_uid_injective_example : (pid ≡ pid) × (nanos ≡ nanos)
format_process_uid_injective_example =
    format_process_uid_injective (bytes "a") pid pid nanos nanos (omega arith) (omega arith)
      (omega arith) (omega arith) refl
