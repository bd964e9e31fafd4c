-- ===== src/Etw/Cache.antt =====
-- agent/cg-agent/src/etw/cache.rs: the creation time of each running process, by PID.
-- The hash map is a list of its entries in iteration order, a PID at most once (`Laws.IsMap`). A
-- method that locks the map is one step. `sweep` locks it twice, and what other threads do to the
-- map between the two is an argument.
pub mod Laws
mod Tests
use cyber_guard_enterprise.Prelude.{
  ℕ, ◌+◌, Bool, true, false, not, List, [], ◌∷◌, Option, none, some, length, ◌==◌, if◌then◌else◌,
}

abbrev pub Entries : Type 0
Entries = List (ℕ × ℕ)

abbrev pub new : Entries
new = []

-- `HashMap::get`.
unfoldable pub created_time : ℕ → Entries → Option ℕ
created_time pid [] = none
created_time pid ((p, t) ∷ m) = if p == pid then some t else created_time pid m

-- `HashMap::remove`.
unfoldable pub remove : ℕ → Entries → Entries
remove pid [] = []
remove pid ((p, t) ∷ m) = if p == pid then remove pid m else (p, t) ∷ remove pid m

-- The place of a new entry in the iteration order is the hash map's own.
unfoldable pub insert : ℕ → ℕ → Entries → Entries
unfolding remove
insert pid created_time_nanos m = (pid, created_time_nanos) ∷ remove pid m

unfoldable pub consult_and_purge : ℕ → Entries → Option ℕ × Entries
unfolding created_time remove
consult_and_purge pid m = (created_time pid m, remove pid m)

-- The entries of a snapshot whose process is gone.
unfoldable pub gone : (ℕ → Bool) → Entries → Entries
gone is_alive [] = []
gone is_alive ((p, t) ∷ m) = if is_alive p then gone is_alive m else (p, t) ∷ gone is_alive m

-- `entries.get(&pid) == Some(&time)`.
abbrev pub holds : Option ℕ → ℕ → Bool
holds none time = false
holds (some t) time = t == time

-- The second loop of `sweep`: the entries left, and the number evicted.
unfoldable pub evict : Entries → Entries → ℕ → Entries × ℕ
unfolding created_time remove
evict [] m evicted = (m, evicted)
evict ((pid, time) ∷ rest) m evicted =
    let hit = holds (created_time pid m) time in
    evict rest (if hit then remove pid m else m) (if hit then evicted + 1 else evicted)

unfoldable pub sweep : (ℕ → Bool) → (Entries → Entries) → Entries → Entries × ℕ
unfolding gone evict
sweep is_alive meanwhile m = evict (gone is_alive m) (meanwhile m) 0

unfoldable pub len : Entries → ℕ
len m = length m
