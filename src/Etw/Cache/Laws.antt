-- ===== src/Etw/Cache/Laws.antt =====
-- agent/cg-agent/src/etw/cache.rs: the cache as a map, and what a sweep evicts.
use cyber_guard_enterprise.Prelude.{
  ℕ, suc, ◌+◌, ◌≡◌, refl, ap, ◌≢◌, Bool, true, false, not, ◌&&◌, ◌||◌, [], ◌∷◌, Option, none, some,
  arith, length, ◌==◌, ==_iff, All, if◌then◌else◌, inl, inr, Bool-cases,
}
use cyber_guard_enterprise.Etw.Cache.{
  Entries, created_time, remove, insert, gone, holds, evict, sweep,
}

-- No PID stands in two entries.
abbrev pub IsMap : Entries → Type 0
IsMap [] = Unit {0}
IsMap ((p, t) ∷ m) = All (λ e. e.0 ≢ p) m × IsMap m

pub created_time-remove :
    (pid q : ℕ) (m : Entries)
    → created_time pid (remove q m) ≡ (if q == pid then none else created_time pid m)
unfolding created_time remove
created_time-remove pid q [] = ground arith
created_time-remove pid q ((p, t) ∷ m) = ground (arith, created_time-remove pid q m)

pub created_time-insert :
    (pid q t : ℕ) (m : Entries)
    → created_time pid (insert q t m) ≡ (if q == pid then some t else created_time pid m)
unfolding created_time insert
created_time-insert pid q t m = ground (arith, created_time-remove pid q m)

remove-All : (P : ℕ × ℕ → Type 0) (q : ℕ) (m : Entries) → All P m → All P (remove q m)
unfolding remove
remove-All P q [] h = tt
remove-All P q ((p, t) ∷ m) h = elim (Bool-cases (p == q)) [
  | inl hit ↦ rw hit (remove-All P q m h.1)
  | inr miss ↦ rw miss (h.0, remove-All P q m h.1)
]

pub remove-IsMap : (q : ℕ) (m : Entries) → IsMap m → IsMap (remove q m)
unfolding remove
remove-IsMap q [] h = tt
remove-IsMap q ((p, t) ∷ m) h = elim (Bool-cases (p == q)) [
  | inl hit ↦ rw hit (remove-IsMap q m h.1)
  | inr miss ↦ rw miss (remove-All (λ e. e.0 ≢ p) q m h.0, remove-IsMap q m h.1)
]

remove-fresh : (q : ℕ) (m : Entries) → All (λ e. e.0 ≢ q) (remove q m)
unfolding remove
remove-fresh q [] = tt
remove-fresh q ((p, t) ∷ m) = elim (Bool-cases (p == q)) [
  | inl hit ↦ rw hit (remove-fresh q m)
  | inr miss ↦ rw miss (ground arith, remove-fresh q m)
]

pub insert-IsMap : (q t : ℕ) (m : Entries) → IsMap m → IsMap (insert q t m)
unfolding insert
insert-IsMap q t m h = (remove-fresh q m, remove-IsMap q m h)

-- A list of entries names this PID with the time that the map holds for it.
names : ℕ → Option ℕ → Entries → Bool
names pid held [] = false
names pid held ((p, t) ∷ rest) = (p == pid) && holds held t || names pid held rest

names-none : (pid : ℕ) (rest : Entries) → names pid none rest ≡ false
unfolding names
names-none pid [] = refl
names-none pid ((p, t) ∷ rest) = ground (arith, names-none pid rest)

created_time-evict :
    (pid : ℕ) (rest m : Entries) (n : ℕ)
    → created_time pid (evict rest m n).0
      ≡ (if names pid (created_time pid m) rest then none else created_time pid m)
unfolding evict names
created_time-evict pid [] m n = refl
created_time-evict pid ((p, t) ∷ rest) m n = elim (Bool-cases (holds (created_time p m) t)) [
  | inl hit ↦
      rw (hit, evict)
        (ground (
          arith,
          created_time-evict pid rest (remove p m) (n + 1),
          created_time-remove pid p m,
          names-none pid rest,
        ))
  | inr miss ↦ rw (miss, evict) (ground (arith, created_time-evict pid rest m n))
]

names_fresh :
    (is_alive : ℕ → Bool) (pid : ℕ) (held : Option ℕ) (m : Entries)
    → All (λ e. e.0 ≢ pid) m
    → names pid held (gone is_alive m) ≡ false
unfolding names gone
names_fresh is_alive pid held [] h = refl
names_fresh is_alive pid held ((p, t) ∷ m) h =
    ground (arith, h.0, names_fresh is_alive pid held m h.1)

-- The same entry of a PID in two states of the map.
abbrev pub same : Option ℕ → Option ℕ → Bool
same none held = false
same (some t) held = holds held t

names-gone :
    (is_alive : ℕ → Bool) (pid : ℕ) (held : Option ℕ) (m : Entries)
    → IsMap m
    → names pid held (gone is_alive m) ≡ (not (is_alive pid) && same (created_time pid m) held)
unfolding names gone created_time
names-gone is_alive pid held [] h = ground arith
names-gone is_alive pid held ((p, t) ∷ m) h = elim (Bool-cases (p == pid)) [
  | inl hit ↦
      let q : p ≡ pid = (==_iff p pid).0 hit in
      ground
        (arith, names_fresh is_alive pid held m (rw q at h.0), names-gone is_alive pid held m h.1)
  | inr miss ↦ ground (arith, names-gone is_alive pid held m h.1)
]

-- A sweep evicts an entry just when its process was found dead and the entry is still the one of
-- the snapshot: an entry of a live process, and one that a new launch replaced while the lock was
-- free, is kept as it is, whatever happened to the map meanwhile.
pub created_time-sweep :
    (is_alive : ℕ → Bool) (meanwhile : Entries → Entries) (m : Entries) (pid : ℕ)
    → IsMap m
    → created_time pid (sweep is_alive meanwhile m).0 ≡ (
        if not (is_alive pid) && same (created_time pid m) (created_time pid (meanwhile m))
        then none
        else created_time pid (meanwhile m))
unfolding sweep
created_time-sweep is_alive meanwhile m pid h =
    rw (created_time-evict pid (gone is_alive m) (meanwhile m) 0)
      (rw (names-gone is_alive pid (created_time pid (meanwhile m)) m h))

remove_fresh : (pid : ℕ) (m : Entries) → All (λ e. e.0 ≢ pid) m → remove pid m ≡ m
unfolding remove
remove_fresh pid [] h = refl
remove_fresh pid ((p, t) ∷ m) h = ground (arith, h.0, remove_fresh pid m h.1)

length-remove :
    (pid t : ℕ) (m : Entries)
    → IsMap m
    → created_time pid m ≡ some t
    → suc (length (remove pid m)) ≡ length m
unfolding created_time remove
length-remove pid t [] h e = cc
length-remove pid t ((p, u) ∷ m) h e = elim (Bool-cases (p == pid)) [
  | inl hit ↦
      let q : p ≡ pid = (==_iff p pid).0 hit in
      rw hit (ap (λ l. suc (length l)) (remove_fresh pid m (rw q at h.0)))
  | inr miss ↦ rw miss (ap suc (length-remove pid t m h.1 (rw miss at e)))
]

holds-some : (o : Option ℕ) (time : ℕ) → holds o time ≡ true → o ≡ some time
holds-some none time h = cc
holds-some (some t) time h = ground arith

evict_counts :
    (rest m : Entries) (n : ℕ)
    → IsMap m
    → let (left, evicted) = evict rest m n in IsMap left × (length left + evicted ≡ length m + n)
unfolding evict
evict_counts [] m n h = (h, refl)
evict_counts ((p, t) ∷ rest) m n h = elim (Bool-cases (holds (created_time p m) t)) [
  | inl hit ↦
      let (is_map, count) = evict_counts rest (remove p m) (n + 1) (remove-IsMap p m h) in
      rw (hit, evict) (is_map, omega (arith, count, length-remove p t m h (holds-some _ t hit)))
  | inr miss ↦ rw (miss, evict) (evict_counts rest m n h)
]

-- A sweep leaves a map, and returns the number of entries that it took from it.
pub sweep_counts :
    (is_alive : ℕ → Bool) (meanwhile : Entries → Entries) (m : Entries)
    → IsMap (meanwhile m)
    → let (left, evicted) = sweep is_alive meanwhile m in
      IsMap left × (length left + evicted ≡ length (meanwhile m))
unfolding sweep
sweep_counts is_alive meanwhile m h =
    let (is_map, count) = evict_counts (gone is_alive m) (meanwhile m) 0 h in
    (is_map, omega (arith, count))
