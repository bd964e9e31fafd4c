-- ===== src/Etw/Dispatch/Discards.antt =====
-- agent/cg-agent/src/etw/dispatch.rs: the packed word of the first discarded record, and the
-- count of all of them.
use cyber_guard_enterprise.Prelude.{
  ℕ, ◌+◌, ◌*◌, ◌%◌, ◌^◌, ◌<◌, min, ◌≡◌, ◌≢◌, refl, ap₂, ◌∙◌, List, [], ◌∷◌, some, arith, length,
}
use Prim.Native.Nat.{bit_or}
use cyber_guard_enterprise.Prelude.Bits.{bit_or_byte, bit_or_split, bit_or-zero, zero-bit_or}
use cyber_guard_enterprise.Etw.Dispatch.{
  RawNetworkRecord, lengths, NetworkDiscards, DiscardSample, no_discards, present, shl, pack,
  record_discard, first_discard,
}

-- The word that the packing builds: a mark, the event id and the lengths, each at its place.
abbrev pub word : ℕ → ℕ → ℕ → ℕ → ℕ → ℕ → ℕ
word id l0 l1 l2 l3 l4 =
    l0 + l1 * 2 ^ 8 + l2 * 2 ^ 16 + l3 * 2 ^ 24 + l4 * 2 ^ 32 + id * 2 ^ 40 + 2 ^ 63

marked : (id : ℕ) → id < 2 ^ 16 → bit_or present (shl id 40) ≡ word id 0 0 0 0 0
marked id h = omega (
  arith,
  ap₂ bit_or {x = present} {y = 0 + 1 * 2 ^ 63} {u = shl id 40} {v = id * 2 ^ 40 + 0 * 2 ^ 63}
      (omega arith) (omega arith),
  bit_or_split 63 0 (id * 2 ^ 40) 1 0 (omega arith) (omega arith),
  zero-bit_or (id * 2 ^ 40),
  bit_or-zero 1,
)

-- One step of the packing: the word before, the length in its place, and the word after.
put :
    (k a c l w s w' : ℕ)
    → a < 2 ^ k
    → l < 2 ^ 8
    → w ≡ a + c * 2 ^ 8 * 2 ^ k
    → s ≡ l * 2 ^ k
    → w' ≡ a + (c * 2 ^ 8 + l) * 2 ^ k
    → bit_or w s ≡ w'
put k a c l w s w' ha hl e f g = rw (e, f, g) (bit_or_byte k a c l ha hl)

step0 : (id m0 : ℕ) → m0 < 256 → bit_or (word id 0 0 0 0 0) (shl m0 0) ≡ word id m0 0 0 0 0
step0 id m0 h0 =
    put 0 (0) (id * 2 ^ 32 + 2 ^ 55) m0 _ _ _ (omega arith) (omega arith) (omega arith)
      (omega arith) (omega arith)

step1 :
    (id m0 m1 : ℕ)
    → m0 < 256
    → m1 < 256
    → bit_or (word id m0 0 0 0 0) (shl m1 8) ≡ word id m0 m1 0 0 0
step1 id m0 m1 h0 h1 =
    put 8 (m0) (id * 2 ^ 24 + 2 ^ 47) m1 _ _ _ (omega arith) (omega arith) (omega arith)
      (omega arith) (omega arith)

step2 :
    (id m0 m1 m2 : ℕ)
    → m0 < 256
    → m1 < 256
    → m2 < 256
    → bit_or (word id m0 m1 0 0 0) (shl m2 16) ≡ word id m0 m1 m2 0 0
step2 id m0 m1 m2 h0 h1 h2 =
    put 16 (m0 + m1 * 2 ^ 8) (id * 2 ^ 16 + 2 ^ 39) m2 _ _ _ (omega arith) (omega arith)
      (omega arith) (omega arith) (omega arith)

step3 :
    (id m0 m1 m2 m3 : ℕ)
    → m0 < 256
    → m1 < 256
    → m2 < 256
    → m3 < 256
    → bit_or (word id m0 m1 m2 0 0) (shl m3 24) ≡ word id m0 m1 m2 m3 0
step3 id m0 m1 m2 m3 h0 h1 h2 h3 =
    put 24 (m0 + m1 * 2 ^ 8 + m2 * 2 ^ 16) (id * 2 ^ 8 + 2 ^ 31) m3 _ _ _ (omega arith)
      (omega arith) (omega arith) (omega arith) (omega arith)

step4 :
    (id m0 m1 m2 m3 m4 : ℕ)
    → m0 < 256
    → m1 < 256
    → m2 < 256
    → m3 < 256
    → m4 < 256
    → bit_or (word id m0 m1 m2 m3 0) (shl m4 32) ≡ word id m0 m1 m2 m3 m4
step4 id m0 m1 m2 m3 m4 h0 h1 h2 h3 h4 =
    put 32 (m0 + m1 * 2 ^ 8 + m2 * 2 ^ 16 + m3 * 2 ^ 24) (id + 2 ^ 23) m4 _ _ _ (omega arith)
      (omega arith) (omega arith) (omega arith) (omega arith)

capped : (l : ℕ) → min l 255 < 256
capped l = omega arith

pack_word :
    (id l0 l1 l2 l3 l4 : ℕ)
    → id < 2 ^ 16
    → pack id (l0 ∷ l1 ∷ l2 ∷ l3 ∷ l4 ∷ [])
      ≡ word id (min l0 255) (min l1 255) (min l2 255) (min l3 255) (min l4 255)
unfolding pack
pack_word id l0 l1 l2 l3 l4 h = rw (
  marked id h,
  step0 id (min l0 255) (capped l0),
  step1 id (min l0 255) (min l1 255) (capped l0) (capped l1),
  step2 id (min l0 255) (min l1 255) (min l2 255) (capped l0) (capped l1) (capped l2),
  step3 id (min l0 255) (min l1 255) (min l2 255) (min l3 255) (capped l0) (capped l1) (capped l2)
      (capped l3),
  step4 id (min l0 255) (min l1 255) (min l2 255) (min l3 255) (min l4 255) (capped l0) (capped l1)
      (capped l2) (capped l3) (capped l4),
)

-- What the log says of a discarded record.
abbrev pub sample : RawNetworkRecord → DiscardSample
sample raw = record {
  event_id = raw.event_id;
  field_lengths =
      min (length raw.pid) 255
      ∷ min (length raw.saddr) 255
      ∷ min (length raw.daddr) 255
      ∷ min (length raw.sport) 255
      ∷ min (length raw.dport) 255
      ∷ [];
}

-- The records of a sequence, all discarded.
pub discard_all : List RawNetworkRecord → NetworkDiscards → NetworkDiscards
discard_all [] d = d
discard_all (raw ∷ raws) d = discard_all raws (record_discard raw.event_id (lengths raw) d)

first_kept :
    (id : ℕ) (lens : List ℕ) (d : NetworkDiscards)
    → d.first ≢ 0
    → (record_discard id lens d).first ≡ d.first
unfolding record_discard
first_kept id lens d h = ground arith

total-record_discard :
    (id : ℕ) (lens : List ℕ) (d : NetworkDiscards)
    → (record_discard id lens d).total ≡ (d.total + 1) % 2 ^ 64
unfolding record_discard
total-record_discard id lens d = refl

kept :
    (raws : List RawNetworkRecord) (d : NetworkDiscards)
    → d.first ≢ 0
    → d.total < 2 ^ 64
    → let final = discard_all raws d in
      (final.first ≡ d.first) × (final.total ≡ (d.total + length raws) % 2 ^ 64)
unfolding discard_all
kept [] d h b = (refl, omega arith)
kept (raw ∷ raws) d h b =
    let (first, total) =
      kept raws (record_discard raw.event_id (lengths raw) d)
        (rw (first_kept raw.event_id (lengths raw) d h) h)
        (omega (arith, total-record_discard raw.event_id (lengths raw) d)) in
    (
      first ∙ first_kept raw.event_id (lengths raw) d h,
      omega (arith, total, total-record_discard raw.event_id (lengths raw) d),
    )

first-word :
    (d : NetworkDiscards) (id l0 l1 l2 l3 l4 : ℕ)
    → d.first ≡ word id l0 l1 l2 l3 l4
    → id < 2 ^ 16
    → l0 < 256
    → l1 < 256
    → l2 < 256
    → l3 < 256
    → l4 < 256
    → first_discard d ≡ some (record { event_id = id; field_lengths = l0 ∷ l1 ∷ l2 ∷ l3 ∷ l4 ∷ [] })
unfolding first_discard
first-word d id l0 l1 l2 l3 l4 e hi h0 h1 h2 h3 h4 = ground arith

first_packed :
    (raw : RawNetworkRecord)
    → raw.event_id < 2 ^ 16
    → (record_discard raw.event_id (lengths raw) no_discards).first
      ≡ word raw.event_id
          (min (length raw.pid) 255)
          (min (length raw.saddr) 255)
          (min (length raw.daddr) 255)
          (min (length raw.sport) 255)
          (min (length raw.dport) 255)
unfolding record_discard
first_packed raw h = pack_word raw.event_id _ _ _ _ _ h

-- After any records discarded from the start, the first of them is read back with its event id and
-- its field lengths, each capped at 255, and the total counts them all (mod 2^64).
pub first_discard-discard_all :
    (raw : RawNetworkRecord) (raws : List RawNetworkRecord)
    → raw.event_id < 2 ^ 16
    → let d = discard_all (raw ∷ raws) no_discards in
      (first_discard d ≡ some (sample raw)) × (d.total ≡ length (raw ∷ raws) % 2 ^ 64)
unfolding discard_all
first_discard-discard_all raw raws h =
    let d = record_discard raw.event_id (lengths raw) no_discards in
    let e = first_packed raw h in
    let (first, total) =
      kept raws d (omega (arith, e))
        (omega (arith, total-record_discard raw.event_id (lengths raw) no_discards)) in
    (
      first-word _ raw.event_id _ _ _ _ _ (first ∙ e) h (capped _) (capped _) (capped _) (capped _)
          (capped _),
      omega (arith, total, total-record_discard raw.event_id (lengths raw) no_discards),
    )
