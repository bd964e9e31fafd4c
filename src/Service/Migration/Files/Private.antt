-- ===== src/Service/Migration/Files/Private.antt =====
-- agent/cg-agent/src/service/migration.rs: whom the DACL of an identity file lets in.
use cyber_guard_enterprise.Prelude.{
  ◌≡◌, refl, sym, ap, ◌∙◌, Bool, true, false, ◌&&◌, not, List, [], ◌∷◌, ◌++◌, Option, none, some,
  Text, bytes, length, text_eq, text_eq_iff, text_eq_self, leb, All, All-map, arith, Bool-cases,
  inl, inr, ◌⊎◌, and_true, if◌then◌else◌,
}
use cyber_guard_enterprise.Prelude.Results.{ok, err, guard, >>-ok, >>=-ok, guard-ok, ok-ok}
use cyber_guard_enterprise.Custody.{AllowEntry, allow_entries}
use cyber_guard_enterprise.Custody.Security.{Sid, Sids, administrators, matches, Descriptor}
use cyber_guard_enterprise.Service.Migration.Arguments.{Texts}
use cyber_guard_enterprise.Service.Migration.Entries.{repair_anew, has_name}
use cyber_guard_enterprise.Service.Migration.Files.{
  MigrationCustody, Allowed, nobody, take_entry, take_entries, pop, judge_allowed,
  check_identity_file,
}

pub has_name-append :
    (s : Text) (names more : Texts) → has_name s names ≡ true → has_name s (names ++ more) ≡ true
has_name-append s [] more h = cc
has_name-append s (n ∷ names) more h = elim (Bool-cases (text_eq s n)) [
  | inl same ↦ ground (arith, same)
  | inr other ↦ ground (arith, other, has_name-append s names more (ground (arith, h, other)))
]

pub has_name-last : (s : Text) (names : Texts) → has_name s (names ++ s ∷ []) ≡ true
has_name-last s [] = ground (arith, text_eq_self s)
has_name-last s (n ∷ names) = elim (Bool-cases (text_eq s n)) [
  | inl same ↦ ground (arith, same)
  | inr other ↦ ground (arith, other, has_name-last s names)
]

-- One name at most: the one that is there is popped.
pop-only :
    (s : Text) (names : Texts)
    → leb (length names) 1 ≡ true
    → has_name s names ≡ true
    → pop names ≡ some s
pop-only s [] h there = cc
pop-only s (n ∷ []) h there = ap some (sym ((text_eq_iff s n).0 (ground (arith, there))))
pop-only s (n ∷ m ∷ names) h there = absurd (ground (arith, h))

pop-nothing : (names : List Sid) → leb 1 (length names) ≡ false → pop names ≡ none
pop-nothing [] h = refl
pop-nothing (n ∷ names) h = absurd (ground (arith, h))

module _ (sids : Sids) (custody : MigrationCustody) where
  -- An entry that a DACL's reading has taken in.
  abbrev Covers : Allowed → AllowEntry → Type 0
  Covers allowed e =
      (matches sids custody.service (some e.entry_sid) ≡ true)
      ⊎ (((matches sids administrators (some e.entry_sid) ≡ true)
            × (allowed.allows_administrators ≡ true))
          ⊎ (has_name e.entry_sid allowed.others ≡ true))

  take_entry-Covers :
      (e : AllowEntry) (allowed : Allowed) → Covers (take_entry sids custody e allowed) e
  unfolding take_entry
  take_entry-Covers e allowed =
      taken (matches sids custody.service (some e.entry_sid))
        (matches sids administrators (some e.entry_sid)) (has_name e.entry_sid allowed.others) refl
        refl refl
    where
      taken :
          (s a o : Bool)
          → matches sids custody.service (some e.entry_sid) ≡ s
          → matches sids administrators (some e.entry_sid) ≡ a
          → has_name e.entry_sid allowed.others ≡ o
          → Covers
              (if s
                then record allowed { allows_service = true }
                else if a
                then record allowed { allows_administrators = true }
                else if o
                then allowed
                else record allowed { others = allowed.others ++ e.entry_sid ∷ [] })
              e
      taken true a o p q r = inl p
      taken false true o p q r = inr (inl (q, refl))
      taken false false true p q r = inr (inr r)
      taken false false false p q r = inr (inr (has_name-last e.entry_sid allowed.others))

  take_entry-keeps :
      (f e : AllowEntry) (allowed : Allowed)
      → Covers allowed f
      → Covers (take_entry sids custody e allowed) f
  unfolding take_entry
  take_entry-keeps f e allowed c =
      kept (matches sids custody.service (some e.entry_sid))
        (matches sids administrators (some e.entry_sid)) (has_name e.entry_sid allowed.others) c
    where
      kept :
          (s a o : Bool)
          → Covers allowed f
          → Covers
              (if s
                then record allowed { allows_service = true }
                else if a
                then record allowed { allows_administrators = true }
                else if o
                then allowed
                else record allowed { others = allowed.others ++ e.entry_sid ∷ [] })
              f
      kept true a o c = c
      kept false true o (inl p) = inl p
      kept false true o (inr (inl (q, r))) = inr (inl (q, refl))
      kept false true o (inr (inr r)) = inr (inr r)
      kept false false true c = c
      kept false false false (inl p) = inl p
      kept false false false (inr (inl p)) = inr (inl p)
      kept false false false (inr (inr r)) =
          inr (inr (has_name-append f.entry_sid allowed.others (e.entry_sid ∷ []) r))

  take_entries-keeps :
      (f : AllowEntry) (entries : List AllowEntry) (allowed : Allowed)
      → Covers allowed f
      → Covers (take_entries sids custody entries allowed) f
  unfolding take_entries
  take_entries-keeps f [] allowed c = c
  take_entries-keeps f (e ∷ entries) allowed c =
      take_entries-keeps f entries (take_entry sids custody e allowed)
        (take_entry-keeps f e allowed c)

  take_entries-Covers :
      (entries : List AllowEntry) (allowed : Allowed)
      → All (Covers (take_entries sids custody entries allowed)) entries
  unfolding take_entries
  take_entries-Covers [] allowed = tt
  take_entries-Covers (e ∷ entries) allowed = (
    take_entries-keeps e entries (take_entry sids custody e allowed) (take_entry-Covers e allowed),
    take_entries-Covers entries (take_entry sids custody e allowed),
  )

  -- An entry for the service, for Administrators where no other account is allowed, or for the one
  -- other account.
  abbrev pub Permits : Option Sid → AllowEntry → Type 0
  Permits others e =
      (matches sids custody.service (some e.entry_sid) ≡ true)
      ⊎ (((matches sids administrators (some e.entry_sid) ≡ true) × (others ≡ none))
          ⊎ (others ≡ some e.entry_sid))

  judge_allowed-Permits :
      (path : Text) (allowed : Allowed) (others : Option Sid)
      → judge_allowed path allowed ≡ ok others
      → (e : AllowEntry) → Covers allowed e
      → Permits others e
  unfolding judge_allowed
  judge_allowed-Permits path allowed others h e c =
      let (tested, popped) = >>-ok (guard _ _) (ok (pop allowed.others)) h in
      let (served, one) = and_true _ _ (guard-ok _ _ tested) in
      let same : pop allowed.others ≡ others = ok-ok popped in
      permits same (and_true _ _ served).1 one c
    where
      permits :
          pop allowed.others ≡ others
          → leb (length allowed.others) 1 ≡ true
          → not (allowed.allows_administrators && leb 1 (length allowed.others)) ≡ true
          → Covers allowed e
          → Permits others e
      permits same small alone (inl p) = inl p
      permits same small alone (inr (inl (p, q))) =
          inr (inl (p, sym same ∙ pop-nothing allowed.others (ground (arith, alone, q))))
      permits same small alone (inr (inr r)) =
          inr (inr (sym same ∙ pop-only e.entry_sid allowed.others small r))

  -- A DACL that is read, each of whose entries is permitted.
  pub record IsPrivate (others : Option Sid) (descriptor : Descriptor) (path : Text) : Type 0 where
    pub entries : List AllowEntry
    pub has_entries : allow_entries descriptor path ≡ ok (some entries)
    pub permits : All (Permits others) entries

  pub check_identity_file-IsPrivate :
      (descriptor : Descriptor) (path : Text) (others : Option Sid)
      → check_identity_file sids custody descriptor path ≡ ok others
      → IsPrivate others descriptor path
  unfolding check_identity_file
  check_identity_file-IsPrivate descriptor path others h =
      let (entries, has_entries, rest) = >>=-ok (allow_entries descriptor path) _ h in
      entered entries has_entries rest
    where
      entered :
          (entries : Option (List AllowEntry))
          → allow_entries descriptor path ≡ ok entries
          → (elim entries [
            | none ↦ err (path ++ bytes " has no DACL; " ++ repair_anew)
            | some entries ↦ judge_allowed path (take_entries sids custody entries nobody)
          ])
            ≡ ok others
          → IsPrivate others descriptor path
      entered none has_entries h = cc
      entered (some entries) has_entries h = record {
        entries = entries;
        has_entries = has_entries;
        permits =
            All-map (Covers (take_entries sids custody entries nobody)) (Permits others)
              (judge_allowed-Permits path (take_entries sids custody entries nobody) others h)
              entries (take_entries-Covers entries nobody);
      }
