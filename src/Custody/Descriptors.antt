-- ===== src/Custody/Descriptors.antt =====
-- agent/cg-agent/src/custody.rs: the descriptors that fit a policy, and the regular files.
use cyber_guard_enterprise.Prelude.{
  ℕ, ◌≡◌, ◌↔◌, refl, ap, ◌∙◌, true, false, List, [], ◌∷◌, Option, none, some, Text, All, arith,
  Bool-cases, inl, inr, ◌⊎◌, ◌==◌,
}
use cyber_guard_enterprise.Prelude.Results.{
  Result, ok, err, done, guard, map_err, Result-cases, >>-ok, >>=-ok, guard-ok, map_err-ok, bind_ok,
  then_ok,
}
use cyber_guard_enterprise.Custody.Security.{
  unreadable_security, Sid, Sids, Principal, Policy, matches, any_matches, file, Information, Ace,
  Descriptor, Handle, shape_of, check_ace, check_aces, check_protected, check_dacl,
  check_descriptor,
}

-- A principal of a policy's is the one of a SID.
pub data Names (sids : Sids) (s : Option Sid) : List Principal → Type 0 where
  this : (p : Principal) (rest : List Principal) → matches sids p s ≡ true → Names sids s (p ∷ rest)
  that : (p : Principal) (rest : List Principal) → Names sids s rest → Names sids s (p ∷ rest)

any_matches-Names :
    (sids : Sids) (principals : List Principal) (s : Option Sid)
    → any_matches sids principals s ≡ true
    → Names sids s principals
unfolding any_matches
any_matches-Names sids [] s h = cc
any_matches-Names sids (p ∷ principals) s h = elim (Bool-cases (matches sids p s)) [
  | inl here ↦ this p principals here
  | inr other ↦ that p principals (any_matches-Names sids principals s (ground (arith, h, other)))
]

Names-any_matches :
    (sids : Sids) (s : Option Sid) (principals : List Principal)
    → Names sids s principals
    → any_matches sids principals s ≡ true
unfolding any_matches
Names-any_matches sids s principals (this p rest here) = ground (arith, here)
Names-any_matches sids s principals (that p rest there) =
    ground (arith, Names-any_matches sids s rest there)

-- An entry that is read: it denies, or it allows a principal of the policy's.
abbrev pub Admits : Sids → Policy → Result ℕ Ace → Type 0
Admits sids policy (err code) = ⊥
Admits sids policy (ok ace) =
    (ace.ace_type ≡ 1) ⊎ ((ace.ace_type ≡ 0) × Names sids (some ace.ace_sid) policy.allowed)

-- A descriptor that fits a policy.
pub record IsSecure (sids : Sids) (policy : Policy) (d : Descriptor) : Type 0 where
  pub owner : Option Sid
  pub owned : d.owner ≡ ok owner
  pub owner_fits : Names sids owner policy.owners
  pub aces : List (Result ℕ Ace)
  pub has_dacl : d.dacl ≡ ok (some aces)
  pub protects : policy.protected ≡ true → d.is_protected ≡ ok true
  pub admits : All (Admits sids policy) aces

-- A regular file with one link.
pub record IsFile (info : Information) : Type 0 where
  pub plain : info.is_reparse_point ≡ false
  pub regular : info.is_directory ≡ false
  pub one_link : info.number_of_links ≡ 1

pub shape_of-IsFile :
    (info : Information) (path : Text) → (shape_of info path file ≡ ok done) ↔ IsFile info
unfolding shape_of
shape_of-IsFile info path = ground arith

module _ (sids : Sids) (path : Text) (policy : Policy) where
  check_ace-Admits :
      (ace : Ace) → (check_ace sids path policy ace ≡ ok done) ↔ Admits sids policy (ok ace)
  unfolding check_ace
  check_ace-Admits ace = (admits, checks)
    where
      admits : check_ace sids path policy ace ≡ ok done → Admits sids policy (ok ace)
      admits h = elim (Bool-cases (ace.ace_type == 1)) [
        | inl denies ↦ inl (ground (arith, denies))
        | inr other ↦ elim (Bool-cases (any_matches sids policy.allowed (some ace.ace_sid))) [
          | inl named ↦ inr (
            ground (arith, h, other),
            any_matches-Names sids policy.allowed (some ace.ace_sid) named,
          )
          | inr stranger ↦ absurd (ground (arith, h, other, stranger))
        ]
      ]

      checks : Admits sids policy (ok ace) → check_ace sids path policy ace ≡ ok done
      checks (inl denies) = ground (arith, denies)
      checks (inr (allows, named)) =
          ground (arith, allows, Names-any_matches sids (some ace.ace_sid) policy.allowed named)

  check_aces-Admits :
      (aces : List (Result ℕ Ace))
      → check_aces sids path policy aces ≡ ok done
      → All (Admits sids policy) aces
  unfolding check_aces
  check_aces-Admits [] h = tt
  check_aces-Admits (err code ∷ aces) h = cc
  check_aces-Admits (ok ace ∷ aces) h =
      let (one, rest) =
        >>-ok (check_ace sids path policy ace) (check_aces sids path policy aces) h in
      ((check_ace-Admits ace).0 one, check_aces-Admits aces rest)

  Admits-check_aces :
      (aces : List (Result ℕ Ace))
      → All (Admits sids policy) aces
      → check_aces sids path policy aces ≡ ok done
  unfolding check_aces
  Admits-check_aces [] h = refl
  Admits-check_aces (err code ∷ aces) h = absurd h.0
  Admits-check_aces (ok ace ∷ aces) h =
      rw ((check_ace-Admits ace).1 h.0) (Admits-check_aces aces h.1)

  check_protected-protects :
      (d : Descriptor)
      → (check_protected d path policy ≡ ok done)
        ↔ (policy.protected ≡ true → d.is_protected ≡ ok true)
  unfolding check_protected
  check_protected-protects d = elim (Bool-cases policy.protected) [
    | inr free ↦ (λ h wanted. ground (arith, free, wanted), λ h. ground (arith, free))
    | inl wanted ↦ elim (Result-cases d.is_protected) [
      | inr (code, failed) ↦ (
        λ h. absurd (ground (arith, h, wanted, failed)),
        λ h. absurd (ground (arith, h wanted, failed)),
      )
      | inl (protected, answered) ↦ elim (Bool-cases protected) [
        | inl is ↦ (λ h _. answered ∙ ap ok is, λ h. ground (arith, wanted, answered, is))
        | inr not_ ↦ (
          λ h. absurd (ground (arith, h, wanted, answered, not_)),
          λ h. absurd (ground (arith, h wanted, answered, not_)),
        )
      ]
    ]
  ]

  check_dacl-ok :
      (d : Descriptor) (dacl : Option (List (Result ℕ Ace)))
      → check_dacl sids d path policy dacl ≡ ok done
      → (aces : List (Result ℕ Ace)) × (dacl ≡ some aces)
        × (policy.protected ≡ true → d.is_protected ≡ ok true)
        × All (Admits sids policy) aces
  unfolding check_dacl
  check_dacl-ok d none h = cc
  check_dacl-ok d (some aces) h =
      let (protects, admits) = >>-ok (check_protected d path policy) _ h in
      (aces, refl, (check_protected-protects d).0 protects, check_aces-Admits aces admits)

  -- A descriptor passes the check just when one of the policy's owners owns it, it has a DACL, a
  -- protected one if the policy asks for it, and each entry denies or allows one of the policy's
  -- principals.
  pub check_descriptor-IsSecure :
      (d : Descriptor) → (check_descriptor sids d path policy ≡ ok done) ↔ IsSecure sids policy d
  unfolding check_descriptor check_dacl
  check_descriptor-IsSecure d = (secures, checks)
    where
      secures : check_descriptor sids d path policy ≡ ok done → IsSecure sids policy d
      secures h =
          let (owner, owned, h1) = >>=-ok (map_err (unreadable_security path) d.owner) _ h in
          let (dacl, has, h2) = >>=-ok (map_err (unreadable_security path) d.dacl) _ h1 in
          let (owns, h3) = >>-ok (guard (any_matches sids policy.owners owner) _) _ h2 in
          let (aces, there, protects, admits) = check_dacl-ok d dacl h3 in
          record {
            owner = owner;
            owned = map_err-ok (unreadable_security path) d.owner owned;
            owner_fits = any_matches-Names sids policy.owners owner (guard-ok _ _ owns);
            aces = aces;
            has_dacl = map_err-ok (unreadable_security path) d.dacl has ∙ ap ok there;
            protects = protects;
            admits = admits;
          }

      checks : IsSecure sids policy d → check_descriptor sids d path policy ≡ ok done
      checks s =
          bind_ok (map_err (unreadable_security path) d.owner) _
            (ap (map_err (unreadable_security path)) s.owned)
          ∙ bind_ok (map_err (unreadable_security path) d.dacl) _
              (ap (map_err (unreadable_security path)) s.has_dacl)
          ∙ then_ok (guard (any_matches sids policy.owners s.owner) _) _
              (ground (arith, Names-any_matches sids s.owner policy.owners s.owner_fits))
          ∙ then_ok (check_protected d path policy) _ ((check_protected-protects d).1 s.protects)
          ∙ Admits-check_aces s.aces s.admits

-- The object behind a handle passes the checks of a file under a policy.
pub record Passes (sids : Sids) (policy : Policy) (handle : Handle) : Type 0 where
  pub info : Information
  pub informs : handle.information ≡ ok info
  pub is_file : IsFile info
  pub descriptor : Descriptor
  pub describes : handle.security ≡ ok descriptor
  pub is_secure : IsSecure sids policy descriptor
