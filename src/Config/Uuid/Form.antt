-- ===== src/Config/Uuid/Form.antt =====
-- agent/cg-agent/src/config.rs: the form of a UUIDv7.
use cyber_guard_enterprise.Prelude.{
  ℕ, ◌<◌, ◌≡◌, ◌↔◌, refl, sym, ap, ◌∙◌, true, false, ◌&&◌, List, [], ◌∷◌, ◌++◌, Text, length, ◌==◌,
  arith, Bool-cases, and_true, inl, inr, starts_with, bytes,
}
use cyber_guard_enterprise.Config.Uuid.{
  all_hex, onto_first, split, parts_fit, expected_lengths, part, is_variant, is_uuidv7,
}

-- So many lower-case hexadecimal digits.
abbrev pub IsHex : ℕ → Text → Type 0
IsHex n s = (length s ≡ n) × (all_hex s ≡ true)

-- The five groups of a UUID, of which the third begins with the version and the fourth with the
-- variant.
pub record IsUuid (s : Text) : Type 0 where
  pub time_low : Text
  pub time_mid : Text
  pub version : Text
  pub variant : ℕ
  pub clock : Text
  pub node : Text
  pub joined :
      s ≡ time_low ++ 45 ∷ (time_mid ++ 45 ∷ (55 ∷ version ++ 45 ∷ (variant ∷ clock ++ 45 ∷ node)))
  pub low_fits : IsHex 8 time_low
  pub mid_fits : IsHex 4 time_mid
  pub version_fits : IsHex 3 version
  pub variant_fits : is_variant (variant ∷ []) ≡ true
  pub clock_fits : IsHex 3 clock
  pub node_fits : IsHex 12 node

abbrev join : List Text → Text
join [] = []
join (p ∷ []) = p
join (p ∷ q ∷ parts) = p ++ 45 ∷ join (q ∷ parts)

join-onto_first : (c : ℕ) (parts : List Text) → join (onto_first c parts) ≡ c ∷ join parts
join-onto_first c [] = refl
join-onto_first c (p ∷ []) = refl
join-onto_first c (p ∷ q ∷ parts) = refl

join_cons : (parts : List Text) → 0 < length parts → join ([] ∷ parts) ≡ 45 ∷ join parts
join_cons [] h = absurd (omega arith)
join_cons (p ∷ parts) h = refl

split_some : (s : Text) → 0 < length (split s)
unfolding split
split_some [] = omega arith
split_some (c ∷ s) = elim (Bool-cases (c == 45)) [
  | inl dash ↦ rw dash (omega arith)
  | inr other ↦ rw other (onto_some (split s))
]
  where
    onto_some : (parts : List Text) → 0 < length (onto_first c parts)
    onto_some [] = omega arith
    onto_some (p ∷ parts) = omega arith

join-split : (s : Text) → join (split s) ≡ s
unfolding split
join-split [] = refl
join-split (c ∷ s) = elim (Bool-cases (c == 45)) [
  | inl dash ↦ rw dash (join_cons (split s) (split_some s) ∙ ground (arith, join-split s, dash))
  | inr other ↦ rw other (join-onto_first c (split s) ∙ ap (λ s. c ∷ s) (join-split s))
]

-- Hexadecimal digits hold no dash.
split-hex : (p rest : Text) → all_hex p ≡ true → split (p ++ 45 ∷ rest) ≡ p ∷ split rest
unfolding split
split-hex [] rest h = refl
split-hex (c ∷ p) rest h =
    let other : (c == 45) ≡ false = ground (arith, h) in
    rw other (ap (onto_first c) (split-hex p rest (ground (arith, h))))

split_last : (p : Text) → all_hex p ≡ true → split p ≡ p ∷ []
unfolding split
split_last [] h = refl
split_last (c ∷ p) h =
    let other : (c == 45) ≡ false = ground (arith, h) in
    rw other (ap (onto_first c) (split_last p (ground (arith, h))))

-- A group that begins with a known digit, and one that begins with a digit that is tested.
begins :
    (c : Text)
    → IsHex 4 c
    → starts_with c (bytes "7") ≡ true
    → (rest : Text) × (c ≡ 55 ∷ rest) × IsHex 3 rest
unfolding starts_with
begins [] h seven = absurd (omega (arith, h.0))
begins (x ∷ rest) h seven =
    (rest, ap (λ x. x ∷ rest) (ground (arith, seven)), (omega (arith, h.0), ground (arith, h.1)))

varies :
    (d : Text)
    → IsHex 4 d
    → is_variant d ≡ true
    → (v : ℕ) × (rest : Text) × (d ≡ v ∷ rest) × (is_variant (v ∷ []) ≡ true) × IsHex 3 rest
varies [] h v = absurd (omega (arith, h.0))
varies (x ∷ rest) h v = (x, rest, refl, v, (omega (arith, h.0), ground (arith, h.1)))

fit_cons :
    (n : ℕ) (p : Text) (lengths : List ℕ) (parts : List Text)
    → (parts_fit (p ∷ parts) (n ∷ lengths) ≡ true) ↔ (IsHex n p × (parts_fit parts lengths ≡ true))
unfolding parts_fit
fit_cons n p lengths parts = ground arith

fit_end : parts_fit [] [] ≡ true
unfolding parts_fit
fit_end = refl

-- What the code asks of five parts.
parts_form :
    (a b c d e s : Text)
    → split s ≡ a ∷ b ∷ c ∷ d ∷ e ∷ []
    → parts_fit (a ∷ b ∷ c ∷ d ∷ e ∷ []) expected_lengths ≡ true
    → starts_with c (bytes "7") ≡ true
    → is_variant d ≡ true
    → IsUuid s
parts_form a b c d e s parts fit seven variant =
    let (ha, fit1) = (fit_cons 8 a _ _).0 fit in
    let (hb, fit2) = (fit_cons 4 b _ _).0 fit1 in
    let (hc, fit3) = (fit_cons 4 c _ _).0 fit2 in
    let (hd, fit4) = (fit_cons 4 d _ _).0 fit3 in
    let (he, fit5) = (fit_cons 12 e _ _).0 fit4 in
    let (c', ec, hc') = begins c hc seven in
    let (v, d', ed, hv, hd') = varies d hd variant in
    let whole : s ≡ a ++ 45 ∷ (b ++ 45 ∷ (c ++ 45 ∷ (d ++ 45 ∷ e))) =
      sym (join-split s) ∙ ap join parts in
    let third : s ≡ a ++ 45 ∷ (b ++ 45 ∷ (55 ∷ c' ++ 45 ∷ (d ++ 45 ∷ e))) =
      whole ∙ ap (λ c. a ++ 45 ∷ (b ++ 45 ∷ (c ++ 45 ∷ (d ++ 45 ∷ e)))) ec in
    record {
      time_low = a;
      time_mid = b;
      version = c';
      variant = v;
      clock = d';
      node = e;
      joined = third ∙ ap (λ d. a ++ 45 ∷ (b ++ 45 ∷ (55 ∷ c' ++ 45 ∷ (d ++ 45 ∷ e)))) ed;
      low_fits = ha;
      mid_fits = hb;
      version_fits = hc';
      variant_fits = hv;
      clock_fits = hd';
      node_fits = he;
    }

split-IsUuid :
    (s : Text)
    → (u : IsUuid s)
    → split s ≡ u.time_low ∷ u.time_mid ∷ (55 ∷ u.version) ∷ (u.variant ∷ u.clock) ∷ u.node ∷ []
split-IsUuid s u =
    ap split u.joined
    ∙ split-hex u.time_low _ u.low_fits.1
    ∙ ap (λ l. u.time_low ∷ l)
        (split-hex u.time_mid _ u.mid_fits.1
          ∙ ap (λ l. u.time_mid ∷ l)
              (split-hex (55 ∷ u.version) _ u.version_fits.1
                ∙ ap (λ l. (55 ∷ u.version) ∷ l)
                    (split-hex (u.variant ∷ u.clock) _
                        (ground (arith, u.variant_fits, u.clock_fits.1))
                      ∙ ap (λ l. (u.variant ∷ u.clock) ∷ l) (split_last u.node u.node_fits.1))))

-- The code asks four tests of the parts.
accepted :
    (s : Text) (parts : List Text)
    → split s ≡ parts
    → (length parts == 5
        && parts_fit parts expected_lengths
        && starts_with (part 2 parts) (bytes "7")
        && is_variant (part 3 parts))
      ≡ true
    → IsUuid s
accepted s (a ∷ b ∷ c ∷ d ∷ l ∷ []) e h =
    let (rest, variant) = and_true _ _ h in
    let (fit, seven) = and_true _ _ rest in parts_form a b c d l s e fit seven variant
accepted s [] e h = cc
accepted s (a ∷ []) e h = cc
accepted s (a ∷ b ∷ []) e h = cc
accepted s (a ∷ b ∷ c ∷ []) e h = cc
accepted s (a ∷ b ∷ c ∷ d ∷ []) e h = cc
accepted s (a ∷ b ∷ c ∷ d ∷ l ∷ x ∷ parts) e h = absurd (ground (arith, h))

accepts : (s : Text) → IsUuid s → is_uuidv7 s ≡ true
unfolding is_uuidv7
accepts s u =
    let parts : List Text =
      u.time_low ∷ u.time_mid ∷ (55 ∷ u.version) ∷ (u.variant ∷ u.clock) ∷ u.node ∷ [] in
    let version : IsHex 4 (55 ∷ u.version) = (omega (arith, u.version_fits.0), u.version_fits.1) in
    let clock : IsHex 4 (u.variant ∷ u.clock) =
      (omega (arith, u.clock_fits.0), ground (arith, u.variant_fits, u.clock_fits.1)) in
    let fit5 = (fit_cons 12 u.node [] []).1 (u.node_fits, fit_end) in
    let fit4 = (fit_cons 4 (u.variant ∷ u.clock) (12 ∷ []) (u.node ∷ [])).1 (clock, fit5) in
    let fit3 =
      (fit_cons 4 (55 ∷ u.version) (4 ∷ 12 ∷ []) ((u.variant ∷ u.clock) ∷ u.node ∷ [])).1
        (version, fit4) in
    let fit2 =
      (fit_cons 4 u.time_mid (4 ∷ 4 ∷ 12 ∷ [])
          ((55 ∷ u.version) ∷ (u.variant ∷ u.clock) ∷ u.node ∷ [])).1
        (u.mid_fits, fit3) in
    let fit : parts_fit parts expected_lengths ≡ true =
      (fit_cons 8 u.time_low (4 ∷ 4 ∷ 4 ∷ 12 ∷ [])
          (u.time_mid ∷ (55 ∷ u.version) ∷ (u.variant ∷ u.clock) ∷ u.node ∷ [])).1
        (u.low_fits, fit2) in
    rw (split-IsUuid s u, fit) u.variant_fits

-- A text is accepted as a UUIDv7 just when it has the five groups of one, of the right lengths and in
-- lower-case hexadecimal digits, of which the third begins with 7 and the fourth with 8, 9, a or b.
pub is_uuidv7-IsUuid : (s : Text) → (is_uuidv7 s ≡ true) ↔ IsUuid s
unfolding is_uuidv7
is_uuidv7-IsUuid s = (accepted s (split s) refl, accepts s)
