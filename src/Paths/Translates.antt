-- ===== src/Paths/Translates.antt =====
-- agent/cg-agent/src/paths.rs: that a path is translated as its text and the pairs say.
use cyber_guard_enterprise.Prelude.{
  suc, ◌≡◌, ◌≤◌, refl, sym, ap, subst, ◌∙◌, inl, inr, Bool, true, false, ◌&&◌, and_true, List, [],
  ◌∷◌, ◌++◌, Option, none, some, Text, All-map, length, take, drop, take-append-drop, length-take,
  length-append, eq_ignore_ascii_case, is_empty, ◌==◌, leb, if◌then◌else◌, arith,
}
use cyber_guard_enterprise.Paths.{
  Entry, backslash, mup_prefix, unc_prefix, trim_end, trimmed, from_pairs,
  strip_prefix_ignore_ascii_case, at_separator, matched, entry_matches, translate_device, unc_or,
  translate,
}
use cyber_guard_enterprise.Paths.Longest.{Longest, translate_device-from_pairs}
use cyber_guard_enterprise.Paths.Covered.{
  Begins, Separated, Covers, IsCovered, IsTrim, Trims, IsUnc, IsTranslated, end, separator,
  trims_none, trims_away, trims_to,
}

take-append : (s t : Text) → take (length s) (s ++ t) ≡ s
take-append [] t = refl
take-append (c ∷ s) t = ap (λ l. c ∷ l) (take-append s t)

drop-append : (s t : Text) → drop (length s) (s ++ t) ≡ t
drop-append [] t = refl
drop-append (c ∷ s) t = drop-append s t

strip_prefix-Begins :
    (path prefix rest : Text)
    → strip_prefix_ignore_ascii_case path prefix ≡ some rest
    → Begins path prefix rest
unfolding strip_prefix_ignore_ascii_case
strip_prefix-Begins path prefix rest h = by _ refl h
  where
    by :
        (b : Bool)
        → (leb (length prefix) (length path)
            && eq_ignore_ascii_case (take (length prefix) path) prefix)
          ≡ b
        → (if b then some (drop (length prefix) path) else none) ≡ some rest
        → Begins path prefix rest
    by true e h =
        let (fits, same) =
          and_true (leb (length prefix) (length path))
            (eq_ignore_ascii_case (take (length prefix) path) prefix) e in
        let rests : drop (length prefix) path ≡ rest = cc in
        record {
          head = take (length prefix) path;
          parts =
              sym (take-append-drop (length prefix) path)
              ∙ ap (λ r. take (length prefix) path ++ r) rests;
          long = ground (arith, fits, length-take (length prefix) path);
          same = same;
        }
    by false e h = cc

Begins-strip_prefix :
    (path prefix rest : Text)
    → Begins path prefix rest
    → strip_prefix_ignore_ascii_case path prefix ≡ some rest
unfolding strip_prefix_ignore_ascii_case
Begins-strip_prefix path prefix rest b =
    let takes : take (length prefix) path ≡ b.head =
      subst (λ n. take n path ≡ b.head) b.long
        (ap (take (length b.head)) b.parts ∙ take-append b.head rest) in
    let drops : drop (length prefix) path ≡ rest =
      subst (λ n. drop n path ≡ rest) b.long
        (ap (drop (length b.head)) b.parts ∙ drop-append b.head rest) in
    let size = ap length b.parts ∙ length-append b.head rest in
    let fits : leb (length prefix) (length path) ≡ true = ground (arith, size, b.long) in
    let same : eq_ignore_ascii_case (take (length prefix) path) prefix ≡ true =
      subst (λ t. eq_ignore_ascii_case t prefix ≡ true) (sym takes) b.same in
    rw (fits, same) (ap some drops)

rest_of_Begins :
    (path prefix rest : Text) → Begins path prefix rest → drop (length prefix) path ≡ rest
rest_of_Begins path prefix rest b =
    subst (λ n. drop n path ≡ rest) b.long
      (ap (drop (length b.head)) b.parts ∙ drop-append b.head rest)

at_separator-Separated : (rest : Text) → at_separator rest ≡ true → Separated rest
at_separator-Separated [] h = end
at_separator-Separated (c ∷ s) h = separator c s (ground (arith, h))

Separated-at_separator : (rest : Text) → Separated rest → at_separator rest ≡ true
Separated-at_separator [] h = refl
Separated-at_separator (c ∷ s) (separator _ _ e) = ground (arith, e)

entry_matches-Covers :
    (path device : Text)
    → entry_matches path device ≡ true
    → Covers path device (drop (length device) path)
unfolding entry_matches
entry_matches-Covers path device h = by (strip_prefix_ignore_ascii_case path device) refl h
  where
    by :
        (o : Option Text)
        → strip_prefix_ignore_ascii_case path device ≡ o
        → matched o ≡ true
        → Covers path device (drop (length device) path)
    by none e h = cc
    by (some rest) e h =
        let b = strip_prefix-Begins path device rest e in
        subst (Covers path device) (sym (rest_of_Begins path device rest b))
          (b, at_separator-Separated rest h)

IsCovered-matches : (path device : Text) → IsCovered path device → entry_matches path device ≡ true
unfolding entry_matches
IsCovered-matches path device (rest, (b, separated)) =
    ap matched (Begins-strip_prefix path device rest b) ∙ Separated-at_separator rest separated

Longest-IsTranslated :
    (entries : List Entry) (path result : Text)
    → ((rest : Text) → ¬ IsUnc path rest)
    → Longest entries path result
    → IsTranslated entries path result
Longest-IsTranslated entries path result other (inl (absent, same)) = inr (
  other,
  inl (
    All-map (λ (e : Entry). entry_matches path e.0 ≡ false) _
        (λ e misses covered. let hits = IsCovered-matches path e.0 covered in cc) entries absent,
    same,
  ),
)
Longest-IsTranslated entries path result other (inr (e, there, hit, same, longest)) = inr (
  other,
  inr (
    e,
    there,
    (drop (length e.0) path, entry_matches-Covers path e.0 hit, same),
    All-map (λ (f : Entry). entry_matches path f.0 ≡ true → length f.0 ≤ length e.0) _
        (λ f short covered. short (IsCovered-matches path f.0 covered)) entries longest,
  ),
)

trim_end-IsTrim : (device : Text) → IsTrim device (trim_end device)
unfolding trim_end
trim_end-IsTrim [] = record { count = 0; parts = refl; trims = refl }
trim_end-IsTrim (c ∷ s) = by (trim_end s) (trim_end-IsTrim s)
  where
    alone : (b : Bool) → (c == 92) ≡ b → IsTrim s [] → IsTrim (c ∷ s) (if b then [] else c ∷ [])
    alone true e h = record {
      count = suc h.count;
      parts =
          let same : c ≡ 92 = ground (arith, e) in ap (λ c. c ∷ s) same ∙ ap (λ s. 92 ∷ s) h.parts;
      trims = refl;
    }
    alone false e h = record { count = h.count; parts = ap (λ s. c ∷ s) h.parts; trims = e }

    by :
        (t : Text)
        → IsTrim s t
        → IsTrim (c ∷ s) (if is_empty t && c == backslash then [] else c ∷ t)
    by [] h = alone (c == 92) refl h
    by (d ∷ t) h = record { count = h.count; parts = ap (λ s. c ∷ s) h.parts; trims = h.trims }

trimmed-Trims : (pairs : List Entry) → Trims pairs (trimmed pairs)
unfolding trimmed
trimmed-Trims [] = trims_none
trimmed-Trims ((device, drive) ∷ pairs) =
    by (trim_end device) (trim_end-IsTrim device) (trimmed-Trims pairs)
  where
    by :
        (name : Text)
        → IsTrim device name
        → Trims pairs (trimmed pairs)
        → Trims
            ((device, drive) ∷ pairs)
            (if is_empty name then trimmed pairs else (name, drive) ∷ trimmed pairs)
    by [] h rest = trims_away device drive pairs (trimmed pairs) h rest
    by (c ∷ s) h rest = trims_to device (c ∷ s) drive pairs (trimmed pairs) h (λ e. cc) rest

translate_by :
    (entries : List Entry) (path other : Text) (mup unc : Option Text)
    → strip_prefix_ignore_ascii_case path mup_prefix ≡ mup
    → strip_prefix_ignore_ascii_case path unc_prefix ≡ unc
    → (((rest : Text) → ¬ IsUnc path rest) → IsTranslated entries path other)
    → IsTranslated entries path (unc_or mup (unc_or unc other))
translate_by entries path other (some rest) unc e f h =
    inl (rest, inl (strip_prefix-Begins path mup_prefix rest e), refl)
translate_by entries path other none (some rest) e f h =
    inl (rest, inr (strip_prefix-Begins path unc_prefix rest f), refl)
translate_by entries path other none none e f h = h no_unc
  where
    no_unc : (rest : Text) → ¬ IsUnc path rest
    no_unc rest (inl b) = let s = Begins-strip_prefix path mup_prefix rest b in cc
    no_unc rest (inr b) = let s = Begins-strip_prefix path unc_prefix rest b in cc

-- By a map built from pairs, a path that is a UNC path in one of its two forms begins with two
-- separators in place of that form; any other path that a pair's prefix covers, up to its end or a
-- separator, has the prefix replaced by the drive of a pair and the rest kept, where no pair's prefix
-- that covers it is longer; and any other is returned as it is. The prefixes of pairs are taken without
-- the separators at their ends, those with nothing else left out, and compared in whatever case of
-- ASCII letters.
pub translate-IsTranslated :
    (pairs : List Entry) (path : Text)
    → (entries : List Entry) × Trims pairs entries
      × IsTranslated entries path (translate (from_pairs pairs) path)
unfolding translate
translate-IsTranslated pairs path = (
  trimmed pairs,
  trimmed-Trims pairs,
  translate_by (trimmed pairs) path (translate_device (from_pairs pairs) path) _ _ refl refl
      (λ other.
        Longest-IsTranslated (trimmed pairs) path _ other (translate_device-from_pairs pairs path)),
)
