-- ===== src/Version/Grammar.antt =====
-- agent/cg-agent/src/version.rs: the grammar of a release version.
use cyber_guard_enterprise.Prelude.{
  ℕ, zero, suc, ◌+◌, ◌<◌, ◌≡◌, ◌↔◌, refl, sym, ap, subst, ◌∙◌, Bool, true, false, ◌&&◌, ◌||◌, [],
  ◌∷◌, ◌++◌, append-nil, All, Text, length, arith, inl, inr, Bool-cases, ◌==◌, if◌then◌else◌,
}
use cyber_guard_enterprise.Version.{is_ascii_digit, scan, is_release_version}

abbrev pub IsDigit : ℕ → Type 0
IsDigit c = is_ascii_digit c ≡ true

-- Decimal digits, at least one, and no leading zero but in `0` itself.
abbrev pub IsNumber : Text → Type 0
IsNumber [] = ⊥
IsNumber (c ∷ t) = IsDigit c × All IsDigit t × ((c == 48) ≡ true → t ≡ [])

-- So many numbers and one more, each but the last followed by a dot.
abbrev pub IsDotted : ℕ → Text → Type 0
IsDotted zero s = IsNumber s
IsDotted (suc n) s =
    (t : Text) × (rest : Text) × (s ≡ t ++ 46 ∷ rest) × IsNumber t × IsDotted n rest

-- What may follow in a number of which some digits are read.
abbrev Continues : ℕ → Bool → Text → Type 0
Continues zero leading_zero t = IsNumber t
Continues (suc digits) leading_zero t = All IsDigit t × (leading_zero ≡ true → t ≡ [])

-- The same of the whole rest, with `n` dots to come.
abbrev Follows : ℕ → ℕ → Bool → Text → Type 0
Follows zero digits leading_zero s = Continues digits leading_zero s
Follows (suc n) digits leading_zero s =
    (t : Text) × (rest : Text) × (s ≡ t ++ 46 ∷ rest)
    × Continues digits leading_zero t
    × IsDotted n rest

digit-Continues :
    (c digits : ℕ) (t : Text)
    → IsDigit c
    → Continues (suc digits) (digits == 0 && c == 48) t
    → Continues digits false (c ∷ t)
digit-Continues c zero t digit (digits, lone) = (digit, digits, lone)
digit-Continues c (suc d) t digit (digits, lone) = ((digit, digits), λ e. absurd cc)

digit-Follows :
    (n c digits : ℕ) (s : Text)
    → IsDigit c
    → Follows n (suc digits) (digits == 0 && c == 48) s
    → Follows n digits false (c ∷ s)
digit-Follows zero c digits s digit f = digit-Continues c digits s digit f
digit-Follows (suc n) c digits s digit (t, rest, e, number, dotted) =
    (c ∷ t, rest, ap (λ s. c ∷ s) e, digit-Continues c digits t digit number, dotted)

Follows-Dotted : (n : ℕ) (s : Text) → Follows n 0 false s → IsDotted n s
Follows-Dotted zero s f = f
Follows-Dotted (suc n) s f = f

nil-Follows :
    (n digits : ℕ) (leading_zero : Bool) → n ≡ 0 → 0 < digits → Follows n digits leading_zero []
nil-Follows zero zero leading_zero e some_digit = absurd (omega arith)
nil-Follows zero (suc d) leading_zero e some_digit = (tt, λ z. refl)
nil-Follows (suc n) digits leading_zero e some_digit = absurd (omega arith)

dot-Follows :
    (n digits : ℕ) (leading_zero : Bool) (c : ℕ) (s : Text)
    → (c == 46) ≡ true
    → 0 < digits
    → 0 < n
    → ((m : ℕ) → n ≡ suc m → IsDotted m s)
    → Follows n digits leading_zero (c ∷ s)
dot-Follows zero digits leading_zero c s dot some_digit more h = absurd (omega arith)
dot-Follows (suc n) zero leading_zero c s dot some_digit more h = absurd (omega arith)
dot-Follows (suc n) (suc d) leading_zero c s dot some_digit more h =
    ([], s, ap (λ c. c ∷ s) (ground (arith, dot)), (tt, λ z. refl), h n refl)

scan-dot :
    (c : ℕ) (s : Text) (dots digits : ℕ) (leading_zero : Bool)
    → (c == 46) ≡ true
    → scan (c ∷ s) dots digits leading_zero
      ≡ (if digits == 0 || dots == 2 then false else scan s (suc dots) 0 false)
unfolding scan
scan-dot c s dots digits leading_zero dot = rw dot refl

scan-digit :
    (c : ℕ) (s : Text) (dots digits : ℕ) (leading_zero : Bool)
    → is_ascii_digit c ≡ true
    → scan (c ∷ s) dots digits leading_zero
      ≡ (if leading_zero then false else scan s dots (suc digits) (digits == 0 && c == 48))
unfolding scan
scan-digit c s dots digits leading_zero digit =
    let other : (c == 46) ≡ false = ground (arith, digit) in rw (other, digit) refl

scan_other :
    (c : ℕ) (s : Text) (dots digits : ℕ) (leading_zero : Bool)
    → (c == 46) ≡ false
    → is_ascii_digit c ≡ false
    → scan (c ∷ s) dots digits leading_zero ≡ false
unfolding scan
scan_other c s dots digits leading_zero other bad = rw (other, bad) refl

-- A test that must fail for the rest to hold.
guarded : (b c : Bool) → (if b then false else c) ≡ true → (b ≡ false) × (c ≡ true)
guarded true c h = absurd cc
guarded false c h = (refl, h)

scan-Follows :
    (s : Text) (n dots digits : ℕ) (leading_zero : Bool)
    → dots + n ≡ 2
    → scan s dots digits leading_zero ≡ true
    → Follows n digits leading_zero s
unfolding scan
scan-Follows [] n dots digits leading_zero e h =
    nil-Follows n digits leading_zero (ground (arith, e, h)) (ground (arith, h))
scan-Follows (c ∷ s) n dots digits leading_zero e h = elim (Bool-cases (c == 46)) [
  | inl dot ↦
      (let (open_, rest) =
          guarded (digits == 0 || dots == 2) _
            (sym (scan-dot c s dots digits leading_zero dot) ∙ h) in
        dot-Follows n digits leading_zero c s dot (ground (arith, open_)) (ground (arith, open_, e))
          (λ m more.
            Follows-Dotted m s (scan-Follows s m (suc dots) 0 false (omega (arith, e, more)) rest)))
  | inr other ↦ elim (Bool-cases (is_ascii_digit c)) [
    | inl digit ↦
        (let (plain, rest) =
            guarded leading_zero _ (sym (scan-digit c s dots digits leading_zero digit) ∙ h) in
          subst (λ z. Follows n digits z (c ∷ s)) (sym plain)
            (digit-Follows n c digits s digit
              (scan-Follows s n dots (suc digits) (digits == 0 && c == 48) e rest)))
    | inr bad ↦ absurd (true-false (sym h ∙ scan_other c s dots digits leading_zero other bad))
  ]
]
  where
    true-false : true ≡ false → ⊥
    true-false e = cc

cons-Continues :
    (c digits : ℕ) (leading_zero : Bool) (t : Text)
    → (digits ≡ 0 → leading_zero ≡ false)
    → Continues digits leading_zero (c ∷ t)
    → IsDigit c × (leading_zero ≡ false) × Continues (suc digits) (digits == 0 && c == 48) t
cons-Continues c zero leading_zero t fresh (digit, digits, lone) =
    (digit, fresh refl, (digits, lone))
cons-Continues c (suc d) true t fresh ((digit, digits), lone) =
    absurd (omega (arith, ap length (lone refl)))
cons-Continues c (suc d) false t fresh ((digit, digits), lone) =
    (digit, refl, (digits, λ e. ground (arith, e)))

-- What the loop makes of a number, or of what is left of it.
scan-number :
    (t rest : Text) (dots digits : ℕ) (leading_zero : Bool)
    → (digits ≡ 0 → leading_zero ≡ false)
    → Continues digits leading_zero t
    → (digits' : ℕ) × (leading_zero' : Bool) × (0 < digits')
      × (scan (t ++ rest) dots digits leading_zero ≡ scan rest dots digits' leading_zero')
scan-number [] rest dots zero leading_zero fresh number = absurd number
scan-number [] rest dots (suc d) leading_zero fresh number =
    (suc d, leading_zero, omega arith, refl)
scan-number (c ∷ t) rest dots digits leading_zero fresh number =
    let (digit, plain, left) = cons-Continues c digits leading_zero t fresh number in
    let (d, z, some_digit, e) =
      scan-number t rest dots (suc digits) (digits == 0 && c == 48) (λ e. absurd (omega (arith, e)))
        left in
    let first : scan (c ∷ t ++ rest) dots digits leading_zero
        ≡ scan (t ++ rest) dots (suc digits) (digits == 0 && c == 48) =
      scan-digit c (t ++ rest) dots digits leading_zero digit ∙ rw plain refl in
    (d, z, some_digit, first ∙ e)

scan_end :
    (dots digits : ℕ) (leading_zero : Bool)
    → dots ≡ 2
    → 0 < digits
    → scan [] dots digits leading_zero ≡ true
unfolding scan
scan_end dots digits leading_zero e some_digit = ground (arith, e, some_digit)

scan-Dotted :
    (n : ℕ) (s : Text) (dots : ℕ) → dots + n ≡ 2 → IsDotted n s → scan s dots 0 false ≡ true
scan-Dotted zero s dots e number =
    let (d, z, some_digit, p) = scan-number s [] dots 0 false (λ f. refl) number in
    ap (λ s. scan s dots 0 false) (sym (append-nil s))
    ∙ p
    ∙ scan_end dots d z (omega (arith, e)) some_digit
scan-Dotted (suc n) s dots e (t, rest, whole, number, dotted) =
    let (d, z, some_digit, p) = scan-number t (46 ∷ rest) dots 0 false (λ f. refl) number in
    let go_on : (d == 0 || dots == 2) ≡ false = ground (arith, e, some_digit) in
    ap (λ s. scan s dots 0 false) whole
    ∙ p
    ∙ scan-dot 46 rest dots d z refl
    ∙ rw go_on (scan-Dotted n rest (suc dots) (omega (arith, e)) dotted)

-- A text is accepted as a release version just when it is three numbers, each `0` or decimal digits
-- without a leading zero, joined by dots.
pub is_release_version-Dotted : (s : Text) → (is_release_version s ≡ true) ↔ IsDotted 2 s
unfolding is_release_version
is_release_version-Dotted s =
    (λ h. Follows-Dotted 2 s (scan-Follows s 2 0 0 false refl h), scan-Dotted 2 s 0 refl)
