-- ===== src/Cges/Identity.antt =====
-- agent/cg-agent/src/etw/uid.rs: the uid of a process, and which process it names.
use cyber_guard_enterprise.Prelude.{
  ℕ, zero, suc, ◌+◌, ◌*◌, ◌/◌, ◌%◌, ◌^◌, ◌-◌, ◌<◌, ◌≡◌, ◌≢◌, refl, sym, ap, ap₂, ◌∙◌, inl, inr, [],
  ◌∷◌, ◌++◌, Text, All, arith, ltb, Bool-cases,
}
use cyber_guard_enterprise.Prelude.Print.{digit, to_radix, to_decimal}
use cyber_guard_enterprise.Cges.{format_process_uid}

-- The number that a decimal text goes on to, after the digits read so far.
read : ℕ → Text → ℕ
read n [] = n
read n (c ∷ s) = read (n * 10 + (c - 48)) s

-- The numbers of at most `fuel` digits.
limit : ℕ → ℕ
limit zero = 1
limit (suc fuel) = 10 * limit fuel

digit_decimal : (d : ℕ) → d < 10 → digit d ≡ 48 + d
digit_decimal d h = ground arith

read-to_radix :
    (fuel n : ℕ) (rest : Text) → n < limit fuel → read 0 (to_radix 10 fuel n rest) ≡ read n rest
unfolding to_radix read limit
read-to_radix zero n rest h = ap (λ n. read n rest) (omega (arith, h))
read-to_radix (suc fuel) n rest h = elim (Bool-cases (ltb n 10)) [
  | inl one ↦ rw one (ap (λ n. read n rest) (omega arith))
  | inr more ↦ rw more (
      read-to_radix fuel (n / 10) (digit (n % 10) ∷ rest) (omega (arith, h))
      ∙ ap (λ n. read n rest) (omega (arith, digit_decimal (n % 10) (omega arith))))
]

read-to_decimal : (n : ℕ) → n < 2 ^ 64 → read 0 (to_decimal n) ≡ n
unfolding to_decimal read limit
read-to_decimal n h = read-to_radix 20 n [] (omega (arith, h))

-- No character of a text is a colon.
abbrev Plain : Text → Type 0
Plain s = All (λ c. c ≢ 58) s

to_radix-Plain : (fuel n : ℕ) (rest : Text) → Plain rest → Plain (to_radix 10 fuel n rest)
unfolding to_radix
to_radix-Plain zero n rest plain = plain
to_radix-Plain (suc fuel) n rest plain = elim (Bool-cases (ltb n 10)) [
  | inl one ↦ rw one (λ e. ground (arith, e, one), plain)
  | inr more ↦ rw more (
      to_radix-Plain fuel (n / 10) (digit (n % 10) ∷ rest)
        (λ e. omega (arith, e, digit_decimal (n % 10) (omega arith)), plain))
]

to_decimal-Plain : (n : ℕ) → Plain (to_decimal n)
unfolding to_decimal
to_decimal-Plain n = to_radix-Plain 20 n [] tt

-- What stands before the first colon, and what after it.
split_at_colon :
    (xs ys us vs : Text)
    → Plain xs
    → Plain ys
    → xs ++ 58 ∷ us ≡ ys ++ 58 ∷ vs
    → (xs ≡ ys) × (us ≡ vs)
split_at_colon [] [] us vs px py e = (refl, cc)
split_at_colon [] (y ∷ ys) us vs px (py, pys) e = absurd (py cc)
split_at_colon (x ∷ xs) [] us vs (px, pxs) py e = absurd (px cc)
split_at_colon (x ∷ xs) (y ∷ ys) us vs (px, pxs) (py, pys) e =
    let head : x ≡ y = cc in
    let tail : xs ++ 58 ∷ us ≡ ys ++ 58 ∷ vs = cc in
    let (same, rest) = split_at_colon xs ys us vs pxs pys tail in
    (ap₂ (λ x xs. x ∷ xs) head same, rest)

cancel : (xs us vs : Text) → xs ++ us ≡ xs ++ vs → us ≡ vs
cancel [] us vs e = e
cancel (x ∷ xs) us vs e = cancel xs us vs cc

-- The uid identifies a process of an agent: two uids of one agent are the same only for the same
-- pid (a `u32`) and the same creation time (a `u64`).
pub format_process_uid_injective :
    (agent_id : Text) (pid pid' nanos nanos' : ℕ)
    → pid < 2 ^ 32
    → pid' < 2 ^ 32
    → nanos < 2 ^ 64
    → nanos' < 2 ^ 64
    → format_process_uid agent_id pid nanos ≡ format_process_uid agent_id pid' nanos'
    → (pid ≡ pid') × (nanos ≡ nanos')
unfolding format_process_uid
format_process_uid_injective agent_id pid pid' nanos nanos' h h' k k' e =
    let after_agent = cancel agent_id _ _ e in
    let (pids, times) =
      split_at_colon (to_decimal pid) (to_decimal pid') _ _ (to_decimal-Plain pid)
        (to_decimal-Plain pid') (cancel (58 ∷ []) _ _ after_agent) in
    (
      sym (read-to_decimal pid (omega (arith, h)))
          ∙ ap (read 0) pids
          ∙ read-to_decimal pid' (omega (arith, h')),
      sym (read-to_decimal nanos k) ∙ ap (read 0) times ∙ read-to_decimal nanos' k',
    )
