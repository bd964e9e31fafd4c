-- ===== src/Prelude/Results.antt =====
-- `Result`, with `?` as its bind.
use mathlib.Core.Path.{◌≡◌, refl, ap}
use mathlib.Core.Logic.{◌⊎◌, inl, inr}
use mathlib.Core.Bool.{Bool, true, false}
use mathlib.Core.Option.{Option, none, some}

pub data Result {ℓ κ} (E : Type ℓ) (A : Type κ) : Type (ℓ ⊔ κ) where
  ok : A → Result E A
  err : E → Result E A

-- `()`.
pub data Done : Type 0 where
  done : Done

infixl 5 ◌>>=◌ ◌>>◌
abbrev pub ◌>>=◌ {ℓ κ ι} :
    {E : Type ℓ} {A : Type κ} {B : Type ι} → Result E A → (A → Result E B) → Result E B
ok a >>= f = f a
err e >>= f = err e

abbrev pub ◌>>◌ {ℓ κ} : {E : Type ℓ} {B : Type κ} → Result E Done → Result E B → Result E B
ok done >> k = k
err e >> k = err e

abbrev pub guard {ℓ} : {E : Type ℓ} → Bool → E → Result E Done
guard true e = ok done
guard false e = err e

-- `Option::ok_or`.
abbrev pub ok_or {ℓ κ} : {E : Type ℓ} {A : Type κ} → Option A → E → Result E A
ok_or none e = err e
ok_or (some a) e = ok a

-- `Result::map_err`.
abbrev pub map_err {ℓ κ ι} :
    {E : Type ℓ} {F : Type κ} {A : Type ι} → (E → F) → Result E A → Result F A
map_err f (ok a) = ok a
map_err f (err e) = err (f e)

-- `Result::is_ok`.
abbrev pub is_ok {ℓ κ} : {E : Type ℓ} {A : Type κ} → Result E A → Bool
is_ok (ok a) = true
is_ok (err e) = false

pub Result-cases {ℓ κ} :
    {E : Type ℓ} {A : Type κ} (r : Result E A) → ((a : A) × (r ≡ ok a)) ⊎ ((e : E) × (r ≡ err e))
Result-cases (ok a) = inl (a, refl)
Result-cases (err e) = inr (e, refl)

-- What a result satisfies, by how it came out, and the rules for its parts.
abbrev pub Holds {ℓ κ ι} :
    {E : Type ℓ} {A : Type κ} → (E → Type ι) → (A → Type ι) → Result E A → Type ι
Holds P Q (ok a) = Q a
Holds P Q (err e) = P e

module _ {ℓ κ ι} {E : Type ℓ} {A : Type κ} (P : E → Type ι) (Q : A → Type ι) where
  pub Holds-guard :
      (b : Bool) (e : E) (k : Result E A)
      → (b ≡ false → P e)
      → (b ≡ true → Holds P Q k)
      → Holds P Q (guard b e >> k)
  Holds-guard true e k bad good = good refl
  Holds-guard false e k bad good = bad refl

  pub Holds-then :
      (R : Type ι) (m : Result E Done) (k : Result E A)
      → Holds P (λ _. R) m
      → (R → Holds P Q k)
      → Holds P Q (m >> k)
  Holds-then R (ok done) k h next = next h
  Holds-then R (err e) k h next = h

  pub Holds-bind {υ} :
      {B : Type υ} (R : B → Type ι) (m : Result E B) (f : B → Result E A)
      → Holds P R m
      → ((b : B) → R b → Holds P Q (f b))
      → Holds P Q (m >>= f)
  Holds-bind R (ok b) f h next = next b h
  Holds-bind R (err e) f h next = h

-- A test alone.
pub Holds-test {ℓ ι} :
    {E : Type ℓ} (P : E → Type ι) (R : Type ι) (b : Bool) (e : E)
    → (b ≡ false → P e)
    → (b ≡ true → R)
    → Holds P (λ d. R) (guard b e)
Holds-test P R true e bad good = good refl
Holds-test P R false e bad good = bad refl

pub Holds_weaken {ℓ κ ι} :
    {E : Type ℓ} {A : Type κ} (P P' : E → Type ι) (Q Q' : A → Type ι) (r : Result E A)
    → ((e : E) → P e → P' e)
    → ((a : A) → Q a → Q' a)
    → Holds P Q r
    → Holds P' Q' r
Holds_weaken P P' Q Q' (ok a) f g h = g a h
Holds_weaken P P' Q Q' (err e) f g h = f e h

pub >>-ok {ℓ κ} :
    {E : Type ℓ} {A : Type κ} (m : Result E Done) (k : Result E A) {a : A}
    → (m >> k) ≡ ok a
    → (m ≡ ok done) × (k ≡ ok a)
>>-ok (ok done) k h = (refl, h)
>>-ok (err e) k h = cc

pub >>=-ok {ℓ κ ι} :
    {E : Type ℓ} {A : Type κ} {B : Type ι} (m : Result E A) (f : A → Result E B) {b : B}
    → (m >>= f) ≡ ok b
    → (a : A) × (m ≡ ok a) × (f a ≡ ok b)
>>=-ok (ok a) f h = (a, refl, h)
>>=-ok (err e) f h = cc

pub guard-ok {ℓ} : {E : Type ℓ} (b : Bool) (e : E) → guard b e ≡ ok done → b ≡ true
guard-ok true e h = refl
guard-ok false e h = cc

pub map_err-ok {ℓ κ ι} :
    {E : Type ℓ} {F : Type κ} {A : Type ι} (f : E → F) (m : Result E A) {a : A}
    → map_err f m ≡ ok a
    → m ≡ ok a
map_err-ok f (ok a) h = cc
map_err-ok f (err e) h = cc

pub ok-ok {ℓ κ} : {E : Type ℓ} {A : Type κ} {a b : A} → ◌≡◌ {A = Result E A} (ok a) (ok b) → a ≡ b
ok-ok h = cc

-- What a chain does after a part that succeeds.
pub bind_ok {ℓ κ ι} :
    {E : Type ℓ} {A : Type κ} {B : Type ι} (m : Result E A) (f : A → Result E B) {a : A}
    → m ≡ ok a
    → (m >>= f) ≡ f a
bind_ok m f e = ap (λ m. m >>= f) e

pub then_ok {ℓ κ} :
    {E : Type ℓ} {A : Type κ} (m : Result E Done) (k : Result E A) → m ≡ ok done → (m >> k) ≡ k
then_ok m k e = ap (λ m. m >> k) e

-- The value or the renamed error of a part.
pub Holds-map_err {ℓ κ ι υ} :
    {E : Type ℓ} {F : Type κ} {A : Type ι} (P : F → Type υ) (Q : A → Type υ) (f : E → F)
    (r : Result E A)
    → ((e : E) → r ≡ err e → P (f e))
    → ((a : A) → r ≡ ok a → Q a)
    → Holds P Q (map_err f r)
Holds-map_err P Q f (ok a) bad good = good a refl
Holds-map_err P Q f (err e) bad good = bad e refl
