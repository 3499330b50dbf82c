-- ===== src/Status/Decoded.antt =====
-- The result of a C function that reads a buffer and returns its findings through pointers.
use aemlib.Base.{
  ℕ, Option, none, some, ◌≡◌, ◌≢◌, refl, ◌⊎◌, inl, inr, Bool, true, false, if◌then◌else◌,
}

-- `err st` is a return of the status `st`; `overrun` is no C result: a read past the buffer.
pub data Decoded {ℓ} (A : Type ℓ) : Type ℓ where
  ok : A → Decoded A
  err : ℕ → Decoded A
  overrun : Decoded A

infixl 5 ◌>>=◌
abbrev pub ◌>>=◌ {ℓ κ} : {A : Type ℓ} {B : Type κ} → Decoded A → (A → Decoded B) → Decoded B
ok a >>= k = k a
err st >>= k = err st
overrun >>= k = overrun

-- A read of the buffer, and what follows it.
abbrev pub reading {ℓ κ} : {A : Type ℓ} {B : Type κ} → Option A → (A → Decoded B) → Decoded B
reading none k = overrun
reading (some a) k = k a

-- To split on what a decoder returned and keep the equation.
pub Decoded-cases {ℓ} :
    {A : Type ℓ} (d : Decoded A)
    → ((a : A) × (d ≡ ok a)) ⊎ ((st : ℕ) × (d ≡ err st)) ⊎ (d ≡ overrun)
Decoded-cases (ok a) = inl (a, refl)
Decoded-cases (err st) = inr (inl (st, refl))
Decoded-cases overrun = inr (inr refl)

-- A read that is in bounds, and what follows it.
pub reading-ne-overrun {ℓ κ} :
    {A : Type ℓ} {B : Type κ} (o : Option A) (k : A → Decoded B)
    → o ≢ none
    → ((a : A) → o ≡ some a → k a ≢ overrun)
    → reading o k ≢ overrun
reading-ne-overrun none k h f e = h refl
reading-ne-overrun (some a) k h f e = f a refl e

pub if-ne-overrun {ℓ} :
    {A : Type ℓ} (b : Bool) (x y : Decoded A)
    → x ≢ overrun
    → (b ≡ false → y ≢ overrun)
    → (if b then x else y) ≢ overrun
if-ne-overrun true x y h k e = h e
if-ne-overrun false x y h k e = k refl e

pub err-ne-overrun {ℓ} : {A : Type ℓ} (st : ℕ) → ◌≢◌ {A = Decoded A} (err st) overrun
err-ne-overrun st e = cc

pub ok-ne-overrun {ℓ} : {A : Type ℓ} (a : A) → ◌≢◌ {A = Decoded A} (ok a) overrun
ok-ne-overrun a e = cc

pub err_inj {ℓ} : {A : Type ℓ} {a b : ℕ} → ◌≡◌ {A = Decoded A} (err a) (err b) → a ≡ b
err_inj e = cc
