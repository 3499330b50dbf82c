-- ===== src/Status/Outcome.antt =====
-- What a call of a C function that returns an aemlib_status_t does to the state that it works on.
use aemlib.Base.{
  ℕ, ◌≡◌, ◌≢◌, refl, subst, ◌==◌, ==_iff, ne_of_==, Bool-cases, inl, inr, if◌then◌else◌, Option,
  none, some,
}
use aemlib.Status.{status_ok}

-- `fault` is no C result: the call read or wrote outside the memory that it was given.
pub data Outcome {ℓ} (S : Type ℓ) : Type ℓ where
  returned : ℕ → S → Outcome S
  fault : Outcome S

-- AEMLIB_CHECK_STATUS: a status other than OK is returned at once, with the state as it is.
infixl 5 ◌>>=◌
abbrev pub ◌>>=◌ {ℓ} : {S : Type ℓ} → Outcome S → (S → Outcome S) → Outcome S
returned st s >>= k = if st == status_ok then k s else returned st s
fault >>= k = fault

-- An access to memory, and what follows it.
abbrev pub accessing {ℓ κ} : {A : Type ℓ} {S : Type κ} → Option A → (A → Outcome S) → Outcome S
accessing none k = fault
accessing (some a) k = k a

-- The state after a call, if there is one.
abbrev pub Ends {ℓ} : {S : Type ℓ} → (ℕ → S → Type 0) → Outcome S → Type 0
Ends P (returned st s) = P st s
Ends P fault = ⊥

pub Ends-returned {ℓ} :
    {S : Type ℓ} (P : ℕ → S → Type 0) (r : Outcome S) (st : ℕ) (s : S)
    → Ends P r
    → r ≡ returned st s
    → P st s
Ends-returned P r st s h e = subst (Ends P) e h

pub Ends-cases {ℓ} :
    {S : Type ℓ} (P : ℕ → S → Type 0) (r : Outcome S)
    → Ends P r
    → (st : ℕ) × (s : S) × (r ≡ returned st s) × P st s
Ends-cases P (returned st s) h = (st, s, refl, h)
Ends-cases P fault h = absurd h

pub Ends-map {ℓ} :
    {S : Type ℓ} (P Q : ℕ → S → Type 0) (r : Outcome S)
    → ((st : ℕ) (s : S) → P st s → Q st s)
    → Ends P r
    → Ends Q r
Ends-map P Q (returned st s) f h = f st s h
Ends-map P Q fault f h = h

pub Ends-accessing {ℓ κ} :
    {A : Type ℓ} {S : Type κ} (P : ℕ → S → Type 0) (o : Option A) (k : A → Outcome S) (a : A)
    → o ≡ some a
    → Ends P (k a)
    → Ends P (accessing o k)
Ends-accessing P o k a e h = rw e h

-- What holds of the state after a call, if the call does not fault.
abbrev pub Whenever {ℓ} : {S : Type ℓ} → (ℕ → S → Type 0) → Outcome S → Type 0
Whenever P (returned st s) = P st s
Whenever P fault = Unit

pub Whenever-accessing {ℓ κ} :
    {A : Type ℓ} {S : Type κ} (P : ℕ → S → Type 0) (o : Option A) (k : A → Outcome S)
    → ((a : A) → o ≡ some a → Whenever P (k a))
    → Whenever P (accessing o k)
Whenever-accessing P none k h = tt
Whenever-accessing P (some a) k h = h a refl

pub Whenever-bind {ℓ} :
    {S : Type ℓ} (P Q : ℕ → S → Type 0) (m : Outcome S) (k : S → Outcome S)
    → Whenever P m
    → ((st : ℕ) (s : S) → st ≢ status_ok → P st s → Q st s)
    → ((s : S) → P status_ok s → Whenever Q (k s))
    → Whenever Q (m >>= k)
Whenever-bind P Q (returned st s) k p stop go = elim (Bool-cases (st == status_ok)) [
  | inl e ↦ rw e (go s (subst (λ n. P n s) ((==_iff st status_ok).0 e) p))
  | inr e ↦ rw e (stop st s (ne_of_== st status_ok e) p)
]
Whenever-bind P Q fault k p stop go = tt

-- A call that does not fault, and what holds of it if it does not.
pub Whenever-Ends {ℓ} :
    {S : Type ℓ} (P Q : ℕ → S → Type 0) (r : Outcome S) → Ends P r → Whenever Q r → Ends Q r
Whenever-Ends P Q (returned st s) p q = q
Whenever-Ends P Q fault p q = p

pub Ends-and {ℓ} :
    {S : Type ℓ} (P Q : ℕ → S → Type 0) (r : Outcome S)
    → Ends P r
    → Whenever Q r
    → Ends (λ st s. P st s × Q st s) r
Ends-and P Q (returned st s) p q = (p, q)
Ends-and P Q fault p q = p

pub Whenever-map {ℓ} :
    {S : Type ℓ} (P Q : ℕ → S → Type 0) (r : Outcome S)
    → ((st : ℕ) (s : S) → P st s → Q st s)
    → Whenever P r
    → Whenever Q r
Whenever-map P Q (returned st s) f p = f st s p
Whenever-map P Q fault f p = p

pub Ends-bind {ℓ} :
    {S : Type ℓ} (P Q : ℕ → S → Type 0) (m : Outcome S) (k : S → Outcome S)
    → Ends P m
    → ((st : ℕ) (s : S) → st ≢ status_ok → P st s → Q st s)
    → ((s : S) → P status_ok s → Ends Q (k s))
    → Ends Q (m >>= k)
Ends-bind P Q (returned st s) k p stop go = elim (Bool-cases (st == status_ok)) [
  | inl e ↦ rw e (go s (subst (λ n. P n s) ((==_iff st status_ok).0 e) p))
  | inr e ↦ rw e (stop st s (ne_of_== st status_ok e) p)
]
Ends-bind P Q fault k p stop go = p
