-- ===== src/Platform/Virtual/Window.antt =====
-- The bytes that stand in a ring buffer from a position on, and what a store changes of them.
use aemlib.Base.{
  ℕ, zero, suc, ◌+◌, ◌/◌, ◌%◌, ◌≤◌, ◌<◌, ◌≡◌, ◌≢◌, refl, ap, sym, ◌∙◌, List, [], ◌∷◌, ◌++◌, length,
  take, drop, get_elem?, some, arith, inl, inr, length-append, length-take, length-drop, Bool-cases,
  leb, leb→le, lt_of_leb, le→leb, subst,
}
use aemlib.Base.Memory.{store, memcpy}
use native.Mathlib.Nat.{add-zero, div-add-mod, mul-le-mul_left, mul-suc, suc-mod}

-- The bytes at the positions p, p + 1, ... of the ring.
abbrev pub Window : ℕ → List ℕ → ℕ → List ℕ → Type 0
Window size buf p [] = Unit
Window size buf p (x ∷ xs) = (get_elem? buf (p % size) ≡ some x) × Window size buf (suc p) xs

-- Positions less than a turn apart are other places of the ring.
pub mod-ne : (p q size : ℕ) → p < q → q < p + size → p % size ≢ q % size
mod-ne p q size less near same = elim (Bool-cases (leb (q / size) (p / size))) [
  | inl h ↦ absurd (
      omega (
        arith,
        div-add-mod p size,
        div-add-mod q size,
        mul-le-mul_left size (leb→le (q / size) (p / size) h),
      ))
  | inr h ↦ absurd (
      omega (
        arith,
        div-add-mod p size,
        div-add-mod q size,
        mul-suc size (p / size),
        mul-le-mul_left {m = suc (p / size)} {n = q / size} size
            (lt_of_leb (q / size) (p / size) h),
      ))
]

pub Window-mod :
    (size : ℕ) (buf : List ℕ) (p q : ℕ) (xs : List ℕ)
    → p % size ≡ q % size
    → Window size buf p xs
    → Window size buf q xs
Window-mod size buf p q [] e w = tt
Window-mod size buf p q (x ∷ xs) e (here, later) = (
  ap (get_elem? buf) (sym e) ∙ here,
  Window-mod size buf (suc p) (suc q) xs
      (suc-mod p size ∙ ap (λ n. suc n % size) e ∙ sym (suc-mod q size)) later,
)

get_store :
    (v i : ℕ) (buf : List ℕ)
    → i < length buf
    → get_elem? (take i buf ++ v ∷ drop (suc i) buf) i ≡ some v
get_store v i [] h = absurd (omega arith)
get_store v zero (x ∷ buf) h = refl
get_store v (suc i) (x ∷ buf) h = get_store v i buf (omega arith)

get_other :
    (v i j : ℕ) (buf : List ℕ)
    → i < length buf
    → j ≢ i
    → get_elem? (take i buf ++ v ∷ drop (suc i) buf) j ≡ get_elem? buf j
get_other v i j [] h ne = absurd (omega arith)
get_other v zero zero (x ∷ buf) h ne = absurd (ne refl)
get_other v zero (suc j) (x ∷ buf) h ne = refl
get_other v (suc i) zero (x ∷ buf) h ne = refl
get_other v (suc i) (suc j) (x ∷ buf) h ne = get_other v i j buf (omega arith) (λ e. ne (ap suc e))

-- A store in bounds: the byte is there, every other place is as before, and the size is the same.
pub store-get :
    (buf : List ℕ) (i v : ℕ)
    → i < length buf
    → (out : List ℕ) × (store buf i v ≡ some out)
      × (length out ≡ length buf)
      × (get_elem? out i ≡ some v)
      × ((j : ℕ) → j ≢ i → get_elem? out j ≡ get_elem? buf j)
unfolding memcpy
store-get buf i v h =
    let e : i + 1 ≡ suc i = omega arith in
    (
      take i buf ++ v ∷ drop (i + 1) buf,
      rw (le→leb (i + 1) (length buf) (omega arith)),
      omega (
        arith,
        length-append (take i buf) (v ∷ drop (i + 1) buf),
        length-take i buf,
        length-drop (i + 1) buf,
      ),
      rw e (get_store v i buf h),
      λ j ne. rw e (get_other v i j buf h ne),
    )

-- A window is unmoved by a change outside it.
pub Window-other :
    (size : ℕ) (buf out : List ℕ) (p q : ℕ) (xs : List ℕ)
    → p + length xs ≤ q
    → q < p + size
    → ((j : ℕ) → j ≢ q % size → get_elem? out j ≡ get_elem? buf j)
    → Window size buf p xs
    → Window size out p xs
Window-other size buf out p q [] before near same w = tt
Window-other size buf out p q (x ∷ xs) before near same (here, later) = (
  same (p % size) (mod-ne p q size (omega arith) near) ∙ here,
  Window-other size buf out (suc p) q xs (omega arith) (omega arith) same later,
)

-- One more byte at the end of a window.
pub Window-snoc :
    (size : ℕ) (buf : List ℕ) (p x : ℕ) (xs : List ℕ)
    → Window size buf p xs
    → get_elem? buf ((p + length xs) % size) ≡ some x
    → Window size buf p (xs ++ x ∷ [])
Window-snoc size buf p x [] w e = (rw (← add-zero p) e, tt)
Window-snoc size buf p x (y ∷ xs) (here, later) e = (
  here,
  Window-snoc size buf (suc p) x xs later (ap (λ n. get_elem? buf (n % size)) (omega arith) ∙ e),
)

pub Window-drop :
    (size : ℕ) (buf : List ℕ) (p n : ℕ) (xs : List ℕ)
    → n ≤ length xs
    → Window size buf p xs
    → Window size buf (p + n) (drop n xs)
Window-drop size buf p zero xs h w = rw (add-zero p) w
Window-drop size buf p (suc n) [] h w = absurd (omega arith)
Window-drop size buf p (suc n) (x ∷ xs) h (here, later) =
    let e : suc p + n ≡ p + suc n = omega arith in
    subst (λ k. Window size buf k (drop n xs)) e
      (Window-drop size buf (suc p) n xs (omega arith) later)
