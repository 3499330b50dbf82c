-- ===== src/Base/Memory.antt =====
-- The memory behind a `uint8_t *`, as the list of its bytes. An access out of bounds is `none`.
pub mod Front
use Prim.Native.Nat.{ℕ, ◌+◌, ◌≤◌}
use mathlib.Core.Path.{◌≡◌, ap, ◌∙◌, sym, subst}
use mathlib.Core.Logic.{◌≢◌}
use mathlib.Core.List.{List, [], ◌∷◌, ◌++◌}
use mathlib.Core.Option.{Option, none, some}
use native.Mathlib.Omega.{arith}
use aemlib.Base.Tests.{leb, if◌then◌else◌, le→leb, leb→le, if_some}
use aemlib.Base.Words.{IsByte}
use aemlib.Base.Lists.{
  length, take, drop, All, All-append, All-take, All-drop, length-append, length-take, length-drop,
  take-append, drop-append, drop-add,
}

-- memcpy(&dst[off], src, length src)
unfoldable pub memcpy : List ℕ → ℕ → List ℕ → Option (List ℕ)
memcpy dst off src =
    if leb (off + length src) (length dst)
    then some (take off dst ++ (src ++ drop (off + length src) dst))
    else none

-- dst[i] = v
abbrev pub store : List ℕ → ℕ → ℕ → Option (List ℕ)
store dst i v = memcpy dst i (v ∷ [])

-- The n bytes at &src[off].
unfoldable pub slice : List ℕ → ℕ → ℕ → Option (List ℕ)
slice src off n = if leb (off + n) (length src) then some (take n (drop off src)) else none

-- memmove(&buf[to], &buf[from], n), inside one buffer.
unfoldable pub memmove : List ℕ → ℕ → ℕ → ℕ → Option (List ℕ)
memmove buf to from n = elim (slice buf from n) [ none ↦ none | some src ↦ memcpy buf to src ]

-- A copy behind `front` overwrites the first bytes of what follows it.
pub memcpy-append :
    (front rest src : List ℕ) (off : ℕ)
    → off ≡ length front
    → length src ≤ length rest
    → memcpy (front ++ rest) off src ≡ some (front ++ (src ++ drop (length src) rest))
unfolding memcpy
memcpy-append front rest src off e h = rw (
  le→leb (off + length src) (length (front ++ rest)) (omega (arith, length-append front rest)),
  take-append front rest off e,
  drop-add off (length src) (front ++ rest),
  drop-append front rest off e,
)

-- The bytes between `front` and `back`.
pub slice-append :
    (front mid back : List ℕ) (off n : ℕ)
    → off ≡ length front
    → n ≡ length mid
    → slice (front ++ (mid ++ back)) off n ≡ some mid
unfolding slice
slice-append front mid back off n e k = rw (
  le→leb (off + n) (length (front ++ (mid ++ back)))
      (omega (arith, length-append front (mid ++ back), length-append mid back)),
  drop-append front (mid ++ back) off e,
  take-append mid back n k,
)

-- A copy in bounds keeps the size of the memory.
pub memcpy_total :
    (dst : List ℕ) (off : ℕ) (src : List ℕ)
    → off + length src ≤ length dst
    → (out : List ℕ) × (memcpy dst off src ≡ some out) × (length out ≡ length dst)
unfolding memcpy
memcpy_total dst off src h = (
  take off dst ++ (src ++ drop (off + length src) dst),
  rw (le→leb (off + length src) (length dst) h),
  omega (
    arith,
    length-append (take off dst) (src ++ drop (off + length src) dst),
    length-append src (drop (off + length src) dst),
    length-take off dst,
    length-drop (off + length src) dst,
  ),
)

pub memmove-slice :
    (buf : List ℕ) (to from n : ℕ) (src : List ℕ)
    → slice buf from n ≡ some src
    → memmove buf to from n ≡ memcpy buf to src
unfolding memmove
memmove-slice buf to from n src e = ap {B = Option (List ℕ)} move e
  where
    move : Option (List ℕ) → Option (List ℕ)
    move o = elim o [ none ↦ none | some mid ↦ memcpy buf to mid ]

-- A slice in bounds.
pub slice_total :
    (src : List ℕ) (off n : ℕ)
    → off + n ≤ length src
    → slice src off n ≡ some (take n (drop off src))
unfolding slice
slice_total src off n h = rw (le→leb (off + n) (length src) h)

-- A move in bounds keeps the size of the memory.
pub memmove_total :
    (buf : List ℕ) (to from n : ℕ)
    → to + n ≤ length buf
    → from + n ≤ length buf
    → (out : List ℕ) × (memmove buf to from n ≡ some out) × (length out ≡ length buf)
memmove_total buf to from n ht hf =
    let mid : List ℕ = take n (drop from buf) in
    let size : length mid ≡ n =
      omega (arith, length-take n (drop from buf), length-drop from buf) in
    let (out, e, same) = memcpy_total buf to mid (omega arith) in
    (out, memmove-slice buf to from n mid (slice_total buf from n hf) ∙ e, same)

pub slice-ne-none : (src : List ℕ) (off n : ℕ) → off + n ≤ length src → slice src off n ≢ none
slice-ne-none src off n h e = cc (slice_total src off n h)

-- What is read or written byte by byte is bytes.
pub slice-IsByte :
    (src : List ℕ) (off n : ℕ) (out : List ℕ)
    → All IsByte src
    → slice src off n ≡ some out
    → All IsByte out
unfolding slice
slice-IsByte src off n out b e =
    subst (All IsByte) (if_some (leb (off + n) (length src)) _ out e).1
      (All-take IsByte n _ (All-drop IsByte off src b))

pub memcpy-IsByte :
    (dst : List ℕ) (off : ℕ) (src out : List ℕ)
    → All IsByte dst
    → All IsByte src
    → memcpy dst off src ≡ some out
    → All IsByte out
unfolding memcpy
memcpy-IsByte dst off src out bd bs e =
    subst (All IsByte) (if_some (leb (off + length src) (length dst)) _ out e).1 (
      All-append IsByte (take off dst) _ (All-take IsByte off dst bd)
        (All-append IsByte src _ bs (All-drop IsByte (off + length src) dst bd)))

pub slice-size :
    (src : List ℕ) (off n : ℕ) (out : List ℕ) → slice src off n ≡ some out → length out ≡ n
unfolding slice
slice-size src off n out e =
    let (inside, cut) = if_some (leb (off + n) (length src)) (take n (drop off src)) out e in
    rw (← cut) (
      omega (
        arith,
        length-take n (drop off src),
        length-drop off src,
        leb→le (off + n) (length src) inside,
      ))

-- A move in bounds: what it leaves is of the same size, and bytes.
pub memmove_safe :
    (buf : List ℕ) (to from n : ℕ)
    → to + n ≤ length buf
    → from + n ≤ length buf
    → All IsByte buf
    → (out : List ℕ) × (memmove buf to from n ≡ some out)
      × (length out ≡ length buf)
      × All IsByte out
memmove_safe buf to from n ht hf b =
    let (out, e, same) = memmove_total buf to from n ht hf in
    let cut = slice_total buf from n hf in
    (
      out,
      e,
      same,
      memcpy-IsByte buf to (take n (drop from buf)) out b
          (All-take IsByte n _ (All-drop IsByte from buf b))
          (sym (memmove-slice buf to from n _ cut) ∙ e),
    )
