-- ===== src/Base/Memory/Front.antt =====
-- Moving the middle of a buffer down to its front, as client_send, client_flush_pending and the reading
-- of packets do.
use aemlib.Base.Lists.{
  length, take, drop, length-take, length-drop, take-append, drop-append, take-add, take_front,
  length-take_le,
}
use aemlib.Base.Tests.{le→leb}
use aemlib.Base.Memory.{memcpy, memmove, memmove-slice, memcpy-append, slice_total}
use Prim.Native.Nat.{ℕ, ◌+◌, ◌≤◌}
use mathlib.Core.Path.{◌≡◌, refl, sym, ap, ap₂, ◌∙◌}
use mathlib.Core.Option.{some}
use mathlib.Core.List.{List, [], ◌++◌}
use native.Mathlib.Omega.{arith}

pub memmove_front :
    (buf : List ℕ) (from n : ℕ)
    → from + n ≤ length buf
    → (out : List ℕ) × (memmove buf 0 from n ≡ some out) × (take n out ≡ take n (drop from buf))
memmove_front buf from n h =
    let mid : List ℕ = take n (drop from buf) in
    let size : length mid ≡ n =
      omega (arith, length-take n (drop from buf), length-drop from buf) in
    (
      mid ++ drop (length mid) buf,
      memmove-slice buf 0 from n mid (slice_total buf from n h)
          ∙ memcpy-append [] buf mid 0 refl (omega arith),
      take-append mid (drop (length mid) buf) n (omega arith),
    )

-- A copy behind the first `off` bytes, of which the first `n` are counted.
pub memcpy_behind :
    (dst : List ℕ) (off : ℕ) (src : List ℕ) (n : ℕ)
    → off + length src ≤ length dst
    → n ≤ length src
    → (out : List ℕ) × (memcpy dst off src ≡ some out)
      × (take (off + n) out ≡ take off dst ++ take n src)
unfolding memcpy
memcpy_behind dst off src n h fits =
    let front : List ℕ = take off dst in
    let tail : List ℕ = drop (off + length src) dst in
    let size : length front ≡ off = length-take_le off dst (omega arith) in
    (
      front ++ (src ++ tail),
      rw (le→leb (off + length src) (length dst) h),
      take-add off n (front ++ (src ++ tail))
          ∙ ap₂ (λ a b. a ++ take n b) (take-append front (src ++ tail) off (sym size))
              (drop-append front (src ++ tail) off (sym size))
          ∙ ap (λ l. front ++ l) (take_front n src tail fits),
    )
