-- ===== src/Base/Text.antt =====
-- C strings: bytes in memory up to the first NUL, and the literals of the source as their bytes.
use Prim.Native.Nat.{ℕ, zero, suc, ◌+◌, ◌-◌, ◌≤◌, ◌<◌}
use Prim.Native.Char.{code}
use Prim.Native.String.{String}
use mathlib.Core.Path.{◌≡◌, refl, ap, ◌∙◌}
use mathlib.Core.List.{List, [], ◌∷◌, ◌++◌, append_assoc}
use mathlib.Core.Option.{Option, none, some}
use native.Mathlib.Omega.{arith}
use aemlib.Base.Tests.{le→leb, ◌==◌, if◌then◌else◌, Bool-cases}
use mathlib.Core.Logic.{inl, inr}
use aemlib.Base.Lists.{length, take, drop, length-take, length-append, length-drop}
use aemlib.Base.Memory.{memcpy, store, memcpy-append}

-- The bytes of a literal, which is ASCII.
abbrev pub codes : String → List ℕ
codes String.[] = []
codes (String.◌∷◌ c s) = code c ∷ codes s

-- What a reader of a string sees of its bytes.
abbrev pub until_nul : List ℕ → List ℕ
until_nul [] = []
until_nul (b ∷ bs) = if b == 0 then [] else b ∷ until_nul bs

-- The string at the start of memory; a reader that meets no NUL leaves the memory.
abbrev pub c_string : List ℕ → Option (List ℕ)
c_string [] = none
c_string (b ∷ bs) =
    let rest = c_string bs in
    if b == 0 then some [] else elim rest [ none ↦ none | some s ↦ some (b ∷ s) ]

pub c_string-nul : (text rest : List ℕ) → c_string (text ++ 0 ∷ rest) ≡ some (until_nul text)
c_string-nul [] rest = refl
c_string-nul (b ∷ bs) rest = elim (Bool-cases (b == 0)) [
  | inl e ↦ rw e refl
  | inr e ↦ rw (e, c_string-nul bs rest) refl
]

pub until_nul-take :
    (n : ℕ) (text rest : List ℕ)
    → length text ≤ n
    → until_nul (take n (text ++ 0 ∷ rest)) ≡ until_nul text
until_nul-take zero [] rest h = refl
until_nul-take (suc n) [] rest h = refl
until_nul-take zero (b ∷ bs) rest h = absurd (omega arith)
until_nul-take (suc n) (b ∷ bs) rest h = rw (until_nul-take n bs rest (omega arith)) refl

-- A text and its NUL, with a NUL put into the last place, is still the text.
pub c_string-sealed :
    (text rest : List ℕ) (n : ℕ)
    → length text ≤ n
    → n < length (text ++ 0 ∷ rest)
    → (out : List ℕ) × (store (text ++ 0 ∷ rest) n 0 ≡ some out)
      × (c_string out ≡ some (until_nul text))
unfolding memcpy
c_string-sealed text rest n short inside =
    let mem : List ℕ = text ++ 0 ∷ rest in
    let out : List ℕ = take n mem ++ 0 ∷ drop (n + 1) mem in
    (
      out,
      rw (le→leb (n + 1) (length mem) (omega arith)) refl,
      c_string-nul (take n mem) (drop (n + 1) mem) ∙ ap some (until_nul-take n text rest short),
    )

-- `vsnprintf(buf, size, fmt, args)` where `fmt` and `args` come to the text: its first `size - 1` bytes are
-- stored, and a NUL.
abbrev pub vsnprintf : List ℕ → ℕ → List ℕ → Option (List ℕ)
vsnprintf buf size text = memcpy buf 0 (take (size - 1) text ++ 0 ∷ [])

-- A text printed into a buffer of `n + 1` bytes whose last is then set to NUL.
pub vsnprintf-sealed :
    (buf : List ℕ) (size n : ℕ) (text : List ℕ)
    → length buf ≡ size
    → n + 1 ≡ size
    → (mem : List ℕ) × (out : List ℕ) × (vsnprintf buf size text ≡ some mem)
      × (store mem n 0 ≡ some out)
      × (c_string out ≡ some (until_nul (take n text)))
vsnprintf-sealed buf size n text whole last =
    let e : size - 1 ≡ n = omega arith in
    let cut : List ℕ = take n text in
    let rest : List ℕ = drop (length (cut ++ 0 ∷ [])) buf in
    let short : length cut ≤ n = omega (arith, length-take n text) in
    let printed =
      memcpy-append [] buf (cut ++ 0 ∷ []) 0 refl (omega (arith, length-append cut (0 ∷ []))) in
    let (out, stored, reads) = c_string-sealed cut rest n short (
      omega (
        arith,
        length-append cut (0 ∷ rest),
        length-append cut (0 ∷ []),
        length-drop (length (cut ++ 0 ∷ [])) buf,
      )) in
    (cut ++ 0 ∷ rest, out, rw e printed ∙ ap some (append_assoc cut (0 ∷ []) rest), stored, reads)
