-- ===== src/Proto/Cursor/Emits.antt =====
-- The writing helpers of proto/proto.c, by what they leave in the buffer.
use aemlib.Base.{
  ℕ, ◌+◌, ◌/◌, ◌%◌, ◌^◌, ◌≤◌, ◌<◌, ◌≡◌, refl, ◌∙◌, ◌⊎◌, inl, inr, List, [], ◌∷◌, ◌++◌, length, drop,
  append_assoc, length-append, length-drop, drop-add, arith, Bool-cases, ◌==◌,
}
use aemlib.Base.Words.{size_mod}
use aemlib.Status.{status_ok}
use aemlib.Status.Outcome.{Outcome, returned, fault, ◌>>=◌}
use aemlib.Proto.Cursor.{Cursor, too_small, ensure_space}
use native.Mathlib.Decide.{dec_le}

-- The cursor behind `front`, before `rest`.
abbrev pub cursor : List ℕ → List ℕ → ℕ → Cursor
cursor front rest out_len = record {
  bytes = front ++ rest;
  offset = length front;
  out_len = out_len;
}

-- The two bytes of a uint16_t, and a string behind its length, as they stand in a packet.
abbrev pub be16 : ℕ → List ℕ
be16 v = v / 2 ^ 8 % 2 ^ 8 ∷ v % 2 ^ 8 ∷ []

abbrev pub utf8 : List ℕ → List ℕ
utf8 str = be16 (length str) ++ str

-- A call refused for want of space: the memory keeps its size, and `*out_len` is not written.
pub record Refused (size out_len : ℕ) (r : Outcome Cursor) : Type 0 where
  pub left : Cursor
  pub refused : r ≡ returned too_small left
  pub same_size : length left.bytes ≡ size
  pub same_out_len : left.out_len ≡ out_len

-- A call at `cursor front rest` that wrote `xs`, if the buffer has room for it.
abbrev pub Emitted : ℕ → List ℕ → List ℕ → List ℕ → ℕ → Outcome Cursor → Type 0
Emitted buf_len xs front rest o r =
    ((length front + length xs ≤ buf_len)
      × (r ≡ returned status_ok (cursor (front ++ xs) (drop (length xs) rest) o)))
    ⊎ ((buf_len < length front + length xs) × Refused (length front + length rest) o r)

-- No sum of sizes wraps.
abbrev pub Fits : ℕ → List ℕ → List ℕ → List ℕ → Type 0
Fits buf_len xs front rest =
    (buf_len ≤ length front + length rest) × (length front + length rest + length xs < size_mod)

abbrev pub Emits : ℕ → (Cursor → Outcome Cursor) → List ℕ → Type 0
Emits buf_len f xs =
    (front rest : List ℕ) (o : ℕ)
    → Fits buf_len xs front rest
    → Emitted buf_len xs front rest o (f (cursor front rest o))

pub >>=_assoc {ℓ} :
    {S : Type ℓ} (m : Outcome S) (f g : S → Outcome S) → ((m >>= f) >>= g) ≡ (m >>= λ s. f s >>= g)
>>=_assoc (returned st s) f g = elim (Bool-cases (st == status_ok)) [
  | inl e ↦ rw e
  | inr e ↦ rw (e, e)
]
>>=_assoc fault f g = refl

-- One write after another.
pub Emits-bind :
    (buf_len : ℕ) (f g : Cursor → Outcome Cursor) (xs ys : List ℕ)
    → Emits buf_len f xs
    → Emits buf_len g ys
    → Emits buf_len (λ c. f c >>= g) (xs ++ ys)
Emits-bind buf_len f g xs ys ef eg front rest o (room, small) =
    go (ef front rest o (room, omega (arith, length-append xs ys)))
  where
    wide : length (xs ++ ys) ≡ length xs + length ys
    wide = length-append xs ys

    next :
        length front + length xs ≤ buf_len
        → Emitted buf_len ys
            (front ++ xs)
            (drop (length xs) rest)
            o
            (g (cursor (front ++ xs) (drop (length xs) rest) o))
    next h =
        eg (front ++ xs) (drop (length xs) rest) o
          (omega (arith, length-append front xs, length-drop (length xs) rest, wide))

    second :
        length front + length xs ≤ buf_len
        → f (cursor front rest o)
          ≡ returned status_ok (cursor (front ++ xs) (drop (length xs) rest) o)
        → Emitted buf_len ys
            (front ++ xs)
            (drop (length xs) rest)
            o
            (g (cursor (front ++ xs) (drop (length xs) rest) o))
        → Emitted buf_len (xs ++ ys) front rest o (f (cursor front rest o) >>= g)
    second h e (inl (fits, e')) = inl (
      omega (arith, wide, length-append front xs),
      rw (e, e') (rw (append_assoc front xs ys, wide, drop-add (length xs) (length ys) rest)),
    )
    second h e (inr (full, r)) = inr (
      omega (arith, wide, length-append front xs),
      record {
        left = r.left;
        refused = rw e r.refused;
        same_size =
            omega (arith, r.same_size, length-append front xs, length-drop (length xs) rest);
        same_out_len = r.same_out_len;
      },
    )

    go :
        Emitted buf_len xs front rest o (f (cursor front rest o))
        → Emitted buf_len (xs ++ ys) front rest o (f (cursor front rest o) >>= g)
    go (inl (fits, e)) = second fits e (next fits)
    go (inr (full, r)) = inr (
      omega (arith, wide),
      record {
        left = r.left;
        refused = rw r.refused;
        same_size = r.same_size;
        same_out_len = r.same_out_len;
      },
    )

-- The check that each helper begins with.
pub ensure_space_room :
    (needed offset buf_len : ℕ)
    → offset + needed < size_mod
    → offset + needed ≤ buf_len
    → ensure_space needed offset buf_len ≡ status_ok
unfolding ensure_space
ensure_space_room needed offset buf_len small h = ground arith

pub ensure_space_full :
    (needed offset buf_len : ℕ)
    → offset + needed < size_mod
    → buf_len < offset + needed
    → ensure_space needed offset buf_len ≡ too_small
unfolding ensure_space
ensure_space_full needed offset buf_len small h = ground arith

-- A helper that checks for `length xs` bytes and then writes `xs` emits `xs`.
pub checked-Emits :
    (buf_len needed : ℕ) (f body : Cursor → Outcome Cursor) (xs : List ℕ)
    → needed ≡ length xs
    → ((c : Cursor) → f c ≡ (returned (ensure_space needed c.offset buf_len) c >>= body))
    → ((front rest : List ℕ) (o : ℕ)
        → length front + length rest < size_mod
        → length xs ≤ length rest
        → body (cursor front rest o)
          ≡ returned status_ok (cursor (front ++ xs) (drop (length xs) rest) o))
    → Emits buf_len f xs
checked-Emits buf_len needed f body xs same step writes front rest o (room, small) =
    elim (dec_le (length front + length xs) buf_len) [
      | yes h ↦ inl (
        h,
        step (cursor front rest o)
            ∙ rw (ensure_space_room needed (length front) buf_len (omega arith) (omega arith))
                (writes front rest o (omega arith) (omega arith)),
      )
      | no h ↦ inr (
        omega arith,
        record {
          left = cursor front rest o;
          refused =
              step (cursor front rest o)
              ∙ rw (ensure_space_full needed (length front) buf_len (omega arith) (omega arith));
          same_size = length-append front rest;
          same_out_len = refl;
        },
      )
    ]
