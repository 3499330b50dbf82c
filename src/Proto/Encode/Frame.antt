-- ===== src/Proto/Encode/Frame.antt =====
-- The common course of the encoders of CONNECT, PUBLISH and SUBSCRIBE: a first byte, a gap for the
-- remaining length, the pieces of the body, and the end.
use aemlib.Base.{
  ℕ, ◌+◌, ◌^◌, ◌≤◌, ◌<◌, ◌≡◌, subst, ◌∙◌, ◌⊎◌, inl, inr, List, [], ◌∷◌, length, take, drop,
  length-drop, length-take_le, arith,
}
use aemlib.Base.Words.{size_mod}
use aemlib.Status.{status_ok}
use aemlib.Status.Outcome.{Outcome, returned, ◌>>=◌}
use aemlib.Proto.Cursor.{Cursor, append_byte, reserve_space}
use aemlib.Proto.Cursor.Emits.{cursor, Refused, Emitted, Emits}
use aemlib.Proto.Cursor.Helpers.{append_byte-Emits, reserve_space_lem}
use aemlib.Proto.Encode.{finish_packet}
use native.Mathlib.Nat.{zero-add}
use aemlib.Proto.Encode.Finish.{packet, Encoded, finish_packet_lem}

-- The outcome of an encoder: the packet, exactly when its body and the gap of four bytes fit the buffer
-- and the remaining length fits its four bytes; otherwise a refusal.
abbrev pub Packed : ℕ → ℕ → List ℕ → ℕ → ℕ → Outcome Cursor → Type 0
Packed buf_len first body size o r =
    ((5 + length body ≤ buf_len) × (length body < 128 ^ 4) × Encoded (packet first body) size r)
    ⊎ (((buf_len < 5 + length body) ⊎ (128 ^ 4 ≤ length body)) × Refused size o r)

abbrev pub framed : ℕ → ℕ → (Cursor → Outcome Cursor) → Cursor → Outcome Cursor
framed buf_len first pieces c = append_byte buf_len first c >>= λ c.
    reserve_space 4 buf_len c >>= λ c'. pieces c' >>= finish_packet c.offset

module _ (buf_len first : ℕ) (pieces : Cursor → Outcome Cursor) (body buf : List ℕ) (o : ℕ)
    (emits : Emits buf_len pieces body) (room : buf_len ≤ length buf) (small : length body < 2 ^ 32)
    (total : length buf + length body + 5 < size_mod) where
  abbrev gap : List ℕ
  gap = take 4 (drop 1 buf)

  abbrev rest : List ℕ
  rest = drop 4 (drop 1 buf)

  abbrev Done : Outcome Cursor → Type 0
  Done = Packed buf_len first body (length buf) o

  gap_size : 5 ≤ buf_len → length gap ≡ 4
  gap_size h = length-take_le 4 (drop 1 buf) (omega (arith, length-drop 1 buf))

  whole :
      5 + length body ≤ buf_len → 5 + length body + length (drop (length body) rest) ≡ length buf
  whole h =
      omega (arith, length-drop (length body) rest, length-drop 4 (drop 1 buf), length-drop 1 buf)

  ended :
      (size : ℕ) (r : Outcome Cursor)
      → size ≡ length buf
      → 5 + length body ≤ buf_len
      → ((length body < 128 ^ 4) × Encoded (packet first body) size r)
        ⊎ ((128 ^ 4 ≤ length body) × Refused size o r)
      → Done r
  ended size r e h (inl (short, x)) =
      inl (h, short, subst (λ n. Encoded (packet first body) n r) e x)
  ended size r e h (inr (long, x)) = inr (inr long, subst (λ n. Refused n o r) e x)

  -- After the pieces.
  finished :
      (r : Outcome Cursor)
      → 5 ≤ buf_len
      → Emitted buf_len body (first ∷ gap) rest o r
      → Done (r >>= finish_packet 1)
  finished r h (inl (fits, e)) = rw e (
      ended _ _ (whole (omega (arith, gap_size h))) (omega (arith, gap_size h)) (
        finish_packet_lem first gap body (drop (length body) rest) o (gap_size h) small
          (omega (arith, whole (omega (arith, gap_size h))))))
  finished r h (inr (full, x)) = inr (
    inl (omega (arith, gap_size h)),
    record {
      left = x.left;
      refused = rw x.refused;
      same_size =
          omega (arith, x.same_size, gap_size h, length-drop 4 (drop 1 buf), length-drop 1 buf);
      same_out_len = x.same_out_len;
    },
  )

  -- After the gap.
  reserved :
      (r : Outcome Cursor)
      → 1 ≤ buf_len
      → ((1 + 4 ≤ buf_len) × (r ≡ returned status_ok (cursor (first ∷ gap) rest o)))
        ⊎ ((buf_len < 1 + 4) × Refused (1 + length (drop 1 buf)) o r)
      → Done (r >>= λ c'. pieces c' >>= finish_packet 1)
  reserved r h (inl (fits, e)) = rw e (
      finished (pieces (cursor (first ∷ gap) rest o)) fits (
        emits (first ∷ gap) rest o
          (omega (arith, gap_size fits, length-drop 4 (drop 1 buf), length-drop 1 buf))))
  reserved r h (inr (full, x)) = inr (
    inl (omega arith),
    record {
      left = x.left;
      refused = rw x.refused;
      same_size = omega (arith, x.same_size, length-drop 1 buf);
      same_out_len = x.same_out_len;
    },
  )

  started :
      (r : Outcome Cursor)
      → Emitted buf_len (first ∷ []) [] buf o r
      → Done (r >>= λ c. reserve_space 4 buf_len c >>= λ c'. pieces c' >>= finish_packet c.offset)
  started r (inl (fits, e)) = rw e (
      reserved (reserve_space 4 buf_len (cursor (first ∷ []) (drop 1 buf) o)) fits (
        reserve_space_lem buf_len 4 (first ∷ []) (drop 1 buf) o (omega (arith, length-drop 1 buf))
          (omega (arith, length-drop 1 buf))))
  started r (inr (full, x)) = inr (
    inl (omega arith),
    record {
      left = x.left;
      refused = rw x.refused;
      same_size = x.same_size ∙ zero-add (length buf);
      same_out_len = x.same_out_len;
    },
  )

  pub framed_lem :
      Packed buf_len first body (length buf) o (framed buf_len first pieces (cursor [] buf o))
  framed_lem =
      started (append_byte buf_len first (cursor [] buf o))
        (append_byte-Emits buf_len first [] buf o (omega arith))
