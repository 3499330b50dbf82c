-- ===== src/Proto/RemainingLength/Decode.antt =====
-- aemlib_proto_decode_remaining_length: on what the encoder writes, and on any input.
use aemlib.Base.{
  ℕ, zero, suc, ◌+◌, ◌*◌, ◌/◌, ◌%◌, ◌^◌, ◌≤◌, ◌<◌, ◌≡◌, ◌≢◌, refl, ap, ap₂, ◌∙◌, sym, ◌⊎◌, inl, inr,
  List, [], ◌∷◌, ◌++◌, length, ltb, ltb-false, ltb→lt, le_of_ltb, arith, Bool-cases, ==_false,
  ==_iff,
}
use aemlib.Base.Words.{u32_mod}
use aemlib.Status.Decoded.{ok, err, overrun}
use aemlib.Proto.Packet.{max_multiplier}
use aemlib.Proto.Cursor.{too_small}
use aemlib.Proto.RemainingLength.{Length, decode_loop, decode_remaining_length}
use aemlib.Proto.RemainingLength.Encode.{digits, pow_pos, digits-last, digits-inner}
use native.Mathlib.Nat.{pow-suc, div-add-mod}

-- A last byte, and a byte after which the number goes on.
decode_last :
    (v m acc i : ℕ) (rest : List ℕ)
    → v < 128
    → m ≤ max_multiplier
    → acc + v * m < u32_mod
    → decode_loop (v ∷ rest) m acc i ≡ ok (record { value = acc + v * m; consumed = i + 1 })
unfolding decode_loop
decode_last v m acc i rest h hm fits =
    rw (ltb-false max_multiplier m hm, (==_iff (v / 128 % 2) 0).1 (omega arith), small)
      (ap (λ n. ok (record { value = n; consumed = i + 1 })) (omega arith))
  where
    small : v % 128 ≡ v
    small = omega arith

decode_inner :
    (g m acc i : ℕ) (rest : List ℕ)
    → g < 128
    → m * 128 ≤ max_multiplier
    → acc + g * m < u32_mod
    → decode_loop ((g + 128) ∷ rest) m acc i ≡ decode_loop rest (m * 128) (acc + g * m) (i + 1)
unfolding decode_loop
decode_inner g m acc i rest h hm fits =
    rw
      (
        ltb-false max_multiplier m (omega arith),
        ==_false ((g + 128) / 128 % 2) 0 (omega arith),
        low,
      )
      (ap₂ (λ k n. decode_loop rest k n (i + 1)) next sum)
  where
    low : (g + 128) % 128 ≡ g
    low = omega arith

    next : m * 128 % u32_mod ≡ m * 128
    next = omega arith

    sum : (acc + g * m) % u32_mod ≡ acc + g * m
    sum = omega arith

decode_loop-digits :
    (k v m acc i : ℕ) (rest : List ℕ)
    → v < 128 ^ suc k
    → m * 128 ^ k ≤ max_multiplier
    → acc + v * m < u32_mod
    → decode_loop (digits k v ++ rest) m acc i
      ≡ ok (record { value = acc + v * m; consumed = i + length (digits k v) })
decode_loop-digits zero v m acc i rest h hm fits =
    rw (digits-last zero v (omega arith))
      (decode_last v m acc i rest (omega arith) (omega arith) fits)
decode_loop-digits (suc k) v m acc i rest h hm fits = elim (Bool-cases (ltb v 128)) [
  | inl e ↦
      let small : v < 128 = ltb→lt v 128 e in
      rw (digits-last (suc k) v small)
        (decode_last v m acc i rest small (omega (arith, bound)) fits)
  | inr e ↦
      let large : 128 ≤ v = le_of_ltb v 128 e in
      rw (digits-inner k v large) (
        decode_inner (v % 128) m acc i (digits k (v / 128) ++ rest) (omega arith)
          (omega (arith, bound)) (omega (arith, split))
        ∙ decode_loop-digits k (v / 128) (m * 128) (acc + v % 128 * m) (i + 1) rest
            (omega (arith, pow-suc 128 (suc k))) (omega (arith, shift)) (omega (arith, split))
        ∙ ap₂ (λ n c. ok (record { value = n; consumed = c })) (sym split) counted)
]
  where
    shift : m * 128 * 128 ^ k ≡ m * 128 ^ suc k
    shift = omega (arith, ap (λ (t : ℕ). m * t) (pow-suc 128 k))

    bound : m * 128 ≤ max_multiplier
    bound = grind (arith, pow_pos k, shift)

    counted : i + 1 + length (digits k (v / 128)) ≡ i + suc (length (digits k (v / 128)))
    counted = omega arith

    split : acc + v * m ≡ acc + v % 128 * m + v / 128 * (m * 128)
    split = omega (arith, ap (λ (t : ℕ). t * m) (div-add-mod v 128))

pow_le : (k : ℕ) → k < 4 → 128 ^ k ≤ max_multiplier
pow_le zero h = omega arith
pow_le (suc zero) h = omega arith
pow_le (suc (suc zero)) h = omega arith
pow_le (suc (suc (suc zero))) h = omega arith
pow_le (suc (suc (suc (suc k)))) h = absurd (omega arith)

value_lt : (k v : ℕ) → k < 4 → v < 128 ^ suc k → v < 128 ^ 4
value_lt k v hk h = omega (arith, pow_le k hk, pow-suc 128 k)

-- The decoder of the remaining length reads back every value below 128 ^ (k + 1), k < 4, from its
-- groups of seven bits, whatever follows them, and says how many bytes it took.
pub decode-digits :
    (k v : ℕ) (rest : List ℕ)
    → k < 4
    → v < 128 ^ suc k
    → decode_remaining_length (digits k v ++ rest)
      ≡ ok (record { value = v; consumed = length (digits k v) })
unfolding decode_remaining_length
decode-digits k v rest hk h =
    decode_loop-digits k v 1 0 0 rest h (omega (arith, pow_le k hk))
      (omega (arith, value_lt k v hk h))
    ∙ ap₂ (λ n c. ok (record { value = n; consumed = c })) value_eq consumed_eq
  where
    value_eq : 0 + v * 1 ≡ v
    value_eq = omega arith

    consumed_eq : 0 + length (digits k v) ≡ length (digits k v)
    consumed_eq = omega arith

-- The multipliers that the loop can meet, by the index that it has reached.
abbrev AtIndex : ℕ → ℕ → Type 0
AtIndex i m =
    ((i ≡ 0) × (m ≡ 1))
    ⊎ ((i ≡ 1) × (m ≡ 128))
    ⊎ ((i ≡ 2) × (m ≡ 128 ^ 2))
    ⊎ ((i ≡ 3) × (m ≡ 128 ^ 3))
    ⊎ ((i ≡ 4) × (m ≡ 128 ^ 4))

decode_loop_bounds :
    (buf : List ℕ) (m acc i : ℕ) (l : Length)
    → AtIndex i m
    → acc < m
    → decode_loop buf m acc i ≡ ok l
    → (l.value < 128 ^ 4) × (i < l.consumed) × (l.consumed ≤ 4) × (l.consumed ≤ i + length buf)
unfolding decode_loop
decode_loop_bounds [] m acc i l a h e = cc
decode_loop_bounds (byte ∷ rest) m acc i l a h e = ground (
  arith,
  decode_loop_bounds rest (m * 128 % u32_mod) ((acc + byte % 128 * m) % u32_mod) (i + 1) l,
)

-- A length that the decoder accepts took one to four bytes of the buffer, and is below 128 ^ 4: no
-- wrapped product is ever returned.
pub decode_remaining_length_bounds :
    (buf : List ℕ) (l : Length)
    → decode_remaining_length buf ≡ ok l
    → (l.value < 128 ^ 4) × (1 ≤ l.consumed) × (l.consumed ≤ 4) × (l.consumed ≤ length buf)
unfolding decode_remaining_length
decode_remaining_length_bounds buf l e =
    omega (arith, decode_loop_bounds buf 1 0 0 l (inl (refl, refl)) (omega arith) e)

decode_loop-append :
    (buf more : List ℕ) (m acc i : ℕ)
    → decode_loop buf m acc i ≢ err too_small
    → decode_loop (buf ++ more) m acc i ≡ decode_loop buf m acc i
unfolding decode_loop
decode_loop-append [] more m acc i h = absurd (h refl)
decode_loop-append (byte ∷ rest) more m acc i h = ground (
  arith,
  decode_loop-append rest more (m * 128 % u32_mod) ((acc + byte % 128 * m) % u32_mod) (i + 1),
)

-- Once the decoder has answered, with a length or with a protocol error, bytes that arrive later do
-- not change its answer.
pub decode_remaining_length-append :
    (buf more : List ℕ)
    → decode_remaining_length buf ≢ err too_small
    → decode_remaining_length (buf ++ more) ≡ decode_remaining_length buf
unfolding decode_remaining_length
decode_remaining_length-append buf more h = decode_loop-append buf more 1 0 0 h

-- The decoder never reads past its buffer.
decode_loop-ne-overrun : (buf : List ℕ) (m acc i : ℕ) → decode_loop buf m acc i ≢ overrun
unfolding decode_loop
decode_loop-ne-overrun [] m acc i e = cc
decode_loop-ne-overrun (byte ∷ rest) m acc i e = ground (
  arith,
  decode_loop-ne-overrun rest (m * 128 % u32_mod) ((acc + byte % 128 * m) % u32_mod) (i + 1),
)

pub decode_remaining_length-ne-overrun : (buf : List ℕ) → decode_remaining_length buf ≢ overrun
unfolding decode_remaining_length
decode_remaining_length-ne-overrun buf = decode_loop-ne-overrun buf 1 0 0
