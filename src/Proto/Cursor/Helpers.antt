-- ===== src/Proto/Cursor/Helpers.antt =====
-- Each writing helper of proto/proto.c, by the bytes that it writes.
use aemlib.Base.{
  ℕ, ◌+◌, ◌/◌, ◌%◌, ◌^◌, ◌≤◌, ◌<◌, ◌≡◌, refl, ap, ◌∙◌, sym, ◌⊎◌, inl, inr, List, [], ◌∷◌, some,
  ◌++◌, length, take, drop, append_assoc, length-append, length-drop, length-take_le, drop-add,
  take-append-drop, arith,
}
use aemlib.Base.Words.{size_mod, add_size}
use aemlib.Base.Memory.{memcpy, memcpy-append}
use aemlib.Status.{status_ok}
use aemlib.Status.Outcome.{returned}
use aemlib.Proto.Packet.{prefix_size}
use aemlib.Proto.Cursor.{
  Cursor, reserve_space, append_byte, append_uint16_be, write_utf8, append_bytes,
}
use aemlib.Proto.Cursor.Emits.{
  cursor, be16, utf8, Refused, Emits, checked-Emits, ensure_space_room, ensure_space_full,
}
use native.Mathlib.Decide.{dec_le}

pub cursor-advance :
    (front xs tail : List ℕ) (o n : ℕ)
    → n ≡ length front + length xs
    → ◌≡◌ {A = Cursor}
        (record { bytes = front ++ (xs ++ tail); offset = n; out_len = o })
        (cursor (front ++ xs) tail o)
cursor-advance front xs tail o n e = rw (append_assoc front xs tail, length-append front xs, e)

-- A write behind a first piece.
memcpy_behind :
    (front xs rest src : List ℕ) (off : ℕ)
    → off ≡ length front + length xs
    → length src ≤ length rest
    → memcpy (front ++ (xs ++ rest)) off src
      ≡ some (front ++ ((xs ++ src) ++ drop (length src) rest))
memcpy_behind front xs rest src off e h = rw (← append_assoc front xs rest) (
    memcpy-append (front ++ xs) rest src off (omega (arith, length-append front xs)) h
    ∙ ap some (append_assoc front xs _ ∙ ap (λ l. front ++ l) (sym (append_assoc xs src _))))

pub append_bytes-Emits :
    (buf_len : ℕ) (xs : List ℕ) → length xs < size_mod → Emits buf_len (append_bytes buf_len xs) xs
unfolding append_bytes
append_bytes-Emits buf_len xs small =
    checked-Emits buf_len (length xs) (append_bytes buf_len xs) _ xs refl (λ c. refl)
      λ front rest o room h. rw (memcpy-append front rest xs (length front) refl h) (
        ap (returned status_ok) (cursor-advance front xs (drop (length xs) rest) o _ (omega arith)))

pub append_byte-Emits : (buf_len value : ℕ) → Emits buf_len (append_byte buf_len value) (value ∷ [])
unfolding append_byte
append_byte-Emits buf_len value =
    checked-Emits buf_len 1 (append_byte buf_len value) _ (value ∷ []) refl (λ c. refl)
      λ front rest o room h. rw (memcpy-append front rest (value ∷ []) (length front) refl h) (
        ap (returned status_ok) (cursor-advance front (value ∷ []) (drop 1 rest) o _ (omega arith)))

pub append_uint16_be-Emits :
    (buf_len value : ℕ) → Emits buf_len (append_uint16_be buf_len value) (be16 value)
unfolding append_uint16_be
append_uint16_be-Emits buf_len value =
    checked-Emits buf_len 2 (append_uint16_be buf_len value) _ (be16 value) refl (λ c. refl)
      λ front rest o room h.
        rw
          (
            memcpy-append front rest (value / 2 ^ 8 % 2 ^ 8 ∷ []) (length front) refl (omega arith),
            memcpy_behind front (value / 2 ^ 8 % 2 ^ 8 ∷ []) (drop 1 rest) (value % 2 ^ 8 ∷ [])
                (add_size (length front) 1) (omega arith) (omega (arith, length-drop 1 rest)),
            ← drop-add 1 1 rest,
          )
          (ap (returned status_ok)
            (cursor-advance front (be16 value) (drop 2 rest) o _ (omega arith)))

pub write_utf8-Emits :
    (buf_len : ℕ) (str : List ℕ)
    → length str + 2 < size_mod
    → Emits buf_len (write_utf8 buf_len str) (utf8 str)
unfolding write_utf8
write_utf8-Emits buf_len str small =
    checked-Emits buf_len (add_size prefix_size (length str)) (write_utf8 buf_len str) _ (utf8 str)
      (omega arith) (λ c. refl)
      λ front rest o room h.
        rw
          (
            memcpy-append front rest (high ∷ []) (add_size (length front) 0) (omega arith)
                (omega arith),
            memcpy_behind front (high ∷ []) (drop 1 rest) (low ∷ []) (add_size (length front) 1)
                (omega arith) (omega (arith, length-drop 1 rest)),
            memcpy_behind front (high ∷ low ∷ []) (drop 1 (drop 1 rest)) str
                (add_size (length front) prefix_size) (omega arith)
                (omega (arith, length-drop 1 rest, length-drop 1 (drop 1 rest))),
            ← drop-add 1 1 rest,
            sym (drop-add 2 (length str) rest) ∙ ap (λ k. drop k rest) past,
          )
          (ap (returned status_ok)
            (cursor-advance front (utf8 str) (drop (length (utf8 str)) rest) o _ (omega arith)))
  where
    high : ℕ
    high = length str / 2 ^ 8 % 2 ^ 8

    low : ℕ
    low = length str % 2 ^ 8

    past : 2 + length str ≡ length (utf8 str)
    past = omega arith

-- reserve_space leaves the bytes that it steps over as they are.
pub reserve_space_lem :
    (buf_len size : ℕ) (front rest : List ℕ) (o : ℕ)
    → buf_len ≤ length front + length rest
    → length front + length rest + size < size_mod
    → ((length front + size ≤ buf_len)
        × (reserve_space size buf_len (cursor front rest o)
            ≡ returned status_ok (cursor (front ++ take size rest) (drop size rest) o)))
      ⊎ ((buf_len < length front + size)
          × Refused
              (length front + length rest)
              o
              (reserve_space size buf_len (cursor front rest o)))
unfolding reserve_space
reserve_space_lem buf_len size front rest o room small =
    elim (dec_le (length front + size) buf_len) [
      | yes h ↦ inl (
        h,
        rw (ensure_space_room size (length front) buf_len (omega arith) h)
            (ap (returned status_ok) (stepped (length-take_le size rest (omega arith)))),
      )
      | no h ↦ inr (
        omega arith,
        record {
          left = cursor front rest o;
          refused = rw (ensure_space_full size (length front) buf_len (omega arith) (omega arith));
          same_size = length-append front rest;
          same_out_len = refl;
        },
      )
    ]
  where
    stepped :
        length (take size rest) ≡ size
        → ◌≡◌ {A = Cursor}
            (record (cursor front rest o) { offset = add_size (length front) size })
            (cursor (front ++ take size rest) (drop size rest) o)
    stepped e =
        rw
          (
            append_assoc front (take size rest) (drop size rest),
            take-append-drop size rest,
            length-append front (take size rest),
            e,
          )
          (ap (λ n. record (cursor front rest o) { offset = n }) (omega arith))
