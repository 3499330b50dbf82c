-- ===== src/Proto/Encode/Finish.antt =====
-- The end of the encoders of CONNECT, PUBLISH and SUBSCRIBE: the body, written behind a gap of four
-- bytes, comes to stand behind its remaining length.
use aemlib.Base.{
  ℕ, ◌+◌, ◌-◌, ◌%◌, ◌^◌, ◌≤◌, ◌<◌, ◌≡◌, refl, ap, ◌∙◌, sym, ◌⊎◌, inl, inr, List, [], ◌∷◌, ◌++◌,
  length, take, drop, append_assoc, length-append, length-drop, length-take_le, drop-append,
  take-append-drop, arith, some,
}
use aemlib.Base.Words.{size_mod, u32_mod, add_size, sub_size}
use aemlib.Base.Memory.{memcpy, memmove, slice, memcpy-append, slice-append, memmove-slice}
use aemlib.Status.{status_ok}
use aemlib.Status.Outcome.{Outcome, returned}
use aemlib.Proto.Cursor.{Cursor, too_small}
use aemlib.Proto.Cursor.Emits.{cursor, Refused}
use aemlib.Proto.RemainingLength.{encode_remaining_length}
use aemlib.Proto.RemainingLength.Encode.{digits, length-digits, encode_remaining_length_lem}
use aemlib.Proto.Encode.{scratch, finish_packet, place_packet}

-- A packet as MQTT 3.1.1 lays it out: the first byte, the remaining length, and the rest.
unfoldable pub packet : ℕ → List ℕ → List ℕ
packet first body = first ∷ (digits 3 (length body) ++ body)

-- A call that left `sent` at the front of the memory and its length in `*out_len`.
pub record Encoded (sent : List ℕ) (size : ℕ) (r : Outcome Cursor) : Type 0 where
  pub left : Cursor
  pub tail : List ℕ
  pub encoded : r ≡ returned status_ok left
  pub layout : left.bytes ≡ sent ++ tail
  pub same_size : length left.bytes ≡ size
  pub counted : left.out_len ≡ length sent

-- Moving `body` down into the gap before it.
close_gap :
    (front gap body rest : List ℕ) (to from n : ℕ)
    → from ≡ length front + length gap
    → n ≡ length body
    → to ≤ from
    → length front ≤ to
    → memmove (front ++ (gap ++ (body ++ rest))) to from n
      ≡ some (
          front
          ++ (take (to - length front) gap
              ++ (body ++ drop (length body) (drop (to - length front) gap ++ (body ++ rest)))))
close_gap front gap body rest to from n e en h1 h2 =
    memmove-slice (front ++ (gap ++ (body ++ rest))) to from n body (
      rw (← append_assoc front gap (body ++ rest))
        (slice-append (front ++ gap) body rest from n (omega (arith, length-append front gap)) en))
    ∙ rw (← split) (
        rw (← append_assoc front kept (freed ++ (body ++ rest))) (
          memcpy-append (front ++ kept) (freed ++ (body ++ rest)) body to
            (omega (arith, length-append front kept, size))
            (omega (arith, length-append freed (body ++ rest), length-append body rest))
          ∙ ap some (append_assoc front kept _)))
  where
    kept : List ℕ
    kept = take (to - length front) gap

    freed : List ℕ
    freed = drop (to - length front) gap

    size : length kept ≡ to - length front
    size = length-take_le (to - length front) gap (omega arith)

    split : kept ++ (freed ++ (body ++ rest)) ≡ gap ++ (body ++ rest)
    split = rw (← append_assoc kept freed (body ++ rest), take-append-drop (to - length front) gap)

module _ (first : ℕ) (gap body rest : List ℕ) (o : ℕ) (wide : length gap ≡ 4)
    (small : length body < 2 ^ 32) (total : length body + length rest + 5 < size_mod) where
  abbrev before : Cursor
  before = cursor ((first ∷ gap) ++ body) rest o

  before_offset : before.offset ≡ 5 + length body
  before_offset = omega (arith, length-append gap body)

  before_size : length before.bytes ≡ 5 + length body + length rest
  before_size = omega (arith, length-append (gap ++ body) rest, length-append gap body)

  body_length : sub_size before.offset (add_size 1 4) % u32_mod ≡ length body
  body_length = omega (arith, before_offset)

  -- `k` bytes of remaining length, and what follows the packet.
  abbrev ds : List ℕ
  ds = digits 3 (length body)

  abbrev rest_after : List ℕ
  rest_after = drop (length body) (drop (length ds) gap ++ (body ++ rest))

  moved :
      memmove before.bytes (add_size 1 (length ds)) (add_size 1 4) (length body)
      ≡ some (first ∷ (take (length ds) gap ++ (body ++ rest_after)))
  moved =
      ap (λ m. memmove (first ∷ m) (add_size 1 (length ds)) (add_size 1 4) (length body))
        (append_assoc gap body rest)
      ∙ close_gap (first ∷ []) gap body rest (add_size 1 (length ds)) (add_size 1 4) (length body)
          (omega arith) refl (omega (arith, length-digits 3 (length body)))
          (omega (arith, length-digits 3 (length body)))
      ∙ ap
          (λ n.
            some
              (first ∷ (take n gap ++ (body ++ drop (length body) (drop n gap ++ (body ++ rest))))))
          start_of_gap
    where
      start_of_gap : add_size 1 (length ds) - 1 ≡ length ds
      start_of_gap = omega (arith, length-digits 3 (length body))

  digits_out : slice (ds ++ drop (length ds) scratch) 0 (length ds) ≡ some ds
  digits_out = slice-append [] ds (drop (length ds) scratch) 0 (length ds) refl refl

  placed :
      memcpy (first ∷ (take (length ds) gap ++ (body ++ rest_after))) 1 ds
      ≡ some (first ∷ (ds ++ (body ++ rest_after)))
  placed =
      memcpy-append (first ∷ []) (take (length ds) gap ++ (body ++ rest_after)) ds 1 refl
        (omega (arith, length-append (take (length ds) gap) (body ++ rest_after), kept))
      ∙ ap (λ l. some (first ∷ (ds ++ l)))
          (drop-append (take (length ds) gap) (body ++ rest_after) (length ds) (sym kept))
    where
      kept : length (take (length ds) gap) ≡ length ds
      kept = length-take_le (length ds) gap (omega (arith, length-digits 3 (length body)))

  counted_first :
      finish_packet 1 before
      ≡ place_packet 1 (length body) before (encode_remaining_length (length body) scratch 4 0)
  unfolding finish_packet
  counted_first =
      ap (λ n. place_packet 1 n before (encode_remaining_length n scratch 4 0)) body_length

  finish_fits :
      encode_remaining_length (length body) scratch 4 0
        ≡ returned status_ok (cursor ds (drop (length ds) scratch) (length ds))
      → finish_packet 1 before
        ≡ returned status_ok (record before {
          bytes = first ∷ (ds ++ (body ++ rest_after));
          out_len = add_size (add_size 1 (length ds)) (length body);
        })
  unfolding place_packet
  finish_fits e = counted_first ∙ rw (e, moved, digits_out, placed)

  finish_refuses :
      Refused 4 0 (encode_remaining_length (length body) scratch 4 0)
      → finish_packet 1 before ≡ returned too_small before
  unfolding place_packet
  finish_refuses r = counted_first ∙ rw r.refused

  -- The encoder ends with the packet in place if the body is short enough for four bytes of remaining
  -- length, and is refused otherwise.
  pub finish_packet_lem :
      ((length body < 128 ^ 4)
        × Encoded (packet first body) (5 + length body + length rest) (finish_packet 1 before))
      ⊎ ((128 ^ 4 ≤ length body)
          × Refused (5 + length body + length rest) o (finish_packet 1 before))
  unfolding packet
  finish_packet_lem = elim (encode_remaining_length_lem 3 (length body) scratch 0 (omega arith)) [
    | inl (h, e) ↦ inl (
      h,
      record {
        left = record before {
          bytes = first ∷ (ds ++ (body ++ rest_after));
          out_len = add_size (add_size 1 (length ds)) (length body);
        };
        tail = rest_after;
        encoded = finish_fits e;
        layout = ap (λ l. first ∷ l) (sym (append_assoc ds body rest_after));
        same_size = omega (
          arith,
          length-append ds (body ++ rest_after),
          length-append body rest_after,
          length-drop (length body) (drop (length ds) gap ++ (body ++ rest)),
          length-append (drop (length ds) gap) (body ++ rest),
          length-append body rest,
          length-drop (length ds) gap,
          length-digits 3 (length body),
        );
        counted = omega (arith, length-append ds body, length-digits 3 (length body));
      },
    )
    | inr (h, r) ↦ inr (
      h,
      record {
        left = before;
        refused = finish_refuses r;
        same_size = before_size;
        same_out_len = refl;
      },
    )
  ]
