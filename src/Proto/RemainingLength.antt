-- ===== src/Proto/RemainingLength.antt =====
-- proto/proto.c: aemlib_proto_encode_remaining_length and aemlib_proto_decode_remaining_length.
pub mod Encode
pub mod Decode
use aemlib.Base.{
  ℕ, zero, suc, ◌+◌, ◌*◌, ◌/◌, ◌%◌, List, [], ◌∷◌, true, false, ltb, ◌==◌, if◌then◌else◌,
}
use aemlib.Base.Words.{u32_mod}
use aemlib.Base.Memory.{store}
use aemlib.Status.{status, status_ok, Layer, Code}
use aemlib.Status.Outcome.{Outcome, returned, accessing}
use aemlib.Status.Decoded.{Decoded, ok, err}
use aemlib.Proto.Packet.{max_multiplier}
use aemlib.Proto.Cursor.{Cursor, too_small}

-- The loop, with `i` in `offset`. The first argument is `buf_len - i`, so the test `i >= buf_len` is
-- that it is 0.
unfoldable pub encode_loop : ℕ → ℕ → Cursor → Outcome Cursor
encode_loop zero value c = returned too_small c
encode_loop (suc room) value c =
    let more = value / 128 in
    let encoded = if ltb 0 more then value % 128 + 0x80 else value % 128 in
    accessing (store c.bytes c.offset encoded) λ bytes.
      let c' : Cursor = record c { bytes = bytes; offset = c.offset + 1 } in
      elim (ltb 0 more) [
        | true ↦ encode_loop room more c'
        | false ↦ returned status_ok (record c' { out_len = c.offset + 1 })
      ]

-- The arguments are value, buf, buf_len and what `*out_len` holds before the call.
unfoldable pub encode_remaining_length : ℕ → List ℕ → ℕ → ℕ → Outcome Cursor
unfolding encode_loop
encode_remaining_length value buf buf_len out_len =
    encode_loop buf_len value (record { bytes = buf; offset = 0; out_len = out_len })

-- `*value` and `*consumed`
pub record Length : Type 0 where
  pub value : ℕ
  pub consumed : ℕ

-- The loop: the list is what is left of the buffer at `i`. The uint32_t arithmetic wraps.
unfoldable pub decode_loop : List ℕ → ℕ → ℕ → ℕ → Decoded Length
decode_loop [] multiplier result i = err too_small
decode_loop (byte ∷ rest) multiplier result i =
    let result' = (result + byte % 128 * multiplier) % u32_mod in
    let more = decode_loop rest (multiplier * 128 % u32_mod) result' (i + 1) in
    if ltb max_multiplier multiplier
    then err (status Layer.protocol Code.protocol)
    else if byte / 128 % 2 == 0
    then ok (record { value = result'; consumed = i + 1 })
    else more

unfoldable pub decode_remaining_length : List ℕ → Decoded Length
unfolding decode_loop
decode_remaining_length buf = decode_loop buf 1 0 0
