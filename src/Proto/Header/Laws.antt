-- ===== src/Proto/Header/Laws.antt =====
-- aemlib_proto_decode_fixed_header: on a packet that an encoder laid out, on input that arrives in
-- pieces, and on any input.
use aemlib.Base.{
  ℕ, ◌+◌, ◌-◌, ◌/◌, ◌%◌, ◌^◌, ◌≤◌, ◌<◌, ◌≡◌, ◌≢◌, refl, List, [], ◌∷◌, ◌++◌, length, length-append,
  append_assoc, ltb-false, arith,
}
use aemlib.Status.{status_ok}
use aemlib.Status.Decoded.{ok, err, overrun}
use aemlib.Proto.Packet.{FixedHeader}
use aemlib.Proto.Cursor.{too_small}
use aemlib.Proto.RemainingLength.Encode.{digits, length-digits}
use aemlib.Proto.RemainingLength.Decode.{
  decode-digits, decode_remaining_length_bounds, decode_remaining_length-append,
  decode_remaining_length-ne-overrun,
}
use aemlib.Proto.Header.{validate_mqtt_flags, decode_fixed_header}
use aemlib.Proto.Encode.Finish.{packet}

-- What the two ends of a fixed header say of a packet.
abbrev pub header_of : ℕ → List ℕ → FixedHeader
header_of first body = record {
  type = first / 2 ^ 4;
  flags = first % 2 ^ 4;
  remaining_length = length body;
  header_size = 1 + length (digits 3 (length body));
}

pub decode_fixed_header-packet :
    (first : ℕ) (body rest : List ℕ)
    → validate_mqtt_flags (first / 2 ^ 4) (first % 2 ^ 4) ≡ status_ok
    → length body < 128 ^ 4
    → decode_fixed_header (packet first body ++ rest) ≡ ok (header_of first body)
unfolding decode_fixed_header packet
decode_fixed_header-packet first body rest valid small = rw (
  ltb-false (length (first ∷ (digits 3 (length body) ++ body) ++ rest)) 2 (
      omega (
        arith,
        length-append (digits 3 (length body) ++ body) rest,
        length-append (digits 3 (length body)) body,
        length-digits 3 (length body),
      )),
  valid,
  append_assoc (digits 3 (length body)) body rest,
  decode-digits 3 (length body) (body ++ rest) (omega arith) small,
)

-- A fixed header that is decoded has two to five bytes, all of them in the buffer, a remaining
-- length below 128 ^ 4, so that the packet's length cannot wrap, and flags that are allowed for its
-- type.
pub decode_fixed_header_bounds :
    (buf : List ℕ) (h : FixedHeader)
    → decode_fixed_header buf ≡ ok h
    → (2 ≤ h.header_size)
      × (h.header_size ≤ 5)
      × (h.header_size ≤ length buf)
      × (h.remaining_length < 128 ^ 4)
      × (validate_mqtt_flags h.type h.flags ≡ status_ok)
unfolding decode_fixed_header
decode_fixed_header_bounds [] h e = cc
decode_fixed_header_bounds (b ∷ buf) h e = ground (
  arith,
  decode_remaining_length_bounds buf
      (record { value = h.remaining_length; consumed = h.header_size - 1 }),
)

pub decode_fixed_header-ne-overrun : (buf : List ℕ) → decode_fixed_header buf ≢ overrun
unfolding decode_fixed_header
decode_fixed_header-ne-overrun [] e = cc
decode_fixed_header-ne-overrun (b ∷ buf) e = ground (arith, decode_remaining_length-ne-overrun buf)

-- Once the decoder of the fixed header has answered anything but BUFFER_TOO_SMALL, bytes that
-- arrive later do not change its answer.
pub decode_fixed_header-append :
    (buf more : List ℕ)
    → decode_fixed_header buf ≢ err too_small
    → decode_fixed_header (buf ++ more) ≡ decode_fixed_header buf
unfolding decode_fixed_header
decode_fixed_header-append [] more h = absurd (h refl)
decode_fixed_header-append (a ∷ []) more h = absurd (h refl)
decode_fixed_header-append (a ∷ b ∷ buf) more h =
    ground (arith, decode_remaining_length-append (b ∷ buf) more, length-append buf more)
