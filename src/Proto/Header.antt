-- ===== src/Proto/Header.antt =====
-- proto/proto.c: validate_mqtt_flags and aemlib_proto_decode_fixed_header.
pub mod Laws
pub mod Errors
use aemlib.Base.{
  ℕ, ◌+◌, ◌/◌, ◌%◌, ◌^◌, List, length, drop, get_elem?, Bool, ◌||◌, ltb, ◌==◌, if◌then◌else◌,
}
use aemlib.Status.{status, status_ok, Layer, Code}
use aemlib.Status.Decoded.{Decoded, ok, err, ◌>>=◌, reading}
use aemlib.Proto.Packet.{
  FixedHeader, pkt_connect, pkt_connack, pkt_publish, pkt_puback, pkt_subscribe, pkt_suback,
  pkt_pingreq, pkt_pingresp, pkt_disconnect, subscribe_flags,
}
use aemlib.Proto.Cursor.{too_small}
use aemlib.Proto.RemainingLength.{decode_remaining_length}

abbrev pub protocol_error : ℕ
protocol_error = status Layer.protocol Code.protocol

-- The types whose flags are reserved, and 0.
abbrev pub is_flagless : ℕ → Bool
is_flagless type =
    type == pkt_connect
    || type == pkt_connack
    || type == pkt_puback
    || type == pkt_suback
    || type == pkt_pingreq
    || type == pkt_pingresp
    || type == pkt_disconnect

-- `(flags >> 1) & 0x03`
abbrev pub qos_of : ℕ → ℕ
qos_of flags = flags / 2 % 4

unfoldable pub validate_mqtt_flags : ℕ → ℕ → ℕ
validate_mqtt_flags type flags =
    if is_flagless type
    then (if flags == 0x00 then status_ok else protocol_error)
    else if type == pkt_publish
    then (if qos_of flags == 0x03 then protocol_error else status_ok)
    else if type == pkt_subscribe
    then (if flags == subscribe_flags then status_ok else protocol_error)
    else protocol_error

-- The list is the buffer, its length `buf_len`.
unfoldable pub decode_fixed_header : List ℕ → Decoded FixedHeader
unfolding validate_mqtt_flags
decode_fixed_header buf =
    if ltb (length buf) 2
    then err too_small
    else reading (get_elem? buf 0) λ header_byte.
      let type = header_byte / 2 ^ 4 in
      let flags = header_byte % 2 ^ 4 in
      let valid = validate_mqtt_flags type flags in
      if valid == status_ok
      then (do
        len ← decode_remaining_length (drop 1 buf)
        ok (record {
          type = type;
          flags = flags;
          remaining_length = len.value;
          header_size = 1 + len.consumed;
        }))
      else err valid
