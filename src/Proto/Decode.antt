-- ===== src/Proto/Decode.antt =====
-- proto/proto.c: aemlib_proto_decode_publish, aemlib_proto_decode_connack and
-- aemlib_proto_decode_suback. A list is a buffer, its length `buf_len`; the pointers are not NULL.
pub mod Publish
pub mod Bounds
use aemlib.Base.{ℕ, ◌+◌, ◌*◌, ◌%◌, ◌^◌, List, length, get_elem?, ltb, ◌==◌, not, if◌then◌else◌}
use aemlib.Base.Words.{add_size, sub_size}
use aemlib.Base.Memory.{slice}
use aemlib.Status.{status, Layer, Code}
use aemlib.Status.Decoded.{Decoded, ok, err, reading}
use aemlib.Proto.Packet.{FixedHeader, prefix_size}
use aemlib.Proto.Cursor.{too_small}
use aemlib.Proto.Header.{qos_of}

-- The bytes that the returned pointers and lengths denote.
pub record Message : Type 0 where
  pub topic : List ℕ
  pub payload : List ℕ

abbrev pub unsupported : ℕ
unsupported = status Layer.protocol Code.unsupported

abbrev pub malformed : ℕ
malformed = status Layer.protocol Code.malformed

unfoldable pub decode_publish : List ℕ → FixedHeader → Decoded Message
decode_publish buf header =
    let offset = header.header_size in
    let packet_end = add_size header.header_size header.remaining_length in
    let topic_at = add_size offset prefix_size in
    if not (qos_of header.flags == 0)
    then err unsupported
    else if ltb (length buf) packet_end
    then err too_small
    else if ltb packet_end topic_at
    then err malformed
    else reading (get_elem? buf offset) λ high. reading (get_elem? buf (add_size offset 1)) λ low.
      let topic_length = high * 2 ^ 8 + low in
      let payload_at = add_size topic_at topic_length in
      if ltb packet_end payload_at
      then err malformed
      else reading (slice buf topic_at topic_length) λ topic.
        reading (slice buf payload_at (sub_size packet_end payload_at))
          λ payload. ok (record { topic = topic; payload = payload })

-- `*session_present` and `*return_code`
pub record Connack : Type 0 where
  pub session_present : ℕ
  pub return_code : ℕ

unfoldable pub decode_connack : List ℕ → Decoded Connack
decode_connack buf =
    if ltb (length buf) 4
    then err too_small
    else reading (get_elem? buf 2) λ session.
      reading (get_elem? buf 3)
        λ code. ok (record { session_present = session % 2; return_code = code })

-- `*packet_id` and `*granted_qos`
pub record Suback : Type 0 where
  pub packet_id : ℕ
  pub granted_qos : ℕ

unfoldable pub decode_suback : List ℕ → Decoded Suback
decode_suback buf =
    if ltb (length buf) 5
    then err too_small
    else reading (get_elem? buf 2) λ high. reading (get_elem? buf 3) λ low.
      reading (get_elem? buf 4)
        λ qos. ok (record { packet_id = high * 2 ^ 8 % 2 ^ 16 + low; granted_qos = qos })
