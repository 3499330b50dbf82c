-- ===== src/Proto/Tests/Laws.antt =====
-- Theorems on proto/proto.c at concrete inputs.
use aemlib.Base.{◌≤◌, ◌<◌, ◌^◌, ◌≡◌, ◌≢◌, refl, ◌⊎◌, [], ◌∷◌, ◌++◌, length, drop, arith}
use aemlib.Status.{status_ok}
use aemlib.Status.Outcome.{returned}
use aemlib.Status.Decoded.{ok, overrun}
use aemlib.Proto.Cursor.Emits.{cursor, Refused}
use aemlib.Proto.RemainingLength.{encode_remaining_length, decode_remaining_length, decode_loop}
use aemlib.Proto.RemainingLength.Encode.{digits, encode_remaining_length_lem}
use aemlib.Proto.RemainingLength.Decode.{decode-digits}
use aemlib.Proto.Header.{decode_fixed_header, validate_mqtt_flags}
use aemlib.Proto.Header.Laws.{
  header_of, decode_fixed_header-packet, decode_fixed_header-append, decode_fixed_header_bounds,
}
use aemlib.Proto.Encode.{encode_publish, encode_subscribe, encode_connect}
use aemlib.Proto.Encode.Finish.{packet}
use aemlib.Proto.Encode.Frame.{Packed}
use aemlib.Proto.Encode.Packets.{publish_body}
use aemlib.Proto.Encode.Packets.Short.{
  publish_content, subscribe_content, connect_content, encode_publish_lem, encode_subscribe_lem,
  encode_connect_lem,
}
use aemlib.Proto.Decode.{decode_publish, decode_connack, decode_suback}
use aemlib.Proto.Decode.Bounds.{
  decode_publish-ne-overrun, decode_connack-ne-overrun, decode_suback-ne-overrun,
}
use aemlib.Proto.Tests.{buffer, topic, payload}

encode_publish_lem_example :
    Packed 20 0x30 (publish_content topic payload) 20 0 (encode_publish buffer 20 0 topic payload)
encode_publish_lem_example =
    encode_publish_lem buffer 20 0 topic payload (omega arith)
      (omega arith, omega arith, omega arith)

encode_subscribe_lem_example :
    Packed 20 0x82 (subscribe_content 10 topic) 20 0 (encode_subscribe buffer 20 0 10 topic)
encode_subscribe_lem_example =
    encode_subscribe_lem buffer 20 0 10 topic (omega arith) (omega arith)
      (omega arith, omega arith, omega arith)

encode_connect_lem_example :
    Packed 20 0x10 (connect_content (120 ∷ []) 30) 20 0 (encode_connect buffer 20 0 (120 ∷ []) 30)
encode_connect_lem_example =
    encode_connect_lem buffer 20 0 (120 ∷ []) 30 (omega arith) (omega arith)
      (omega arith, omega arith, omega arith)

encode_remaining_length_lem_example :
    ((321 < 128 ^ 4)
      × (encode_remaining_length 321 buffer 4 0
          ≡ returned status_ok (
              cursor (digits 3 321) (drop (length (digits 3 321)) buffer) (length (digits 3 321)))))
    ⊎ ((128 ^ 4 ≤ 321) × Refused 20 0 (encode_remaining_length 321 buffer 4 0))
encode_remaining_length_lem_example = encode_remaining_length_lem 3 321 buffer 0 (omega arith)

decode-digits_example :
    decode_remaining_length (digits 3 321 ++ payload)
    ≡ ok (record { value = 321; consumed = length (digits 3 321) })
decode-digits_example = decode-digits 3 321 payload (omega arith) (omega arith)

decode_fixed_header-packet_example :
    decode_fixed_header (packet 0x30 (publish_body topic payload) ++ payload)
    ≡ ok (header_of 0x30 (publish_body topic payload))
unfolding validate_mqtt_flags
decode_fixed_header-packet_example =
    decode_fixed_header-packet 0x30 (publish_body topic payload) payload refl (omega arith)

ping_header :
    decode_fixed_header (0xD0 ∷ 0 ∷ [])
    ≡ ok (record { type = 13; flags = 0; remaining_length = 0; header_size = 2 })
unfolding decode_fixed_header decode_remaining_length decode_loop validate_mqtt_flags
ping_header = refl

decode_fixed_header-append_example :
    decode_fixed_header ((0xD0 ∷ 0 ∷ []) ++ payload) ≡ decode_fixed_header (0xD0 ∷ 0 ∷ [])
unfolding decode_fixed_header decode_remaining_length decode_loop validate_mqtt_flags
decode_fixed_header-append_example = decode_fixed_header-append (0xD0 ∷ 0 ∷ []) payload (λ e. cc)

decode_fixed_header_bounds_example :
    (2 ≤ 2) × (2 ≤ 5) × (2 ≤ 2) × (0 < 128 ^ 4) × (validate_mqtt_flags 13 0 ≡ status_ok)
decode_fixed_header_bounds_example =
    decode_fixed_header_bounds (0xD0 ∷ 0 ∷ [])
      (record { type = 13; flags = 0; remaining_length = 0; header_size = 2 }) ping_header

decode_publish-ne-overrun_example :
    decode_publish
      (0x30 ∷ 2 ∷ 0 ∷ 9 ∷ [])
      (record { type = 3; flags = 0; remaining_length = 2; header_size = 2 })
    ≢ overrun
decode_publish-ne-overrun_example =
    decode_publish-ne-overrun (0x30 ∷ 2 ∷ 0 ∷ 9 ∷ [])
      (record { type = 3; flags = 0; remaining_length = 2; header_size = 2 }) (omega arith)
      (omega arith) (omega arith)

decode_connack-ne-overrun_example : decode_connack (0x20 ∷ []) ≢ overrun
decode_connack-ne-overrun_example = decode_connack-ne-overrun (0x20 ∷ [])

decode_suback-ne-overrun_example : decode_suback (0x90 ∷ []) ≢ overrun
decode_suback-ne-overrun_example = decode_suback-ne-overrun (0x90 ∷ [])
