-- ===== src/Proto/Tests.antt =====
-- Concrete packets, and the theorems on them at concrete inputs.
mod Laws
use aemlib.Base.{ℕ, zero, suc, ◌<◌, ◌≡◌, refl, List, [], ◌∷◌, length, length-append, arith}
use aemlib.Base.Memory.{memcpy, slice, memmove}
use aemlib.Status.Outcome.{Outcome, returned}
use aemlib.Status.Decoded.{ok, err}
use aemlib.Proto.Cursor.{
  Cursor, reserve_space, append_byte, append_uint16_be, write_utf8, append_bytes,
}
use aemlib.Proto.RemainingLength.{
  encode_loop, encode_remaining_length, decode_loop, decode_remaining_length,
}
use aemlib.Proto.Decode.{Message, decode_connack, decode_suback}
use aemlib.Proto.Encode.{
  encode_empty, encode_connect, encode_publish, encode_subscribe, encode_pingreq, encode_disconnect,
  finish_packet, place_packet,
}
use aemlib.Proto.RoundTrip.{sent, ReadsBack, publish_round_trip, publish_long_topic}

abbrev pub buffer : List ℕ
buffer = 0 ∷ 0 ∷ 0 ∷ 0 ∷ 0 ∷ 0 ∷ 0 ∷ 0 ∷ 0 ∷ 0 ∷ 0 ∷ 0 ∷ 0 ∷ 0 ∷ 0 ∷ 0 ∷ 0 ∷ 0 ∷ 0 ∷ 0 ∷ []

abbrev pub topic : List ℕ
topic = b'a' ∷ b'/' ∷ b'b' ∷ []

abbrev pub payload : List ℕ
payload = b'h' ∷ b'i' ∷ []

-- The bytes and the length that an encoder left, or nothing.
abbrev wire : Outcome Cursor → List ℕ
wire (returned st c) = sent c
wire Outcome.fault = []

all_encoders : ℕ
unfolding encode_connect encode_publish encode_subscribe encode_pingreq encode_disconnect
    encode_empty finish_packet place_packet reserve_space append_byte append_uint16_be write_utf8
    append_bytes encode_remaining_length encode_loop memcpy slice memmove
all_encoders = 0

publish_wire :
    wire (encode_publish buffer 20 0 topic payload)
    ≡ 0x30 ∷ 7 ∷ 0 ∷ 3 ∷ b'a' ∷ b'/' ∷ b'b' ∷ b'h' ∷ b'i' ∷ []
unfolding all_encoders
publish_wire = refl

connect_wire :
    wire (encode_connect buffer 20 0 (b'x' ∷ []) 30)
    ≡ 0x10 ∷ 13 ∷ 0 ∷ 4 ∷ b'M' ∷ b'Q' ∷ b'T' ∷ b'T' ∷ 4 ∷ 2 ∷ 0 ∷ 30 ∷ 0 ∷ 1 ∷ b'x' ∷ []
unfolding all_encoders
connect_wire = refl

subscribe_wire :
    wire (encode_subscribe buffer 20 0 10 topic)
    ≡ 0x82 ∷ 8 ∷ 0 ∷ 10 ∷ 0 ∷ 3 ∷ b'a' ∷ b'/' ∷ b'b' ∷ 0 ∷ []
unfolding all_encoders
subscribe_wire = refl

ping_wire :
    (wire (encode_pingreq buffer 20 0) ≡ 0xC0 ∷ 0 ∷ [])
    × (wire (encode_disconnect buffer 20 0) ≡ 0xE0 ∷ 0 ∷ [])
unfolding all_encoders
ping_wire = (refl, refl)

decode_length :
    decode_remaining_length (0xC1 ∷ 0x02 ∷ []) ≡ ok (record { value = 321; consumed = 2 })
unfolding decode_remaining_length decode_loop
decode_length = refl

decode_length_long : decode_remaining_length (0xFF ∷ 0xFF ∷ 0xFF ∷ 0xFF ∷ 1 ∷ []) ≡ err 0x4000E
unfolding decode_remaining_length decode_loop
decode_length_long = refl

suback_ids :
    decode_suback (0x90 ∷ 3 ∷ 0x12 ∷ 0x34 ∷ 0 ∷ [])
    ≡ ok (record { packet_id = 0x1234; granted_qos = 0 })
unfolding decode_suback
suback_ids = refl

connack_code :
    decode_connack (0x20 ∷ 2 ∷ 1 ∷ 5 ∷ []) ≡ ok (record { session_present = 1; return_code = 5 })
unfolding decode_connack
connack_code = refl

publish_round_trip_example :
    ReadsBack
      (encode_publish buffer 20 0 topic payload)
      (0xD0 ∷ 0 ∷ [])
      (record { topic = topic; payload = payload })
publish_round_trip_example =
    publish_round_trip buffer 20 0 topic payload (0xD0 ∷ 0 ∷ []) (omega arith) (omega arith)
      (omega arith) (omega arith)

zeros : ℕ → List ℕ
zeros zero = []
zeros (suc n) = 0 ∷ zeros n

length-zeros : (n : ℕ) → length (zeros n) ≡ n
unfolding zeros
length-zeros zero = refl
length-zeros (suc n) = omega (arith, length-zeros n)

publish_long_topic_example :
    (m : Message) × ReadsBack (encode_publish (zeros 0x10007) 0x10007 0 (zeros 0x10000) []) [] m
    × (length m.topic < length (zeros 0x10000))
publish_long_topic_example =
    publish_long_topic (zeros 0x10007) 0x10007 0 (zeros 0x10000) [] []
      (omega (arith, length-zeros 0x10007, length-zeros 0x10000, length-append (zeros 0x10000) []))
      (omega (arith, length-zeros 0x10007, length-zeros 0x10000, length-append (zeros 0x10000) []))
      (omega (arith, length-zeros 0x10000, length-append (zeros 0x10000) []))
      (omega (arith, length-zeros 0x10000))
