-- ===== src/Proto/Encode/Packets.antt =====
-- aemlib_proto_encode_connect, aemlib_proto_encode_publish and aemlib_proto_encode_subscribe: the packets that
-- they leave, for strings of any length.
pub mod Short
use aemlib.Base.{ℕ, ◌+◌, ◌^◌, ◌≤◌, ◌<◌, ◌≡◌, List, [], ◌∷◌, ◌++◌, length, length-append, arith}
use aemlib.Base.Words.{size_mod}
use aemlib.Status.Outcome.{Outcome, ◌>>=◌}
use aemlib.Proto.Packet.{protocol_level, clean_session, subscribe_qos}
use aemlib.Proto.Cursor.{Cursor, append_byte, append_uint16_be, write_utf8, append_bytes}
use aemlib.Proto.Cursor.Emits.{cursor, be16, utf8, Emits-bind, >>=_assoc}
use aemlib.Proto.Cursor.Helpers.{
  append_byte-Emits, append_bytes-Emits, append_uint16_be-Emits, write_utf8-Emits,
}
use aemlib.Proto.Encode.{encode_connect, encode_publish, encode_subscribe}
use aemlib.Proto.Encode.Frame.{Packed, framed, framed_lem}

-- The memory behind the buffer and the strings, together with the packet's fixed parts, is smaller than
-- the address space, and the body's length fits a uint32_t.
abbrev pub IsAddressable : ℕ → ℕ → List ℕ → Type 0
IsAddressable buf_len size body =
    (buf_len ≤ size) × (length body < 2 ^ 32) × (size + length body + 5 < size_mod)

-- The bodies as the encoders write them, which cut the length of a string to 16 bits.
abbrev pub publish_body : List ℕ → List ℕ → List ℕ
publish_body topic payload = utf8 topic ++ payload

abbrev pub subscribe_body : ℕ → List ℕ → List ℕ
subscribe_body packet_id topic = be16 packet_id ++ (utf8 topic ++ subscribe_qos ∷ [])

abbrev pub mqtt_name : List ℕ
mqtt_name = b'M' ∷ b'Q' ∷ b'T' ∷ b'T' ∷ []

abbrev pub connect_body : List ℕ → ℕ → List ℕ
connect_body client_id keepalive_sec =
    utf8 mqtt_name ++ protocol_level ∷ clean_session ∷ (be16 keepalive_sec ++ utf8 client_id)

module _ (buf : List ℕ) (buf_len o : ℕ) where
  publish_pieces : List ℕ → List ℕ → Cursor → Outcome Cursor
  publish_pieces topic payload c = write_utf8 buf_len topic c >>= append_bytes buf_len payload

  publish_framed :
      (topic payload : List ℕ)
      → encode_publish buf buf_len o topic payload
        ≡ framed buf_len 0x30 (publish_pieces topic payload) (cursor [] buf o)
  unfolding encode_publish publish_pieces
  publish_framed topic payload = simp >>=_assoc

  pub encode_publish-Packed :
      (topic payload : List ℕ)
      → IsAddressable buf_len (length buf) (publish_body topic payload)
      → Packed buf_len 0x30
          (publish_body topic payload)
          (length buf)
          o
          (encode_publish buf buf_len o topic payload)
  unfolding publish_pieces
  encode_publish-Packed topic payload (room, small, total) = rw (publish_framed topic payload) (
      framed_lem buf_len 0x30 (publish_pieces topic payload) (publish_body topic payload) buf o
        (Emits-bind buf_len (write_utf8 buf_len topic) (append_bytes buf_len payload) (utf8 topic)
          payload (write_utf8-Emits buf_len topic (omega (arith, length-append topic payload)))
          (append_bytes-Emits buf_len payload (omega (arith, length-append topic payload))))
        room small total)

  subscribe_pieces : ℕ → List ℕ → Cursor → Outcome Cursor
  subscribe_pieces packet_id topic c = append_uint16_be buf_len packet_id c >>= λ c.
      write_utf8 buf_len topic c >>= append_byte buf_len subscribe_qos

  subscribe_framed :
      (packet_id : ℕ) (topic : List ℕ)
      → encode_subscribe buf buf_len o packet_id topic
        ≡ framed buf_len 0x82 (subscribe_pieces packet_id topic) (cursor [] buf o)
  unfolding encode_subscribe subscribe_pieces
  subscribe_framed packet_id topic = simp >>=_assoc

  pub encode_subscribe-Packed :
      (packet_id : ℕ) (topic : List ℕ)
      → IsAddressable buf_len (length buf) (subscribe_body packet_id topic)
      → Packed buf_len 0x82
          (subscribe_body packet_id topic)
          (length buf)
          o
          (encode_subscribe buf buf_len o packet_id topic)
  unfolding subscribe_pieces
  encode_subscribe-Packed packet_id topic (room, small, total) =
      rw (subscribe_framed packet_id topic) (
        framed_lem buf_len 0x82 (subscribe_pieces packet_id topic) (subscribe_body packet_id topic)
          buf o
          (Emits-bind buf_len (append_uint16_be buf_len packet_id)
            (λ c. write_utf8 buf_len topic c >>= append_byte buf_len subscribe_qos) (be16 packet_id)
            (utf8 topic ++ subscribe_qos ∷ []) (append_uint16_be-Emits buf_len packet_id)
            (Emits-bind buf_len (write_utf8 buf_len topic) (append_byte buf_len subscribe_qos)
              (utf8 topic) (subscribe_qos ∷ [])
              (write_utf8-Emits buf_len topic
                (omega (arith, length-append topic (subscribe_qos ∷ []))))
              (append_byte-Emits buf_len subscribe_qos)))
          room small total)

  connect_pieces : List ℕ → ℕ → Cursor → Outcome Cursor
  connect_pieces client_id keepalive_sec c = write_utf8 buf_len mqtt_name c >>= λ c.
      append_byte buf_len protocol_level c >>= λ c. append_byte buf_len clean_session c >>= λ c.
      append_uint16_be buf_len keepalive_sec c >>= write_utf8 buf_len client_id

  connect_framed :
      (client_id : List ℕ) (keepalive_sec : ℕ)
      → encode_connect buf buf_len o client_id keepalive_sec
        ≡ framed buf_len 0x10 (connect_pieces client_id keepalive_sec) (cursor [] buf o)
  unfolding encode_connect connect_pieces
  connect_framed client_id keepalive_sec = simp >>=_assoc

  pub encode_connect-Packed :
      (client_id : List ℕ) (keepalive_sec : ℕ)
      → IsAddressable buf_len (length buf) (connect_body client_id keepalive_sec)
      → Packed buf_len 0x10
          (connect_body client_id keepalive_sec)
          (length buf)
          o
          (encode_connect buf buf_len o client_id keepalive_sec)
  unfolding connect_pieces
  encode_connect-Packed client_id keepalive_sec (room, small, total) =
      rw (connect_framed client_id keepalive_sec) (
        framed_lem buf_len 0x10 (connect_pieces client_id keepalive_sec)
          (connect_body client_id keepalive_sec) buf o
          (Emits-bind buf_len (write_utf8 buf_len mqtt_name) _ (utf8 mqtt_name)
            (protocol_level ∷ clean_session ∷ (be16 keepalive_sec ++ utf8 client_id))
            (write_utf8-Emits buf_len mqtt_name (omega arith))
            (Emits-bind buf_len (append_byte buf_len protocol_level) _ (protocol_level ∷ [])
              (clean_session ∷ (be16 keepalive_sec ++ utf8 client_id))
              (append_byte-Emits buf_len protocol_level)
              (Emits-bind buf_len (append_byte buf_len clean_session) _ (clean_session ∷ [])
                (be16 keepalive_sec ++ utf8 client_id) (append_byte-Emits buf_len clean_session)
                (Emits-bind buf_len (append_uint16_be buf_len keepalive_sec)
                  (write_utf8 buf_len client_id) (be16 keepalive_sec) (utf8 client_id)
                  (append_uint16_be-Emits buf_len keepalive_sec)
                  (write_utf8-Emits buf_len client_id (omega arith))))))
          room small total)
