-- ===== src/Proto/Encode/Packets/Short.antt =====
-- aemlib_proto_encode_connect, aemlib_proto_encode_publish and aemlib_proto_encode_subscribe against the
-- packets of MQTT 3.1.1, for strings that MQTT can carry.
use aemlib.Base.{ℕ, ◌/◌, ◌%◌, ◌^◌, ◌<◌, ◌≡◌, ap, subst, ◌∙◌, List, [], ◌∷◌, ◌++◌, length, arith}
use aemlib.Proto.Cursor.Emits.{be16, utf8}
use aemlib.Proto.Encode.{encode_connect, encode_publish, encode_subscribe}
use aemlib.Proto.Encode.Frame.{Packed}
use aemlib.Proto.Encode.Packets.{
  IsAddressable, publish_body, subscribe_body, connect_body, mqtt_name, encode_publish-Packed,
  encode_subscribe-Packed, encode_connect-Packed,
}

-- A two-byte integer and a string of MQTT 3.1.1, section 1.5: the high byte first, and the length before the
-- characters. They are bytes for integers and lengths below 2 ^ 16.
abbrev pub two_bytes : ℕ → List ℕ
two_bytes v = v / 2 ^ 8 ∷ v % 2 ^ 8 ∷ []

abbrev pub mqtt_string : List ℕ → List ℕ
mqtt_string text = two_bytes (length text) ++ text

-- What follows the fixed header of PUBLISH (section 3.3) of QoS 0, of SUBSCRIBE (3.8) to one topic with QoS 0,
-- and of CONNECT (3.1) of protocol level 4 with a clean session.
abbrev pub publish_content : List ℕ → List ℕ → List ℕ
publish_content topic payload = mqtt_string topic ++ payload

abbrev pub subscribe_content : ℕ → List ℕ → List ℕ
subscribe_content packet_id topic = two_bytes packet_id ++ (mqtt_string topic ++ 0 ∷ [])

abbrev pub connect_content : List ℕ → ℕ → List ℕ
connect_content client_id keepalive_sec =
    mqtt_string mqtt_name ++ 4 ∷ 2 ∷ (two_bytes keepalive_sec ++ mqtt_string client_id)

be16-two_bytes : (v : ℕ) → v < 2 ^ 16 → be16 v ≡ two_bytes v
be16-two_bytes v short =
    let high : v / 2 ^ 8 % 2 ^ 8 ≡ v / 2 ^ 8 = omega (arith, short) in
    ap (λ (h : ℕ). h ∷ v % 2 ^ 8 ∷ []) high

utf8-mqtt_string : (text : List ℕ) → length text < 2 ^ 16 → utf8 text ≡ mqtt_string text
utf8-mqtt_string text short = ap (λ l. l ++ text) (be16-two_bytes (length text) short)

pub publish_content_lem :
    (topic payload : List ℕ)
    → length topic < 2 ^ 16
    → publish_body topic payload ≡ publish_content topic payload
publish_content_lem topic payload short = ap (λ l. l ++ payload) (utf8-mqtt_string topic short)

pub subscribe_content_lem :
    (packet_id : ℕ) (topic : List ℕ)
    → packet_id < 2 ^ 16
    → length topic < 2 ^ 16
    → subscribe_body packet_id topic ≡ subscribe_content packet_id topic
subscribe_content_lem packet_id topic id short =
    ap (λ l. l ++ (utf8 topic ++ 0 ∷ [])) (be16-two_bytes packet_id id)
    ∙ ap (λ l. two_bytes packet_id ++ (l ++ 0 ∷ [])) (utf8-mqtt_string topic short)

pub connect_content_lem :
    (client_id : List ℕ) (keepalive_sec : ℕ)
    → keepalive_sec < 2 ^ 16
    → length client_id < 2 ^ 16
    → connect_body client_id keepalive_sec ≡ connect_content client_id keepalive_sec
connect_content_lem client_id keepalive_sec alive short =
    ap (λ l. mqtt_string mqtt_name ++ 4 ∷ 2 ∷ (l ++ utf8 client_id))
      (be16-two_bytes keepalive_sec alive)
    ∙ ap (λ l. mqtt_string mqtt_name ++ 4 ∷ 2 ∷ (two_bytes keepalive_sec ++ l))
        (utf8-mqtt_string client_id short)

module _ (buf : List ℕ) (buf_len o : ℕ) where
  -- With a topic shorter than 2 ^ 16 bytes, a buffer of the size given, and arguments smaller than
  -- the address space and 4 GiB, encode_publish leaves the PUBLISH packet of MQTT 3.1.1, of QoS 0
  -- and with the topic and the payload, and its length, if the packet's body is shorter than 128 ^
  -- 4 bytes and five bytes more than it fit the buffer; otherwise it returns BUFFER_TOO_SMALL and
  -- leaves the output length alone.
  pub encode_publish_lem :
      (topic payload : List ℕ)
      → length topic < 2 ^ 16
      → IsAddressable buf_len (length buf) (publish_content topic payload)
      → Packed buf_len 0x30
          (publish_content topic payload)
          (length buf)
          o
          (encode_publish buf buf_len o topic payload)
  encode_publish_lem topic payload short =
      subst
        (λ body.
          IsAddressable buf_len (length buf) body
          → Packed buf_len 0x30 body (length buf) o (encode_publish buf buf_len o topic payload))
        (publish_content_lem topic payload short)
        (encode_publish-Packed buf buf_len o topic payload)

  -- With a packet identifier below 2 ^ 16, a topic shorter than 2 ^ 16 bytes, and a buffer of the
  -- size given that is smaller than the address space, encode_subscribe leaves the SUBSCRIBE packet
  -- of MQTT 3.1.1 with the packet identifier, the topic and QoS 0, and its length, if the packet's
  -- body is shorter than 128 ^ 4 bytes and five bytes more than it fit the buffer; otherwise it
  -- returns BUFFER_TOO_SMALL and leaves the output length alone.
  pub encode_subscribe_lem :
      (packet_id : ℕ) (topic : List ℕ)
      → packet_id < 2 ^ 16
      → length topic < 2 ^ 16
      → IsAddressable buf_len (length buf) (subscribe_content packet_id topic)
      → Packed buf_len 0x82
          (subscribe_content packet_id topic)
          (length buf)
          o
          (encode_subscribe buf buf_len o packet_id topic)
  encode_subscribe_lem packet_id topic id short =
      subst
        (λ body.
          IsAddressable buf_len (length buf) body
          → Packed buf_len 0x82 body (length buf) o
              (encode_subscribe buf buf_len o packet_id topic))
        (subscribe_content_lem packet_id topic id short)
        (encode_subscribe-Packed buf buf_len o packet_id topic)

  -- With a keepalive below 2 ^ 16 seconds, a client identifier shorter than 2 ^ 16 bytes, and a
  -- buffer of the size given that is smaller than the address space, encode_connect leaves the
  -- CONNECT packet of MQTT 3.1.1, of protocol level 4, with a clean session, the keepalive and the
  -- client identifier, and its length, if the packet's body is shorter than 128 ^ 4 bytes and five
  -- bytes more than it fit the buffer; otherwise it returns BUFFER_TOO_SMALL and leaves the output
  -- length alone.
  pub encode_connect_lem :
      (client_id : List ℕ) (keepalive_sec : ℕ)
      → keepalive_sec < 2 ^ 16
      → length client_id < 2 ^ 16
      → IsAddressable buf_len (length buf) (connect_content client_id keepalive_sec)
      → Packed buf_len 0x10
          (connect_content client_id keepalive_sec)
          (length buf)
          o
          (encode_connect buf buf_len o client_id keepalive_sec)
  encode_connect_lem client_id keepalive_sec alive short =
      subst
        (λ body.
          IsAddressable buf_len (length buf) body
          → Packed buf_len 0x10 body (length buf) o
              (encode_connect buf buf_len o client_id keepalive_sec))
        (connect_content_lem client_id keepalive_sec alive short)
        (encode_connect-Packed buf buf_len o client_id keepalive_sec)
