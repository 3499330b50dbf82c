-- ===== src/Proto/RoundTrip.antt =====
-- Encoders against decoders: a PUBLISH that is encoded, framed and decoded.
use aemlib.Base.{
  ℕ, ◌+◌, ◌*◌, ◌/◌, ◌%◌, ◌^◌, ◌≤◌, ◌<◌, ◌≡◌, refl, ap, ◌∙◌, sym, inl, inr, List, ◌∷◌, [], ◌++◌,
  append-nil, length, take, drop, subst, length-append, length-take, append_assoc, take-append,
  drop-append, arith,
}
use aemlib.Base.Words.{size_mod}
use aemlib.Status.{status_ok}
use aemlib.Status.Outcome.{Outcome, returned}
use aemlib.Status.Decoded.{ok}
use aemlib.Proto.Packet.{FixedHeader}
use aemlib.Proto.Cursor.{Cursor}
use aemlib.Proto.RemainingLength.Encode.{digits, length-digits}
use aemlib.Proto.Header.{validate_mqtt_flags, qos_of, decode_fixed_header}
use aemlib.Proto.Header.Laws.{header_of, decode_fixed_header-packet}
use aemlib.Proto.Decode.{Message, decode_publish}
use aemlib.Proto.Decode.Publish.{decode_publish_content}
use aemlib.Proto.Encode.{encode_publish}
use aemlib.Proto.Encode.Finish.{packet, Encoded}
use aemlib.Proto.Encode.Packets.{IsAddressable, publish_body, encode_publish-Packed}

-- What an encoder hands to the transport.
abbrev pub sent : Cursor → List ℕ
sent c = take c.out_len c.bytes

-- The topic length that stands in the packet is a uint16_t.
abbrev pub topic_cut : List ℕ → ℕ
topic_cut topic = length topic % 2 ^ 16

pub length-packet :
    (first : ℕ) (body : List ℕ)
    → (length body + 2 ≤ length (packet first body))
      × (length (packet first body) ≤ length body + 5)
unfolding packet
length-packet first body =
    omega (arith, length-append (digits 3 (length body)) body, length-digits 3 (length body))

pub packet_measure :
    (first : ℕ) (body : List ℕ)
    → length (packet first body)
      ≡ (header_of first body).header_size + (header_of first body).remaining_length
unfolding packet
packet_measure first body = omega (arith, length-append (digits 3 (length body)) body)

-- A PUBLISH, and whatever follows it, decodes to the topic and the payload, divided at the length that
-- the packet states.
decode_publish-packet :
    (first : ℕ) (topic payload rest : List ℕ)
    → qos_of (first % 2 ^ 4) ≡ 0
    → length (publish_body topic payload) < 128 ^ 4
    → length (packet first (publish_body topic payload)) + length rest < size_mod
    → decode_publish
        (packet first (publish_body topic payload) ++ rest)
        (header_of first (publish_body topic payload))
      ≡ ok (record {
        topic = take (topic_cut topic) (topic ++ payload);
        payload = drop (topic_cut topic) (topic ++ payload);
      })
unfolding packet
decode_publish-packet first topic payload rest qos small total =
    rw (append_assoc ds (publish_body topic payload) rest) (
      decode_publish_content (first ∷ ds) high low (topic ++ payload) rest
        (header_of first (publish_body topic payload)) (omega arith) (omega arith) qos
        (omega (arith, stated, length-append topic payload))
        (omega (arith, length-append ds (publish_body topic payload)))
      ∙ ap
          (λ n.
            ok (record { topic = take n (topic ++ payload); payload = drop n (topic ++ payload) }))
          stated)
  where
    ds : List ℕ
    ds = digits 3 (length (publish_body topic payload))

    high : ℕ
    high = length topic / 2 ^ 8 % 2 ^ 8

    low : ℕ
    low = length topic % 2 ^ 8

    stated : high * 2 ^ 8 + low ≡ topic_cut topic
    stated = omega arith

-- A topic of fewer than 2 ^ 16 bytes is not cut.
topic_whole :
    (topic payload : List ℕ)
    → length topic < 2 ^ 16
    → ◌≡◌ {A = Message}
        (record {
          topic = take (topic_cut topic) (topic ++ payload);
          payload = drop (topic_cut topic) (topic ++ payload);
        })
        (record { topic = topic; payload = payload })
topic_whole topic payload short =
    let cut : topic_cut topic ≡ length topic = omega arith in
    rw (
      cut,
      take-append topic payload (length topic) refl,
      drop-append topic payload (length topic) refl,
    )

-- A PUBLISH of QoS 0, as its own buffer, decodes to its topic and its payload.
pub decode_publish-alone :
    (first : ℕ) (topic payload : List ℕ)
    → qos_of (first % 2 ^ 4) ≡ 0
    → length topic < 2 ^ 16
    → length (publish_body topic payload) < 128 ^ 4
    → decode_publish
        (packet first (publish_body topic payload))
        (header_of first (publish_body topic payload))
      ≡ ok (record { topic = topic; payload = payload })
decode_publish-alone first topic payload qos short small =
    let body : List ℕ = publish_body topic payload in
    ap (λ b. decode_publish b (header_of first body)) (sym (append-nil (packet first body)))
    ∙ decode_publish-packet first topic payload [] qos small
        (omega (arith, length-packet first body))
    ∙ ap ok (topic_whole topic payload short)

valid_publish : validate_mqtt_flags (0x30 / 2 ^ 4) (0x30 % 2 ^ 4) ≡ status_ok
unfolding validate_mqtt_flags
valid_publish = refl

sent-packet :
    (body : List ℕ) (first size : ℕ) (r : Outcome Cursor) (x : Encoded (packet first body) size r)
    → sent x.left ≡ packet first body
sent-packet body first size r x =
    rw x.layout (take-append (packet first body) x.tail x.left.out_len x.counted)

-- The encoder succeeded, and its packet, with any bytes behind it, is read back: the header states the
-- length of the packet, and the message is the one given.
pub record ReadsBack (r : Outcome Cursor) (rest : List ℕ) (m : Message) : Type 0 where
  pub left : Cursor
  pub header : FixedHeader
  pub encoded : r ≡ returned status_ok left
  pub framed : decode_fixed_header (sent left ++ rest) ≡ ok header
  pub measured : header.header_size + header.remaining_length ≡ left.out_len
  pub decoded : decode_publish (sent left ++ rest) header ≡ ok m

publish-ReadsBack :
    (buf : List ℕ) (buf_len o : ℕ) (topic payload rest : List ℕ)
    → IsAddressable buf_len (length buf) (publish_body topic payload)
    → length (publish_body topic payload) < 128 ^ 4
    → length (publish_body topic payload) + 5 + length rest < size_mod
    → Encoded
        (packet 0x30 (publish_body topic payload))
        (length buf)
        (encode_publish buf buf_len o topic payload)
    → ReadsBack (encode_publish buf buf_len o topic payload) rest (record {
      topic = take (topic_cut topic) (topic ++ payload);
      payload = drop (topic_cut topic) (topic ++ payload);
    })
publish-ReadsBack buf buf_len o topic payload rest fits small total x =
    let body : List ℕ = publish_body topic payload in
    let same = sent-packet body 0x30 (length buf) (encode_publish buf buf_len o topic payload) x in
    record {
      left = x.left;
      header = header_of 0x30 body;
      encoded = x.encoded;
      framed = rw same (decode_fixed_header-packet 0x30 body rest valid_publish small);
      measured = sym (x.counted ∙ packet_measure 0x30 body);
      decoded = rw same (
          decode_publish-packet 0x30 topic payload rest refl small
            (omega (arith, length-packet 0x30 body)));
    }

-- The message fits: its packet fits the buffer, and its remaining length the four bytes for it.
abbrev pub PublishFits : ℕ → List ℕ → List ℕ → Type 0
PublishFits buf_len topic payload =
    (5 + length (publish_body topic payload) ≤ buf_len)
    × (length (publish_body topic payload) < 128 ^ 4)

module _ (buf : List ℕ) (buf_len o : ℕ) (topic payload rest : List ℕ)
    (fits : IsAddressable buf_len (length buf) (publish_body topic payload))
    (room : PublishFits buf_len topic payload)
    (total : length (publish_body topic payload) + 5 + length rest < size_mod) where
  ReadsBack-cut : ReadsBack (encode_publish buf buf_len o topic payload) rest (record {
    topic = take (topic_cut topic) (topic ++ payload);
    payload = drop (topic_cut topic) (topic ++ payload);
  })
  ReadsBack-cut = elim (encode_publish-Packed buf buf_len o topic payload fits) [
    | inl (h, short, x) ↦ publish-ReadsBack buf buf_len o topic payload rest fits short total x
    | inr (full, x) ↦ absurd (omega arith)
  ]

  -- Every message whose topic is shorter than 2 ^ 16 bytes and whose packet has a body shorter than
  -- 128 ^ 4 bytes is encoded in a buffer of five bytes more than that body, or of any more, and the
  -- packet, with any bytes behind it that memory can hold, decodes to a header that states the
  -- packet's length and to that message.
  pub publish_round_trip :
      length topic < 2 ^ 16
      → ReadsBack
          (encode_publish buf buf_len o topic payload)
          rest
          (record { topic = topic; payload = payload })
  publish_round_trip short =
      subst (ReadsBack (encode_publish buf buf_len o topic payload) rest)
        (topic_whole topic payload short) ReadsBack-cut

  -- A topic of 2 ^ 16 bytes or more, whose packet has a body shorter than 128 ^ 4 bytes, is not
  -- refused in a buffer of five bytes more than that body, or of any more: the packet that the
  -- encoder leaves is read back, with any bytes behind it that memory can hold, as a message with a
  -- shorter topic than the one given.
  pub publish_long_topic :
      2 ^ 16 ≤ length topic
      → (m : Message) × ReadsBack (encode_publish buf buf_len o topic payload) rest m
        × (length m.topic < length topic)
  publish_long_topic long =
      (_, ReadsBack-cut, omega (arith, length-take (topic_cut topic) (topic ++ payload)))
