-- ===== src/Client/Io/Sending.antt =====
-- core/client.c, what sends: an encoder, and client_send for what it left in tx_buffer.
use aemlib.Base.{
  ℕ, ◌+◌, ◌^◌, ◌≤◌, ◌<◌, ◌≡◌, refl, List, [], ◌∷◌, length, length-append, Bool-cases, inl, inr,
  ◌==◌, ==_iff, ltb, le_of_ltb, arith, ◌/◌, ◌%◌,
}
use aemlib.Base.Memory.{memcpy_total}
use aemlib.Status.{status_ok}
use aemlib.Status.Outcome.{Outcome, returned, fault, Ends}
use aemlib.Proto.Cursor.{Cursor}
use aemlib.Proto.RemainingLength.Encode.{digits, length-digits}
use aemlib.Proto.Encode.{
  encode_connect, encode_pingreq, encode_publish, encode_subscribe, encode_empty,
}
use aemlib.Proto.Encode.Finish.{packet}
use aemlib.Proto.Encode.Frame.{Packed}
use aemlib.Proto.Encode.Packets.{
  encode_publish-Packed, encode_subscribe-Packed, encode_connect-Packed, publish_body,
  subscribe_body, connect_body,
}
use aemlib.Core.State.{Sys}
use aemlib.Core.Valid.{Good, Safe, Good-transmit}
use aemlib.Client.Io.{send_encoded, client_send_connect, client_send_ping}
use aemlib.Client.Io.Safety.{client_send-Safe}

-- What an encoder leaves may be sent: the memory keeps its size, and the packet lies in the buffer.
abbrev pub Sendable : ℕ → ℕ → Outcome Cursor → Type 0
Sendable buf_len size r =
    Ends (λ st c. (length c.bytes ≡ size) × (st ≡ status_ok → c.out_len ≤ buf_len)) r

pub Packed-fits : (first : ℕ) (body : List ℕ) → length (packet first body) ≤ 5 + length body
unfolding packet
Packed-fits first body =
    omega (arith, length-append (digits 3 (length body)) body, length-digits 3 (length body))

Packed-Sendable :
    (buf_len first size o : ℕ) (body : List ℕ) (r : Outcome Cursor)
    → Packed buf_len first body size o r
    → Sendable buf_len size r
Packed-Sendable buf_len first size o body r (inl (room, small, e)) =
    rw e.encoded (e.same_size, λ _. omega (arith, e.counted, Packed-fits first body))
Packed-Sendable buf_len first size o body r (inr (why, e)) =
    rw e.refused (e.same_size, λ ok. absurd (omega (arith, ok)))

pingreq-Sendable :
    (buf : List ℕ) (buf_len o : ℕ)
    → buf_len ≤ length buf
    → Sendable buf_len (length buf) (encode_pingreq buf buf_len o)
unfolding encode_pingreq encode_empty
pingreq-Sendable buf buf_len o room = elim (Bool-cases (ltb buf_len 2)) [
  | inl short ↦ rw short (refl, λ ok. absurd (omega (arith, ok)))
  | inr fits ↦
      let (typed, e, same) =
        memcpy_total buf 0 (0xC0 ∷ []) (omega (arith, le_of_ltb buf_len 2 fits)) in
      let (out, e', same') =
        memcpy_total typed 1 (0 ∷ []) (omega (arith, le_of_ltb buf_len 2 fits)) in
      rw (fits, e, e') (omega arith, λ _. omega (arith, le_of_ltb buf_len 2 fits))
]

module _ {W : Type 0} where
  send_encoded-Safe :
      (r : Outcome Cursor) (s : Sys W)
      → Good s
      → Sendable s.client.tx_buffer_size (length s.client.tx_buffer) r
      → Safe (send_encoded r s)
  unfolding send_encoded
  send_encoded-Safe fault s g (h) = h
  send_encoded-Safe (returned st c) s g (same, fits) =
      let encoded : Sys W = record s { client = record s.client { tx_buffer = c.bytes } } in
      let good : Good encoded =
        Good-transmit s c.bytes s.client.tx_pending_len s.world g same g.pending_in in
      elim (Bool-cases (st == status_ok)) [
        | inl ok ↦
            rw ok (client_send-Safe c.out_len encoded good (fits ((==_iff st status_ok).0 ok)))
        | inr bad ↦ rw bad good
      ]

  pub client_send_ping-Safe : (s : Sys W) → Good s → Safe (client_send_ping s)
  unfolding client_send_ping
  client_send_ping-Safe s g =
      send_encoded-Safe _ s g
        (pingreq-Sendable s.client.tx_buffer s.client.tx_buffer_size 0 g.tx_memory)

  pub client_send_connect-Safe : (s : Sys W) → Good s → Safe (client_send_connect s)
  unfolding client_send_connect
  client_send_connect-Safe s g =
      let c = s.client in
      let keepalive_sec = c.keepalive_interval_ms / 1000 % 2 ^ 16 in
      send_encoded-Safe (encode_connect c.tx_buffer c.tx_buffer_size 0 [] keepalive_sec) s g (
        Packed-Sendable c.tx_buffer_size 0x10 (length c.tx_buffer) 0 (connect_body [] keepalive_sec)
          _
          (encode_connect-Packed c.tx_buffer c.tx_buffer_size 0 [] keepalive_sec
            (g.tx_memory, omega arith, omega (arith, g.tx_small))))

  -- The body that is sent fits a uint32_t.
  pub send_publish-Safe :
      (topic payload : List ℕ) (s : Sys W)
      → Good s
      → 2 + length topic + length payload < 2 ^ 32
      → Safe (
          send_encoded
            (encode_publish s.client.tx_buffer s.client.tx_buffer_size 0 topic payload)
            s)
  send_publish-Safe topic payload s g small =
      let c = s.client in
      let size = length-append topic payload in
      send_encoded-Safe _ s g (
        Packed-Sendable c.tx_buffer_size 0x30 (length c.tx_buffer) 0 (publish_body topic payload) _
          (encode_publish-Packed c.tx_buffer c.tx_buffer_size 0 topic payload
            (g.tx_memory, omega (arith, size), omega (arith, g.tx_small, size))))

  pub send_subscribe-Safe :
      (id : ℕ) (topic : List ℕ) (s : Sys W)
      → Good s
      → 5 + length topic < 2 ^ 32
      → Safe
          (send_encoded (encode_subscribe s.client.tx_buffer s.client.tx_buffer_size 0 id topic) s)
  send_subscribe-Safe id topic s g small =
      let c = s.client in
      let size = length-append topic (0 ∷ []) in
      send_encoded-Safe _ s g (
        Packed-Sendable c.tx_buffer_size 0x82 (length c.tx_buffer) 0 (subscribe_body id topic) _ (
          encode_subscribe-Packed c.tx_buffer c.tx_buffer_size 0 id topic
            (g.tx_memory, omega (arith, size), omega (arith, g.tx_small, size))))
