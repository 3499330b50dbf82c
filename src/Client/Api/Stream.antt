-- ===== src/Client/Api/Stream.antt =====
-- The packets that aemlib_publish, aemlib_subscribe and the keepalive of core/client.c put into the
-- stream of bytes to the broker, and what becomes of bytes that are still pending.
use aemlib.Base.{
  ℕ, ◌+◌, ◌≤◌, ◌<◌, ◌^◌, ◌≡◌, sym, subst, List, [], ◌∷◌, append-nil, length, take, length-append,
  Bool-cases, inl, inr, ◌==◌, arith, not,
}
use aemlib.Status.Outcome.{Ends}
use aemlib.Platform.Transport.{IsSink}
use aemlib.Proto.Encode.Finish.{packet}
use aemlib.Proto.Encode.Packets.{encode_publish-Packed, publish_body}
use aemlib.Proto.Encode.Packets.Short.{
  publish_content, subscribe_content, encode_publish_lem, encode_subscribe_lem,
}
use aemlib.Core.State.{Client, Sys}
use aemlib.Core.Machine.{next_packet_id}
use aemlib.Core.Machine.Safety.{next_packet_id-Good, next_packet_id-frame}
use aemlib.Core.Valid.{Good}
use aemlib.Client.Io.{would_block}
use aemlib.Client.Io.Packets.{Sends, send_encoded-Sends, send_encoded-overwrites}
use aemlib.Client.Io.Stream.{pending}
use aemlib.Client.Api.{publish, subscribe}

next_packet_id_small : {W : Type 0} (c : Client W) → (next_packet_id c).packet_id < 2 ^ 16
unfolding next_packet_id
next_packet_id_small c = ground arith

module _ {W : Type 0} (wire : W → List ℕ) where
  -- On a client in the invariant with nothing pending, and with a topic shorter than 2 ^ 16 bytes
  -- that together with the payload is smaller than 4 GiB, aemlib_publish appends one PUBLISH packet
  -- of MQTT 3.1.1, of QoS 0 and with the topic and the payload, to the stream of bytes to the
  -- broker if it returns OK, and nothing otherwise.
  pub publish-Sends :
      (topic payload : List ℕ) (qos : ℕ) (s : Sys W)
      → Good s
      → IsSink s.client.transport wire
      → s.client.tx_pending_len ≡ 0
      → length topic < 2 ^ 16
      → 2 + length topic + length payload < 2 ^ 32
      → Sends wire (packet 0x30 (publish_content topic payload)) s (publish topic payload qos s)
  unfolding publish
  publish-Sends topic payload qos s g sink clear short small = elim (Bool-cases (not (qos == 0))) [
    | inl unsupported ↦ rw unsupported (sym (append-nil _))
    | inr zero_qos ↦
        let c = s.client in
        let size = length-append topic payload in
        rw zero_qos (
          send_encoded-Sends wire 0x30 (publish_content topic payload) _ s g sink clear (
            encode_publish_lem c.tx_buffer c.tx_buffer_size 0 topic payload short
              (g.tx_memory, omega (arith, size), omega (arith, g.tx_small, size))))
  ]

  -- On a client in the invariant with nothing pending, and with a topic shorter than 2 ^ 16 bytes,
  -- aemlib_subscribe appends one SUBSCRIBE packet of MQTT 3.1.1, of the next packet identifier and
  -- the topic with QoS 0, to the stream of bytes to the broker if it returns OK, and nothing
  -- otherwise.
  pub subscribe-Sends :
      (topic : List ℕ) (qos : ℕ) (s : Sys W)
      → Good s
      → IsSink s.client.transport wire
      → s.client.tx_pending_len ≡ 0
      → length topic < 2 ^ 16
      → Sends wire
          (packet 0x82 (subscribe_content (next_packet_id s.client).packet_id topic))
          s
          (subscribe topic qos s)
  unfolding subscribe
  subscribe-Sends topic qos s g sink clear short = elim (Bool-cases (not (qos == 0))) [
    | inl unsupported ↦ rw unsupported (sym (append-nil _))
    | inr zero_qos ↦
        let c = next_packet_id s.client in
        let size = length-append topic (0 ∷ []) in
        let s' : Sys W = record s { client = record s.client { packet_id = c.packet_id } } in
        let g' : Good s' =
          subst (λ c. Good (record s { client = c })) (next_packet_id-frame s.client)
            (next_packet_id-Good s g) in
        rw (zero_qos, next_packet_id-frame s.client)
          (send_encoded-Sends wire 0x82 (subscribe_content c.packet_id topic) _ s' g' sink clear (
            encode_subscribe_lem s.client.tx_buffer s.client.tx_buffer_size 0 c.packet_id topic
              (next_packet_id_small s.client) short
              (g.tx_memory, omega (arith, size), omega (arith, g.tx_small, size))))
  ]

module _ {W : Type 0} where
  -- On a client in the invariant with bytes pending, when the body of the packet is shorter than
  -- 128 ^ 4 bytes and five bytes more than it fit the buffer, and the packet is not shorter than
  -- what is pending, aemlib_publish returns WOULD_BLOCK and sends nothing, but the bytes that were
  -- pending are lost: the front of the new packet, as the encoder writes it, stands in their place,
  -- for the next flush to send.
  pub publish-overwrites :
      (topic payload : List ℕ) (s : Sys W)
      → Good s
      → 0 < s.client.tx_pending_len
      → s.client.tx_pending_len ≤ length (packet 0x30 (publish_body topic payload))
      → 5 + length (publish_body topic payload) ≤ s.client.tx_buffer_size
      → length (publish_body topic payload) < 128 ^ 4
      → Ends
          (λ st s'.
            (st ≡ would_block)
            × (s'.world ≡ s.world)
            × (pending s'.client
                ≡ take s.client.tx_pending_len (packet 0x30 (publish_body topic payload))))
          (publish topic payload 0 s)
  unfolding publish
  publish-overwrites topic payload s g busy h room small =
      let c = s.client in
      elim (encode_publish-Packed c.tx_buffer c.tx_buffer_size 0 topic payload
        (g.tx_memory, omega arith, omega (arith, g.tx_small))) [
          | inl (_, _, e) ↦
              send_encoded-overwrites (packet 0x30 (publish_body topic payload)) _ s busy h e
          | inr (why, _) ↦ absurd (omega (arith, why))
        ]
