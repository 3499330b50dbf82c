-- ===== src/Client/Io/Control.antt =====
-- client_send_ping and client_send_connect of core/client.c on the stream of bytes to the broker.
use aemlib.Base.{
  ℕ, ◌/◌, ◌%◌, ◌≤◌, ◌^◌, ◌≡◌, refl, List, [], ◌∷◌, length, drop, length-drop, Bool-cases, inl, inr,
  ltb, le_of_ltb, arith, ◌⊎◌,
}
use aemlib.Base.Memory.{memcpy-append}
use aemlib.Status.Outcome.{accessing}
use aemlib.Platform.Transport.{IsSink}
use aemlib.Proto.Cursor.Emits.{Refused}
use aemlib.Proto.Encode.{encode_pingreq, encode_empty}
use aemlib.Proto.Encode.Finish.{packet, Encoded}
use aemlib.Proto.Encode.Packets.Short.{encode_connect_lem, connect_content}
use aemlib.Core.State.{Sys}
use aemlib.Core.Valid.{Good}
use aemlib.Client.Io.{client_send_ping, client_send_connect}
use aemlib.Client.Io.Packets.{Sends, sent-Sends, Refused-Sends, send_encoded-Sends}

abbrev pub pingreq : List ℕ
pingreq = 0xC0 ∷ 0 ∷ []

ping_packed :
    (buf : List ℕ) (buf_len : ℕ)
    → buf_len ≤ length buf
    → ((2 ≤ buf_len) × Encoded pingreq (length buf) (encode_pingreq buf buf_len 0))
      ⊎ Refused (length buf) 0 (encode_pingreq buf buf_len 0)
unfolding encode_pingreq encode_empty
ping_packed buf buf_len room = elim (Bool-cases (ltb buf_len 2)) [
  | inl short ↦
      rw short (inr (record { left = _; refused = refl; same_size = refl; same_out_len = refl }))
  | inr fits ↦
      let two = le_of_ltb buf_len 2 fits in
      let first = memcpy-append [] buf (0xC0 ∷ []) 0 refl (omega (arith, two)) in
      let second =
        memcpy-append (0xC0 ∷ []) (drop 1 buf) (0 ∷ []) 1 refl
          (omega (arith, two, length-drop 1 buf)) in
      rw (fits, first, accessing, second)
        (inl (
          two,
          record {
            left = _;
            tail = drop 1 (drop 1 buf);
            encoded = refl;
            layout = refl;
            same_size = omega (arith, two, length-drop 1 buf, length-drop 1 (drop 1 buf));
            counted = refl;
          },
        ))
]

module _ {W : Type 0} (wire : W → List ℕ) where
  pub client_send_ping-Sends :
      (s : Sys W)
      → Good s
      → IsSink s.client.transport wire
      → s.client.tx_pending_len ≡ 0
      → Sends wire pingreq s (client_send_ping s)
  unfolding client_send_ping
  client_send_ping-Sends s g sink clear =
      let c = s.client in
      elim (ping_packed c.tx_buffer c.tx_buffer_size g.tx_memory) [
        | inl (room, e) ↦ sent-Sends wire pingreq _ s g sink clear room e
        | inr e ↦ Refused-Sends wire pingreq (length c.tx_buffer) _ s clear e
      ]

  pub client_send_connect-Sends :
      (s : Sys W)
      → Good s
      → IsSink s.client.transport wire
      → s.client.tx_pending_len ≡ 0
      → Sends wire
          (packet 0x10 (connect_content [] (s.client.keepalive_interval_ms / 1000 % 2 ^ 16)))
          s
          (client_send_connect s)
  unfolding client_send_connect
  client_send_connect-Sends s g sink clear =
      let c = s.client in
      let keepalive_sec = c.keepalive_interval_ms / 1000 % 2 ^ 16 in
      send_encoded-Sends wire 0x10 (connect_content [] keepalive_sec) _ s g sink clear (
        encode_connect_lem c.tx_buffer c.tx_buffer_size 0 [] keepalive_sec (omega arith)
          (omega arith) (g.tx_memory, omega arith, omega (arith, g.tx_small)))
