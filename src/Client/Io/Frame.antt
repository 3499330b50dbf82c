-- ===== src/Client/Io/Frame.antt =====
-- The I/O of core/client.c keeps every property of a client and its world that the steps it is made of keep.
use aemlib.Base.{
  ℕ, zero, suc, ◌-◌, ◌≡◌, refl, List, Option, none, some, Bool-cases, inl, inr, ◌==◌, ltb,
}
use aemlib.Base.Memory.{memmove, slice}
use aemlib.Base.Words.{add_size, sub_size}
use aemlib.Status.Outcome.{Outcome, returned, fault, Whenever-accessing}
use aemlib.Status.Decoded.{Decoded-cases}
use aemlib.Platform.Transport.{is_error, transport_write}
use aemlib.Proto.Packet.{FixedHeader, pkt_publish}
use aemlib.Proto.Cursor.{Cursor}
use aemlib.Proto.Header.{decode_fixed_header}
use aemlib.Proto.Decode.{Message, decode_publish}
use aemlib.Core.State.{Sys, Callback}
use aemlib.Core.Stable.{IsStable, Keeps, Keeps-bind}
use aemlib.Core.Machine.{consume, is_too_small}
use aemlib.Core.Machine.Inbox.{consume-frame, receive-read}
use aemlib.Core.Machine.Frame.{filled}
use aemlib.Client.Io.{
  stage, client_send, unstage, client_flush_pending, deliver, client_dispatch_packet, handle_packet,
  process_packets, client_read, send_encoded, client_send_connect, client_send_ping,
}

module _ {W : Type 0} (J : Sys W → Type 0) (stable : IsStable J) where
  sent :
      (s : Sys W) (w : W) (tx : List ℕ) (n : ℕ)
      → J (record s { world = w })
      → J (record { client = record s.client { tx_buffer = tx; tx_pending_len = n }; world = w })
  sent s w tx n j =
      stable.buffers (record s { world = w }) tx s.client.rx_buffer n s.client.rx_len j

  stage-Keeps : (written len : ℕ) (s : Sys W) → J s → Keeps J (stage written len s)
  unfolding stage
  stage-Keeps written len s j = elim (Bool-cases (ltb written len)) [
    | inl part ↦ rw part (
        Whenever-accessing _ (memmove s.client.tx_buffer 0 written (len - written)) _
          (λ tx e. sent s s.world tx _ j))
    | inr all ↦ rw all j
  ]

  pub client_send-Keeps : (len : ℕ) (s : Sys W) → J s → Keeps J (client_send len s)
  unfolding client_send
  client_send-Keeps len s j = elim (Bool-cases (ltb 0 s.client.tx_pending_len)) [
    | inl busy ↦ rw busy j
    | inr clear ↦ rw clear (
        Whenever-accessing _ (slice s.client.tx_buffer 0 len) _ (λ bytes e.
          elim (Bool-cases (is_error (transport_write s.client.transport bytes 0 s.world).status)) [
            | inl bad ↦ rw bad (stable.writes s bytes j)
            | inr good ↦ rw good (stage-Keeps _ len _ (stable.writes s bytes j))
          ]))
  ]

  unstage-Keeps : (written : ℕ) (s : Sys W) → J s → Keeps J (unstage written s)
  unfolding unstage
  unstage-Keeps written s j =
      let rest : ℕ = sub_size s.client.tx_pending_len written in
      elim (Bool-cases (ltb 0 written)) [
        | inr none_out ↦ rw none_out j
        | inl some_out ↦ rw some_out (elim (Bool-cases (ltb 0 rest)) [
          | inl part ↦ rw part (
              Whenever-accessing _ (memmove s.client.tx_buffer 0 written rest) _
                (λ tx e. sent s s.world tx _ j))
          | inr all ↦ rw all (sent s s.world s.client.tx_buffer rest j)
        ])
      ]

  pub client_flush_pending-Keeps : (s : Sys W) → J s → Keeps J (client_flush_pending s)
  unfolding client_flush_pending
  client_flush_pending-Keeps s j = elim (Bool-cases (s.client.tx_pending_len == 0)) [
    | inl clear ↦ rw clear j
    | inr some_left ↦ rw some_left (
        Whenever-accessing _ (slice s.client.tx_buffer 0 s.client.tx_pending_len) _ (λ bytes e.
          elim (Bool-cases (is_error (transport_write s.client.transport bytes 0 s.world).status)) [
            | inl bad ↦ rw bad (stable.writes s bytes j)
            | inr good ↦ rw good (unstage-Keeps _ _ (stable.writes s bytes j))
          ]))
  ]

  deliver-Keeps :
      (f : Option (Callback W)) (m : Message) (s : Sys W)
      → s.client.on_message ≡ f
      → J s
      → J (deliver f m s)
  unfolding deliver
  deliver-Keeps none m s e j = j
  deliver-Keeps (some f) m s e j = stable.delivers s f m e j

  dispatch-Keeps :
      (h : FixedHeader) (n : ℕ) (s : Sys W) → J s → Keeps J (client_dispatch_packet h n s)
  unfolding client_dispatch_packet
  dispatch-Keeps h n s j = elim (Bool-cases (h.type == pkt_publish)) [
    | inr other ↦ rw other j
    | inl publish ↦ rw publish (
        Whenever-accessing _ (slice s.client.rx_buffer 0 n) _ (λ packet e.
          elim (Decoded-cases (decode_publish packet h)) [
            | inl (m, d) ↦ rw d (deliver-Keeps s.client.on_message m s refl j)
            | inr (inl (st, d)) ↦ rw d j
            | inr (inr d) ↦ rw d tt
          ]))
  ]

  handle-Keeps :
      (h : FixedHeader) (again : Sys W → Outcome (Sys W)) (s : Sys W)
      → ((s : Sys W) → J s → Keeps J (again s))
      → J s
      → Keeps J (handle_packet h again s)
  unfolding handle_packet
  handle-Keeps h again s go j =
      let n : ℕ = add_size h.header_size h.remaining_length in
      elim (Bool-cases (ltb s.client.rx_buffer_size n)) [
        | inl large ↦ rw large j
        | inr fits ↦ rw fits (elim (Bool-cases (ltb s.client.rx_len n)) [
          | inl short ↦ rw short j
          | inr full ↦ rw full (
              Keeps-bind J (client_dispatch_packet h n s) _ (dispatch-Keeps h n s j) (λ s j.
                Whenever-accessing _ (consume n s.client) _ (λ c e.
                  go (record s { client = c })
                    (consume-frame (λ c. J (record s { client = c })) n s.client c e
                      (λ rx m.
                        stable.buffers s s.client.tx_buffer rx s.client.tx_pending_len m j)))))
        ])
      ]

  process_packets-Keeps : (fuel : ℕ) (s : Sys W) → J s → Keeps J (process_packets fuel s)
  unfolding process_packets
  process_packets-Keeps zero s j = tt
  process_packets-Keeps (suc fuel) s j = elim (Bool-cases (s.client.rx_len == 0)) [
    | inl empty ↦ rw empty j
    | inr more ↦ rw more (
        Whenever-accessing _ (slice s.client.rx_buffer 0 s.client.rx_len) _ (λ view e.
          elim (Decoded-cases (decode_fixed_header view)) [
            | inl (header, d) ↦
                rw d (handle-Keeps header (process_packets fuel) s (process_packets-Keeps fuel) j)
            | inr (inl (st, d)) ↦ rw d (elim (Bool-cases (is_too_small st)) [
              | inr bad ↦ rw bad j
              | inl short ↦
                  rw short (elim (Bool-cases (s.client.rx_len == s.client.rx_buffer_size)) [
                    | inl full ↦ rw full j
                    | inr room ↦ rw room j
                  ])
            ])
            | inr (inr d) ↦ rw d tt
          ]))
  ]

  pub client_read-Keeps : (s : Sys W) → J s → Keeps J (client_read s)
  unfolding client_read
  client_read-Keeps s j =
      receive-read returned (λ s. process_packets (suc s.client.rx_len) s) (λ st s. J s) s
        (λ st rx n. filled J stable s rx n j)
        (λ rx n. process_packets-Keeps _ _ (filled J stable s rx n j))

  pub send_encoded-Keeps : (r : Outcome Cursor) (s : Sys W) → J s → Keeps J (send_encoded r s)
  unfolding send_encoded
  send_encoded-Keeps fault s j = tt
  send_encoded-Keeps (returned st c) s j =
      let encoded : Sys W = record s { client = record s.client { tx_buffer = c.bytes } } in
      Keeps-bind J (returned st encoded) (client_send c.out_len)
        (sent s s.world c.bytes s.client.tx_pending_len j) (client_send-Keeps c.out_len)

  pub client_send_connect-Keeps : (s : Sys W) → J s → Keeps J (client_send_connect s)
  unfolding client_send_connect
  client_send_connect-Keeps s j = send_encoded-Keeps _ s j

  pub client_send_ping-Keeps : (s : Sys W) → J s → Keeps J (client_send_ping s)
  unfolding client_send_ping
  client_send_ping-Keeps s j = send_encoded-Keeps _ s j
