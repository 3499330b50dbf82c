-- ===== src/Client/Io.antt =====
-- core/client.c: client_send, client_flush_pending, client_dispatch_packet, client_read,
-- client_send_connect and client_send_ping.
pub mod Safety
pub mod Sending
pub mod Stream
pub mod Drain
pub mod Control
pub mod Packets
pub mod Receive
pub mod Frame
use aemlib.Base.{ℕ, zero, suc, ◌-◌, ◌/◌, ◌%◌, [], Option, none, some, ◌==◌, ltb, if◌then◌else◌}
use aemlib.Base.Words.{add_size, sub_size, u16_mod}
use aemlib.Base.Memory.{memmove, slice}
use aemlib.Status.{status, status_ok, status_code, code_value, Layer, Code}
use aemlib.Status.Outcome.{Outcome, returned, fault, accessing, ◌>>=◌}
use aemlib.Status.Decoded.{ok, err, overrun}
use aemlib.Platform.Transport.{transport_write, is_error}
use aemlib.Proto.Packet.{FixedHeader, pkt_publish}
use aemlib.Proto.Cursor.{Cursor, too_small}
use aemlib.Proto.Header.{decode_fixed_header}
use aemlib.Proto.Decode.{Message, decode_publish}
use aemlib.Proto.Encode.{encode_connect, encode_pingreq}
use aemlib.Core.State.{Sys, Callback}
use aemlib.Core.Machine.{receive, consume, is_too_small}

abbrev pub would_block : ℕ
would_block = status Layer.io Code.would_block

module _ {W : Type 0} where
  -- What is left of `len` bytes is staged at the front of `tx_buffer`.
  unfoldable pub stage : ℕ → ℕ → Sys W → Outcome (Sys W)
  stage written len s =
      if ltb written len
      then accessing (memmove s.client.tx_buffer 0 written (len - written)) (λ tx.
        returned status_ok (record s {
          client = record s.client { tx_buffer = tx; tx_pending_len = len - written };
        }))
      else returned status_ok s

  -- client_send. Its `data` is `tx_buffer` at every call, so here it is no argument.
  unfoldable pub client_send : ℕ → Sys W → Outcome (Sys W)
  client_send len s =
      if ltb 0 s.client.tx_pending_len
      then returned would_block s
      else accessing (slice s.client.tx_buffer 0 len) (λ bytes.
        let r = transport_write s.client.transport bytes 0 s.world in
        let s' : Sys W = record s { world = r.world } in
        let blocked = status_code r.status == code_value Code.would_block in
        if is_error r.status
        then returned r.status s'
        else stage (if blocked then 0 else r.out_len) len s')

  -- The bytes that were written leave the front of `tx_buffer`.
  unfoldable pub unstage : ℕ → Sys W → Outcome (Sys W)
  unstage written s =
      let rest = sub_size s.client.tx_pending_len written in
      if ltb 0 written
      then if ltb 0 rest
        then accessing (memmove s.client.tx_buffer 0 written rest) (λ tx.
          returned status_ok
            (record s { client = record s.client { tx_buffer = tx; tx_pending_len = rest } }))
        else returned status_ok (record s { client = record s.client { tx_pending_len = rest } })
      else returned status_ok s

  unfoldable pub client_flush_pending : Sys W → Outcome (Sys W)
  client_flush_pending s =
      if s.client.tx_pending_len == 0
      then returned status_ok s
      else accessing (slice s.client.tx_buffer 0 s.client.tx_pending_len) (λ bytes.
        let r = transport_write s.client.transport bytes 0 s.world in
        let s' : Sys W = record s { world = r.world } in
        let blocked = status_code r.status == code_value Code.would_block in
        if is_error r.status
        then returned r.status s'
        else unstage (if blocked then 0 else r.out_len) s')

  -- The callback, if there is one, is given the message.
  unfoldable pub deliver : Option (Callback W) → Message → Sys W → Sys W
  deliver none m s = s
  deliver (some on_message) m s = record s { world = on_message s.world m }

  -- client_dispatch_packet: every type but PUBLISH is only logged.
  unfoldable pub client_dispatch_packet : FixedHeader → ℕ → Sys W → Outcome (Sys W)
  client_dispatch_packet header packet_len s =
      if header.type == pkt_publish
      then accessing (slice s.client.rx_buffer 0 packet_len) (λ packet.
        elim (decode_publish packet header) [
          | ok m ↦ returned status_ok (deliver s.client.on_message m s)
          | err st ↦ returned st s
          | overrun ↦ fault
        ])
      else returned status_ok s

  -- The packet that `header` starts, if it is here in full, is dispatched and taken off the buffer, and
  -- `again` goes on with the next.
  unfoldable pub handle_packet : FixedHeader → (Sys W → Outcome (Sys W)) → Sys W → Outcome (Sys W)
  handle_packet header again s =
      let packet_len = add_size header.header_size header.remaining_length in
      if ltb s.client.rx_buffer_size packet_len
      then returned too_small s
      else if ltb s.client.rx_len packet_len
      then returned status_ok s
      else (do
        s ← client_dispatch_packet header packet_len s
        accessing (consume packet_len s.client) λ client. again (record s { client = client }))

  -- The loop of client_read on fuel. A round that goes on takes a packet of two bytes or more, so
  -- `rx_len + 1` rounds are enough; running out of them counts as a fault.
  unfoldable pub process_packets : ℕ → Sys W → Outcome (Sys W)
  process_packets zero s = fault
  process_packets (suc fuel) s =
      let again = process_packets fuel in
      if s.client.rx_len == 0
      then returned status_ok s
      else accessing (slice s.client.rx_buffer 0 s.client.rx_len) (λ view.
        elim (decode_fixed_header view) [
          | ok header ↦ handle_packet header again s
          | err st ↦
              if is_too_small st
              then (if s.client.rx_len == s.client.rx_buffer_size
                  then returned too_small s
                  else returned status_ok s)
              else returned st s
          | overrun ↦ fault
        ])

  unfoldable pub client_read : Sys W → Outcome (Sys W)
  client_read = receive returned (λ s. process_packets (suc s.client.rx_len) s)

  -- The end of every operation that sends: the encoder's status is checked, and what it left in
  -- `tx_buffer` is sent.
  unfoldable pub send_encoded : Outcome Cursor → Sys W → Outcome (Sys W)
  send_encoded (returned st c) s =
      let encoded : Sys W = record s { client = record s.client { tx_buffer = c.bytes } } in
      returned st encoded >>= client_send c.out_len
  send_encoded fault s = fault

  unfoldable pub client_send_connect : Sys W → Outcome (Sys W)
  client_send_connect s =
      let c = s.client in
      let keepalive_sec = c.keepalive_interval_ms / 1000 % u16_mod in
      send_encoded (encode_connect c.tx_buffer c.tx_buffer_size 0 [] keepalive_sec) s

  unfoldable pub client_send_ping : Sys W → Outcome (Sys W)
  client_send_ping s = send_encoded (encode_pingreq s.client.tx_buffer s.client.tx_buffer_size 0) s
