-- ===== src/Core/Machine.antt =====
-- core/core.c: aemlib_core_poll and the handlers of the states, aemlib_core_connect,
-- aemlib_core_disconnect and aemlib_core_next_packet_id. Log messages are left out.
pub mod Safety
pub mod Inbox
pub mod Handshake
pub mod Steps
pub mod Requests
pub mod Ids
pub mod Timeout
pub mod Frame
use aemlib.Base.{ℕ, ◌+◌, ◌%◌, Option, none, some, Bool, false, not, ◌==◌, ltb, leb, if◌then◌else◌}
use aemlib.Base.Words.{add_size, sub_size, u16_mod}
use aemlib.Base.Memory.{memcpy, memmove, slice}
use aemlib.Status.{status, status_ok, status_code, code_value, Layer, Code}
use aemlib.Status.Outcome.{Outcome, returned, fault, accessing}
use aemlib.Status.Decoded.{ok, err, overrun}
use aemlib.Platform.Transport.{transport_connect, transport_disconnect, transport_read, is_error}
use aemlib.Platform.Time.{time_now}
use aemlib.Proto.Packet.{FixedHeader, pkt_connack}
use aemlib.Proto.Cursor.{too_small}
use aemlib.Proto.Header.{decode_fixed_header, protocol_error}
use aemlib.Proto.Decode.{decode_connack}
use aemlib.Core.State.{Client, Sys, State}

-- AEMLIB_CORE_CONNACK_TIMEOUT_MS
abbrev pub connack_timeout_ms : ℕ
connack_timeout_ms = 5000

abbrev pub state_invalid : ℕ
state_invalid = status Layer.general Code.state_invalid

abbrev pub connect_refused : ℕ
connect_refused = status Layer.protocol Code.connect

abbrev pub timed_out : ℕ
timed_out = status Layer.general Code.timeout

abbrev pub is_too_small : ℕ → Bool
is_too_small st = status_code st == code_value Code.buffer_too_small

module _ {W : Type 0} where
  unfoldable pub connect_in : State → Sys W → Outcome (Sys W)
  connect_in State.disconnected s =
      returned status_ok
        (record s { client = record s.client { state = State.connecting; connect_sent = false } })
  connect_in _ s = returned state_invalid s

  -- aemlib_core_connect
  unfoldable pub core_connect : Sys W → Outcome (Sys W)
  core_connect s = connect_in s.client.state s

  unfoldable pub disconnect_in : State → Sys W → Outcome (Sys W)
  disconnect_in State.mqtt_connected s =
      returned status_ok
        (record s { client = record s.client { state = State.mqtt_disconnecting } })
  disconnect_in _ s = returned state_invalid s

  -- aemlib_core_disconnect
  unfoldable pub core_disconnect : Sys W → Outcome (Sys W)
  core_disconnect s = disconnect_in s.client.state s

  -- aemlib_core_next_packet_id: the client with its new counter, which is also the result.
  unfoldable pub next_packet_id : Client W → Client W
  next_packet_id client =
      let next = (client.packet_id + 1) % u16_mod in
      record client { packet_id = if next == 0 then 1 else next }

  -- The transport is dropped, its status ignored, and `st` returned.
  unfoldable pub drop_connection : ℕ → Sys W → Outcome (Sys W)
  drop_connection st s =
      let (_, w) = transport_disconnect s.client.transport s.world in
      returned st (record { client = record s.client { state = State.disconnected }; world = w })

  -- handle_state_connecting
  unfoldable pub handle_connecting : Sys W → Outcome (Sys W)
  handle_connecting s =
      let (st, w) = transport_connect s.client.transport s.world in
      let (now, w') = time_now s.client.time w in
      if st == status_ok
      then returned status_ok (record {
        client = record s.client { state = State.mqtt_connect_sent; last_activity_ms = now };
        world = w';
      })
      else if status_code st == code_value Code.would_block
      then returned status_ok (record s { world = w })
      else returned st
          (record { client = record s.client { state = State.disconnected }; world = w })

  -- A read into the free end of `rx_buffer`, as handle_state_mqtt_connect_sent and client_read start:
  -- what follows an error, and what follows the rest.
  unfoldable pub receive :
      (ℕ → Sys W → Outcome (Sys W)) → (Sys W → Outcome (Sys W)) → Sys W → Outcome (Sys W)
  receive failed received s =
      let c = s.client in
      let r = transport_read c.transport (sub_size c.rx_buffer_size c.rx_len) 0 s.world in
      let read = if status_code r.status == code_value Code.would_block then 0 else r.out_len in
      accessing (memcpy c.rx_buffer c.rx_len r.stored) λ rx.
        if is_error r.status
        then failed r.status (record { client = record c { rx_buffer = rx }; world = r.world })
        else received (record {
          client = record c { rx_buffer = rx; rx_len = add_size c.rx_len read };
          world = r.world;
        })

  -- A packet is taken off the front of `rx_buffer`, and what follows it is moved down.
  unfoldable pub consume : ℕ → Client W → Option (Client W)
  consume packet_len c =
      let rest = sub_size c.rx_len packet_len in
      if ltb 0 rest
      then elim (memmove c.rx_buffer 0 packet_len rest) [
        | none ↦ none
        | some rx ↦ some (record c { rx_buffer = rx; rx_len = rest })
      ]
      else some (record c { rx_len = rest })

  unfoldable pub check_timeout : Sys W → Outcome (Sys W)
  check_timeout s =
      let (now, w) = time_now s.client.time s.world in
      if leb connack_timeout_ms (sub_size now s.client.last_activity_ms)
      then drop_connection timed_out (record s { world = w })
      else returned status_ok (record s { world = w })

  -- The CONNACK was accepted.
  abbrev pub establish : Sys W → Outcome (Sys W)
  establish s =
      let (now, w) = time_now s.client.time s.world in
      returned status_ok (record {
        client = record s.client { state = State.mqtt_connected; last_activity_ms = now };
        world = w;
      })

  unfoldable pub take_connack : ℕ → Sys W → Outcome (Sys W)
  take_connack packet_len s = accessing (slice s.client.rx_buffer 0 packet_len) λ packet.
      accessing (consume packet_len s.client) λ client.
        let s' : Sys W = record s { client = client } in
        elim (decode_connack packet) [
          | ok connack ↦
              if connack.return_code == 0 then establish s' else drop_connection connect_refused s'
          | err st ↦ drop_connection connect_refused s'
          | overrun ↦ fault
        ]

  unfoldable pub handle_header : FixedHeader → Sys W → Outcome (Sys W)
  handle_header header s =
      let packet_len = add_size header.header_size header.remaining_length in
      if not (header.type == pkt_connack)
      then drop_connection protocol_error s
      else if ltb s.client.rx_buffer_size packet_len
      then drop_connection too_small s
      else if leb packet_len s.client.rx_len
      then take_connack packet_len s
      else check_timeout s

  unfoldable pub await_connack : Sys W → Outcome (Sys W)
  await_connack s =
      if ltb 0 s.client.rx_len
      then accessing (slice s.client.rx_buffer 0 s.client.rx_len) (λ view.
        elim (decode_fixed_header view) [
          | ok header ↦ handle_header header s
          | err st ↦ if is_too_small st then check_timeout s else drop_connection st s
          | overrun ↦ fault
        ])
      else check_timeout s

  -- handle_state_mqtt_connect_sent
  unfoldable pub handle_connect_sent : Sys W → Outcome (Sys W)
  handle_connect_sent = receive drop_connection await_connack

  -- handle_state_disconnected, handle_state_mqtt_connected and handle_state_mqtt_disconnecting
  abbrev handle_disconnected : Sys W → Outcome (Sys W)
  handle_disconnected s = returned status_ok s

  abbrev handle_connected : Sys W → Outcome (Sys W)
  handle_connected s = returned status_ok s

  abbrev handle_disconnecting : Sys W → Outcome (Sys W)
  handle_disconnecting s = drop_connection status_ok s

  -- aemlib_core_poll
  unfoldable pub poll_in : State → Sys W → Outcome (Sys W)
  poll_in State.disconnected s = handle_disconnected s
  poll_in State.connecting s = handle_connecting s
  poll_in State.mqtt_connect_sent s = handle_connect_sent s
  poll_in State.mqtt_connected s = handle_connected s
  poll_in State.mqtt_disconnecting s = handle_disconnecting s

  unfoldable pub core_poll : Sys W → Outcome (Sys W)
  core_poll s = poll_in s.client.state s
