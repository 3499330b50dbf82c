-- ===== src/Client/Api.antt =====
-- core/client.c, the public API. Each operation is given for a client, and then for the pointer that
-- the API takes, which may be NULL.
pub mod Safety
pub mod Reach
pub mod Stream
pub mod Polls
pub mod Opens
pub mod Frame
pub mod Outside
pub mod Moves
use aemlib.Base.{ℕ, List, [], Option, none, some, true, false, not, ◌==◌, leb, if◌then◌else◌}
use aemlib.Base.Words.{sub_size}
use aemlib.Status.{status, status_ok, Layer, Code}
use aemlib.Status.Outcome.{Outcome, returned, fault, ◌>>=◌}
use aemlib.Platform.Time.{time_now}
use aemlib.Proto.Encode.{encode_publish, encode_subscribe}
use aemlib.Core.State.{Client, Config, Sys, State}
use aemlib.Core.Config.{core_init}
use aemlib.Core.Machine.{core_connect, core_disconnect, core_poll, next_packet_id}
use aemlib.Client.Io.{
  client_flush_pending, client_read, client_send_connect, client_send_ping, send_encoded,
}

abbrev pub invalid_arg : ℕ
invalid_arg = status Layer.general Code.invalid_arg

abbrev pub api_unsupported : ℕ
api_unsupported = status Layer.general Code.unsupported

module _ {W : Type 0} where
  -- The client after `memset(client, 0, sizeof(*client))`.
  abbrev pub zeroed : Client W
  zeroed = record {
    state = State.disconnected;
    transport = record { connect = none; disconnect = none; read = none; write = none };
    time = record { now_ms = none };
    storage = record { write_record = none; read_record = none; delete_record = none };
    tx_buffer = [];
    tx_buffer_size = 0;
    rx_buffer = [];
    rx_buffer_size = 0;
    last_activity_ms = 0;
    keepalive_interval_ms = 0;
    packet_id = 0;
    connect_sent = false;
    tx_pending_len = 0;
    rx_len = 0;
    on_message = none;
  }

  -- aemlib_init
  unfoldable pub init : Option (Config W) → Sys W → Outcome (Sys W)
  init cfg s = core_init cfg (record s { client = zeroed })

  -- aemlib_connect
  unfoldable pub connect : Sys W → Outcome (Sys W)
  connect s =
      core_connect (record s { client = record s.client { tx_pending_len = 0; rx_len = 0 } })

  -- aemlib_disconnect
  unfoldable pub disconnect : Sys W → Outcome (Sys W)
  disconnect = core_disconnect

  -- aemlib_publish. Only whether `qos` is 0 matters.
  unfoldable pub publish : List ℕ → List ℕ → ℕ → Sys W → Outcome (Sys W)
  publish topic payload qos s =
      let c = s.client in
      if not (qos == 0)
      then returned api_unsupported s
      else send_encoded (encode_publish c.tx_buffer c.tx_buffer_size 0 topic payload) s

  -- aemlib_subscribe
  unfoldable pub subscribe : List ℕ → ℕ → Sys W → Outcome (Sys W)
  subscribe topic qos s =
      let c = next_packet_id s.client in
      if not (qos == 0)
      then returned api_unsupported s
      else send_encoded (encode_subscribe c.tx_buffer c.tx_buffer_size 0 c.packet_id topic)
          (record s { client = c })

  -- PINGREQ when nothing was sent for the keepalive interval.
  unfoldable pub keep_alive : Sys W → Outcome (Sys W)
  keep_alive s =
      let (now, w) = time_now s.client.time s.world in
      let s' : Sys W = record s { world = w } in
      if leb s.client.keepalive_interval_ms (sub_size now s.client.last_activity_ms)
      then (do
        s' ← client_send_ping s'
        returned status_ok (record s' { client = record s'.client { last_activity_ms = now } }))
      else returned status_ok s'

  -- CONNECT is sent once for each connection.
  unfoldable pub send_connect_once : Sys W → Outcome (Sys W)
  send_connect_once s = elim s.client.connect_sent [
    | true ↦ returned status_ok s
    | false ↦ client_send_connect s >>= λ s.
        returned status_ok (record s { client = record s.client { connect_sent = true } })
  ]

  -- The I/O that a poll does in each state.
  unfoldable pub poll_io : State → Sys W → Outcome (Sys W)
  poll_io State.mqtt_connect_sent s = send_connect_once s
  poll_io State.mqtt_connected s = do s ← client_read s; keep_alive s
  poll_io _ s = returned status_ok s

  -- aemlib_poll
  unfoldable pub poll : Sys W → Outcome (Sys W)
  poll s = do s ← client_flush_pending s; s ← core_poll s; poll_io s.client.state s

  -- A call through a pointer: NULL is refused before anything else.
  pub through : (Sys W → Outcome (Sys W)) → Option (Client W) → W → Outcome (Option (Client W) × W)
  through f none w = returned invalid_arg (none, w)
  through f (some c) w = elim (f (record { client = c; world = w })) [
    | returned st s ↦ returned st (some s.client, s.world)
    | fault ↦ fault
  ]
