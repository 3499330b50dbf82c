-- ===== src/Client/Api/Safety.antt =====
-- The public API of core/client.c on any client that satisfies the invariant: memory and fuel.
use aemlib.Base.{
  ℕ, ◌+◌, ◌^◌, ◌<◌, List, length, Bool-cases, inl, inr, ◌==◌, arith, Bool, true, false, not, leb,
}
use aemlib.Base.Words.{sub_size}
use aemlib.Platform.Time.{time_now}
use aemlib.Status.{status_ok}
use aemlib.Status.Outcome.{returned, ◌>>=◌}
use aemlib.Core.State.{
  Sys, State, disconnected, connecting, mqtt_connect_sent, mqtt_connected, mqtt_disconnecting,
}
use aemlib.Core.Valid.{Good, Safe, Safe-bind, Good-world}
use aemlib.Core.Machine.{next_packet_id}
use aemlib.Core.Machine.Safety.{
  core_connect-Safe, core_disconnect-Safe, core_poll-Safe, next_packet_id-Good,
}
use aemlib.Client.Io.{client_send_connect}
use aemlib.Client.Io.Safety.{client_flush_pending-Safe, client_read-Safe}
use aemlib.Client.Io.Sending.{
  client_send_connect-Safe, client_send_ping-Safe, send_publish-Safe, send_subscribe-Safe,
}
use aemlib.Client.Api.{
  connect, disconnect, publish, subscribe, keep_alive, send_connect_once, poll_io, poll,
}

module _ {W : Type 0} where
  -- The fields that the invariant does not read, and the buffers emptied.
  Good-last_activity :
      (s : Sys W) (now : ℕ)
      → Good s
      → Good (record s { client = record s.client { last_activity_ms = now } })
  Good-last_activity s now g = assumption

  Good-connect_sent :
      (s : Sys W) → Good s → Good (record s { client = record s.client { connect_sent = true } })
  Good-connect_sent s g = assumption

  Good-reset :
      (s : Sys W)
      → Good s
      → Good (record s { client = record s.client { tx_pending_len = 0; rx_len = 0 } })
  Good-reset s g = record {
    tx_memory = g.tx_memory;
    rx_memory = g.rx_memory;
    tx_small = g.tx_small;
    rx_small = g.rx_small;
    pending_in = omega arith;
    received_in = omega arith;
    rx_bytes = g.rx_bytes;
    id_positive = g.id_positive;
    id_small = g.id_small;
    law = g.law;
  }

  keep_alive-Safe : (s : Sys W) → Good s → Safe (keep_alive s)
  unfolding keep_alive
  keep_alive-Safe s g =
      let (now, w) = time_now s.client.time s.world in
      elim (Bool-cases
        (leb s.client.keepalive_interval_ms (sub_size now s.client.last_activity_ms))) [
          | inr early ↦ rw early (Good-world s w g)
          | inl due ↦ rw due (
              Safe-bind _ _ (client_send_ping-Safe (record s { world = w }) (Good-world s w g))
                (λ s' g'. Good-last_activity s' now g'))
        ]

  send_connect_once-Safe : (s : Sys W) → Good s → Safe (send_connect_once s)
  unfolding send_connect_once
  send_connect_once-Safe s g = once s.client.connect_sent
    where
      once :
          (sent : Bool)
          → Safe (elim sent [
            | true ↦ returned status_ok s
            | false ↦ client_send_connect s >>= λ s.
                returned status_ok (record s { client = record s.client { connect_sent = true } })
          ])
      once true = g
      once false = Safe-bind _ _ (client_send_connect-Safe s g) Good-connect_sent

  poll_io-Safe : (st : State) (s : Sys W) → Good s → Safe (poll_io st s)
  unfolding poll_io
  poll_io-Safe disconnected s g = g
  poll_io-Safe connecting s g = g
  poll_io-Safe mqtt_connect_sent s g = send_connect_once-Safe s g
  poll_io-Safe mqtt_connected s g = Safe-bind _ _ (client_read-Safe s g) keep_alive-Safe
  poll_io-Safe mqtt_disconnecting s g = g

  pub poll-Safe : (s : Sys W) → Good s → Safe (poll s)
  unfolding poll
  poll-Safe s g =
      Safe-bind _ _ (client_flush_pending-Safe s g)
        (λ s g. Safe-bind _ _ (core_poll-Safe s g) (λ s. poll_io-Safe s.client.state s))

  pub connect-Safe : (s : Sys W) → Good s → Safe (connect s)
  unfolding connect
  connect-Safe s g =
      core_connect-Safe (record s { client = record s.client { tx_pending_len = 0; rx_len = 0 } })
        (Good-reset s g)

  pub disconnect-Safe : (s : Sys W) → Good s → Safe (disconnect s)
  unfolding disconnect
  disconnect-Safe = core_disconnect-Safe

  pub publish-Safe :
      (topic payload : List ℕ) (qos : ℕ) (s : Sys W)
      → Good s
      → 2 + length topic + length payload < 2 ^ 32
      → Safe (publish topic payload qos s)
  unfolding publish
  publish-Safe topic payload qos s g small = elim (Bool-cases (not (qos == 0))) [
    | inl unsupported ↦ rw unsupported g
    | inr zero_qos ↦ rw zero_qos (send_publish-Safe topic payload s g small)
  ]

  pub subscribe-Safe :
      (topic : List ℕ) (qos : ℕ) (s : Sys W)
      → Good s
      → 5 + length topic < 2 ^ 32
      → Safe (subscribe topic qos s)
  unfolding subscribe
  subscribe-Safe topic qos s g small = elim (Bool-cases (not (qos == 0))) [
    | inl unsupported ↦ rw unsupported g
    | inr zero_qos ↦ rw zero_qos (
        send_subscribe-Safe (next_packet_id s.client).packet_id topic
          (record s { client = next_packet_id s.client }) (next_packet_id-Good s g) small)
  ]
