-- ===== src/Client/Api/Frame.antt =====
-- The calls of the API of core/client.c keep every property that the steps they are made of keep.
use aemlib.Base.{ℕ, List, ◌==◌, not, Bool-cases, inl, inr, leb, Bool, true, false}
use aemlib.Base.Words.{sub_size}
use aemlib.Status.{status_ok}
use aemlib.Status.Outcome.{returned, ◌>>=◌}
use aemlib.Platform.Time.{time_now}
use aemlib.Core.State.{
  Sys, State, disconnected, connecting, mqtt_connect_sent, mqtt_connected, mqtt_disconnecting,
}
use aemlib.Core.Stable.{Keeps, Keeps-bind, IsStable, IsKept}
use aemlib.Core.Machine.{core_poll}
use aemlib.Core.Machine.Frame.{
  core_poll-Keeps, core_connect-Keeps, core_disconnect-Keeps, next_packet_id-Keeps,
}
use aemlib.Client.Io.{client_send_connect, client_send_ping, client_read, client_flush_pending}
use aemlib.Client.Io.Frame.{
  client_read-Keeps, client_send_connect-Keeps, client_send_ping-Keeps, client_flush_pending-Keeps,
  send_encoded-Keeps,
}
use aemlib.Client.Api.{
  connect, disconnect, publish, subscribe, poll, keep_alive, send_connect_once, poll_io,
}
use aemlib.Client.Api.Reach.{Call, perform}

module _ {W : Type 0} (J : Sys W → Type 0) (stable : IsStable J) where
  pub keep_alive-Keeps : (s : Sys W) → J s → Keeps J (keep_alive s)
  unfolding keep_alive
  keep_alive-Keeps s j =
      let (now, w) = time_now s.client.time s.world in
      elim (Bool-cases
        (leb s.client.keepalive_interval_ms (sub_size now s.client.last_activity_ms))) [
          | inr early ↦ rw early (stable.tells s j)
          | inl due ↦ rw due (
              Keeps-bind J (client_send_ping (record s { world = w })) _
                (client_send_ping-Keeps J stable (record s { world = w }) (stable.tells s j))
                (λ t j. stable.notes t now t.client.connect_sent j))
        ]

  pub poll_io-Keeps : (b : State) (s : Sys W) → J s → Keeps J (poll_io b s)
  unfolding poll_io send_connect_once
  poll_io-Keeps disconnected s j = j
  poll_io-Keeps connecting s j = j
  poll_io-Keeps mqtt_connect_sent s j = once s.client.connect_sent
    where
      once :
          (sent : Bool)
          → Keeps J (elim sent [
            | true ↦ returned status_ok s
            | false ↦ client_send_connect s >>= λ s.
                returned status_ok (record s { client = record s.client { connect_sent = true } })
          ])
      once true = j
      once false =
          Keeps-bind J (client_send_connect s) _ (client_send_connect-Keeps J stable s j)
            (λ t j. stable.notes t t.client.last_activity_ms true j)
  poll_io-Keeps mqtt_connected s j =
      Keeps-bind J (client_read s) _ (client_read-Keeps J stable s j) keep_alive-Keeps
  poll_io-Keeps mqtt_disconnecting s j = j

module _ {W : Type 0} (J : Sys W → Type 0) (kept : IsKept J) where
  connect-Keeps : (s : Sys W) → J s → Keeps J (connect s)
  unfolding connect
  connect-Keeps s j =
      core_connect-Keeps J kept _
        (kept.stable.buffers s s.client.tx_buffer s.client.rx_buffer 0 0 j)

  disconnect-Keeps : (s : Sys W) → J s → Keeps J (disconnect s)
  unfolding disconnect
  disconnect-Keeps s j = core_disconnect-Keeps J kept s j

  publish-Keeps :
      (topic payload : List ℕ) (qos : ℕ) (s : Sys W) → J s → Keeps J (publish topic payload qos s)
  unfolding publish
  publish-Keeps topic payload qos s j = elim (Bool-cases (not (qos == 0))) [
    | inl bad ↦ rw bad j
    | inr good ↦ rw good (send_encoded-Keeps J kept.stable _ s j)
  ]

  subscribe-Keeps : (topic : List ℕ) (qos : ℕ) (s : Sys W) → J s → Keeps J (subscribe topic qos s)
  unfolding subscribe
  subscribe-Keeps topic qos s j = elim (Bool-cases (not (qos == 0))) [
    | inl bad ↦ rw bad j
    | inr good ↦ rw good (send_encoded-Keeps J kept.stable _ _ (next_packet_id-Keeps J kept s j))
  ]

  poll-Keeps : (s : Sys W) → J s → Keeps J (poll s)
  unfolding poll
  poll-Keeps s j =
      Keeps-bind J (client_flush_pending s) _ (client_flush_pending-Keeps J kept.stable s j) (λ s j.
        Keeps-bind J (core_poll s) _ (core_poll-Keeps J kept s j)
          (λ s j. poll_io-Keeps J kept.stable s.client.state s j))

  pub perform-Keeps : (c : Call) (s : Sys W) → J s → Keeps J (perform c s)
  perform-Keeps Call.connect_call s j = connect-Keeps s j
  perform-Keeps Call.disconnect_call s j = disconnect-Keeps s j
  perform-Keeps Call.poll_call s j = poll-Keeps s j
  perform-Keeps (Call.publish_call topic payload qos) s j = publish-Keeps topic payload qos s j
  perform-Keeps (Call.subscribe_call topic qos) s j = subscribe-Keeps topic qos s j
