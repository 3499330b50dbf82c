-- ===== src/Core/Machine/Frame.antt =====
-- The handlers of core/core.c keep every property that the steps they are made of keep.
use aemlib.Base.{ℕ, List, Bool-cases, inl, inr, ◌==◌, ltb, leb, not, false}
use aemlib.Base.Words.{add_size, sub_size}
use aemlib.Base.Memory.{slice}
use aemlib.Status.{status_ok, status_code, code_value, Code}
use aemlib.Status.Outcome.{Whenever-accessing}
use aemlib.Status.Decoded.{Decoded-cases}
use aemlib.Platform.Transport.{transport_connect, transport_disconnect}
use aemlib.Platform.Time.{time_now}
use aemlib.Proto.Packet.{FixedHeader, pkt_connack}
use aemlib.Proto.Header.{decode_fixed_header}
use aemlib.Proto.Decode.{decode_connack}
use aemlib.Core.State.{
  Sys, State, disconnected, connecting, mqtt_connect_sent, mqtt_connected, mqtt_disconnecting,
}
use aemlib.Core.Stable.{IsStable, IsKept, Keeps}
use aemlib.Core.Machine.{
  connect_in, core_connect, disconnect_in, core_disconnect, next_packet_id, drop_connection,
  handle_connecting, consume, check_timeout, establish, take_connack, handle_header, await_connack,
  handle_connect_sent, poll_in, core_poll, is_too_small,
}
use aemlib.Core.Machine.Inbox.{consume-frame, receive-read, read_of}

module _ {W : Type 0} (J : Sys W → Type 0) (stable : IsStable J) where
  pub filled :
      (s : Sys W) (rx : List ℕ) (n : ℕ)
      → J s
      → J (record {
        client = record s.client { rx_buffer = rx; rx_len = n };
        world = (read_of s).world;
      })
  filled s rx n j =
      stable.buffers (record s { world = (read_of s).world }) s.client.tx_buffer rx
        s.client.tx_pending_len n (stable.reads s _ j)

module _ {W : Type 0} (J : Sys W → Type 0) (kept : IsKept J) where
  turned : (s : Sys W) (a : State) → J s → J (record s { client = record s.client { state = a } })
  turned s a j = kept.turns s a s.client.packet_id j

  drop_connection-Keeps : (st : ℕ) (s : Sys W) → J s → Keeps J (drop_connection st s)
  unfolding drop_connection
  drop_connection-Keeps st s j =
      turned (record s { world = (transport_disconnect s.client.transport s.world).1 })
        State.disconnected (kept.disconnects s j)

  handle_connecting-Keeps : (s : Sys W) → J s → Keeps J (handle_connecting s)
  unfolding handle_connecting
  handle_connecting-Keeps s j =
      let (st, w) = transport_connect s.client.transport s.world in
      let s1 : Sys W = record s { world = w } in
      let j1 : J s1 = kept.connects s j in
      let (now, w') = time_now s.client.time w in
      let s2 : Sys W = record s { world = w' } in
      elim (Bool-cases (st == status_ok)) [
        | inl fine ↦ rw fine (
            kept.stable.notes
              (record s2 { client = record s.client { state = State.mqtt_connect_sent } }) now
              s.client.connect_sent (turned s2 State.mqtt_connect_sent (kept.stable.tells s1 j1)))
        | inr bad ↦ rw bad (elim (Bool-cases (status_code st == code_value Code.would_block)) [
          | inl wait ↦ rw wait j1
          | inr error ↦ rw error (turned s1 State.disconnected j1)
        ])
      ]

  check_timeout-Keeps : (s : Sys W) → J s → Keeps J (check_timeout s)
  unfolding check_timeout
  check_timeout-Keeps s j =
      let (now, w) = time_now s.client.time s.world in
      let s1 : Sys W = record s { world = w } in
      elim (Bool-cases (leb 5000 (sub_size now s.client.last_activity_ms))) [
        | inl late ↦ rw late (drop_connection-Keeps _ s1 (kept.stable.tells s j))
        | inr early ↦ rw early (kept.stable.tells s j)
      ]

  establish-Keeps : (s : Sys W) → J s → Keeps J (establish s)
  establish-Keeps s j =
      let (now, w) = time_now s.client.time s.world in
      let s1 : Sys W = record s { world = w } in
      kept.stable.notes (record s1 { client = record s.client { state = State.mqtt_connected } })
        now s.client.connect_sent (turned s1 State.mqtt_connected (kept.stable.tells s j))

  take_connack-Keeps : (n : ℕ) (s : Sys W) → J s → Keeps J (take_connack n s)
  unfolding take_connack
  take_connack-Keeps n s j = Whenever-accessing _ (slice s.client.rx_buffer 0 n) _ (λ packet e.
      Whenever-accessing _ (consume n s.client) _ (λ c e.
        let s1 : Sys W = record s { client = c } in
        let j1 : J s1 =
          consume-frame (λ c. J (record s { client = c })) n s.client c e
            (λ rx m. kept.stable.buffers s s.client.tx_buffer rx s.client.tx_pending_len m j) in
        elim (Decoded-cases (decode_connack packet)) [
          | inl (connack, d) ↦ rw d (elim (Bool-cases (connack.return_code == 0)) [
            | inl accepted ↦ rw accepted (establish-Keeps s1 j1)
            | inr refused ↦ rw refused (drop_connection-Keeps _ s1 j1)
          ])
          | inr (inl (st, d)) ↦ rw d (drop_connection-Keeps _ s1 j1)
          | inr (inr d) ↦ rw d tt
        ]))

  handle_header-Keeps : (h : FixedHeader) (s : Sys W) → J s → Keeps J (handle_header h s)
  unfolding handle_header
  handle_header-Keeps h s j =
      let n : ℕ = add_size h.header_size h.remaining_length in
      elim (Bool-cases (not (h.type == pkt_connack))) [
        | inl other ↦ rw other (drop_connection-Keeps _ s j)
        | inr connack ↦ rw connack (elim (Bool-cases (ltb s.client.rx_buffer_size n)) [
          | inl large ↦ rw large (drop_connection-Keeps _ s j)
          | inr fits ↦ rw fits (elim (Bool-cases (leb n s.client.rx_len)) [
            | inl full ↦ rw full (take_connack-Keeps n s j)
            | inr part ↦ rw part (check_timeout-Keeps s j)
          ])
        ])
      ]

  await_connack-Keeps : (s : Sys W) → J s → Keeps J (await_connack s)
  unfolding await_connack
  await_connack-Keeps s j = elim (Bool-cases (ltb 0 s.client.rx_len)) [
    | inr empty ↦ rw empty (check_timeout-Keeps s j)
    | inl more ↦ rw more (
        Whenever-accessing _ (slice s.client.rx_buffer 0 s.client.rx_len) _ (λ view e.
          elim (Decoded-cases (decode_fixed_header view)) [
            | inl (header, d) ↦ rw d (handle_header-Keeps header s j)
            | inr (inl (st, d)) ↦ rw d (elim (Bool-cases (is_too_small st)) [
              | inl short ↦ rw short (check_timeout-Keeps s j)
              | inr bad ↦ rw bad (drop_connection-Keeps _ s j)
            ])
            | inr (inr d) ↦ rw d tt
          ]))
  ]

  handle_connect_sent-Keeps : (s : Sys W) → J s → Keeps J (handle_connect_sent s)
  unfolding handle_connect_sent
  handle_connect_sent-Keeps s j =
      receive-read drop_connection await_connack (λ st s. J s) s
        (λ st rx n. drop_connection-Keeps st _ (filled J kept.stable s rx n j))
        (λ rx n. await_connack-Keeps _ (filled J kept.stable s rx n j))

  poll_in-Keeps : (a : State) (s : Sys W) → J s → Keeps J (poll_in a s)
  unfolding poll_in
  poll_in-Keeps disconnected s j = j
  poll_in-Keeps connecting s j = handle_connecting-Keeps s j
  poll_in-Keeps mqtt_connect_sent s j = handle_connect_sent-Keeps s j
  poll_in-Keeps mqtt_connected s j = j
  poll_in-Keeps mqtt_disconnecting s j = drop_connection-Keeps _ s j

  pub core_poll-Keeps : (s : Sys W) → J s → Keeps J (core_poll s)
  unfolding core_poll
  core_poll-Keeps s j = poll_in-Keeps s.client.state s j

  connect_in-Keeps : (a : State) (s : Sys W) → J s → Keeps J (connect_in a s)
  unfolding connect_in
  connect_in-Keeps disconnected s j =
      kept.stable.notes (record s { client = record s.client { state = State.connecting } })
        s.client.last_activity_ms false (turned s State.connecting j)
  connect_in-Keeps connecting s j = j
  connect_in-Keeps mqtt_connect_sent s j = j
  connect_in-Keeps mqtt_connected s j = j
  connect_in-Keeps mqtt_disconnecting s j = j

  pub core_connect-Keeps : (s : Sys W) → J s → Keeps J (core_connect s)
  unfolding core_connect
  core_connect-Keeps s j = connect_in-Keeps s.client.state s j

  disconnect_in-Keeps : (a : State) (s : Sys W) → J s → Keeps J (disconnect_in a s)
  unfolding disconnect_in
  disconnect_in-Keeps disconnected s j = j
  disconnect_in-Keeps connecting s j = j
  disconnect_in-Keeps mqtt_connect_sent s j = j
  disconnect_in-Keeps mqtt_connected s j = turned s State.mqtt_disconnecting j
  disconnect_in-Keeps mqtt_disconnecting s j = j

  pub core_disconnect-Keeps : (s : Sys W) → J s → Keeps J (core_disconnect s)
  unfolding core_disconnect
  core_disconnect-Keeps s j = disconnect_in-Keeps s.client.state s j

  pub next_packet_id-Keeps : (s : Sys W) → J s → J (record s { client = next_packet_id s.client })
  unfolding next_packet_id
  next_packet_id-Keeps s j = kept.turns s s.client.state _ j
