-- ===== src/Core/Machine/Steps.antt =====
-- The state machine of core/core.c as a relation: from which state a poll goes to which, and with what
-- status.
use aemlib.Base.{
  ℕ, ◌≡◌, ◌≢◌, refl, Bool-cases, inl, inr, ◌==◌, ne_of_==, ltb, leb, true, not, arith,
}
use aemlib.Base.Memory.{memcpy, slice}
use aemlib.Base.Words.{add_size, sub_size}
use aemlib.Status.{status_ok, status_code, code_value, Code}
use aemlib.Status.Outcome.{Outcome, Whenever, Whenever-accessing, Whenever-Ends, Ends}
use aemlib.Status.Decoded.{Decoded-cases}
use aemlib.Platform.Transport.{is_error, transport_read, transport_connect}
use aemlib.Platform.Time.{time_now}
use aemlib.Proto.Packet.{FixedHeader, pkt_connack}
use aemlib.Proto.Cursor.{too_small}
use aemlib.Proto.Header.{decode_fixed_header, protocol_error}
use aemlib.Proto.Header.Errors.{decode_fixed_header-err}
use aemlib.Proto.Decode.{decode_connack}
use aemlib.Core.State.{
  Sys, State, disconnected, connecting, mqtt_connect_sent, mqtt_connected, mqtt_disconnecting,
}
use aemlib.Core.Valid.{Good}
use aemlib.Core.Machine.{
  core_poll, poll_in, handle_connect_sent, await_connack, handle_header, take_connack,
  drop_connection, check_timeout, handle_connecting, receive, consume, connect_refused, timed_out,
  is_too_small,
}
use aemlib.Core.Machine.Safety.{core_poll-Safe}

-- A poll, by the state before it, its status and the state after it.
pub data PollStep : State → ℕ → State → Type 0 where
  rests : PollStep disconnected status_ok disconnected
  tries : PollStep connecting status_ok connecting
  opens : PollStep connecting status_ok mqtt_connect_sent
  gives_up : (st : ℕ) → st ≢ status_ok → PollStep connecting st disconnected
  awaits : PollStep mqtt_connect_sent status_ok mqtt_connect_sent
  establishes : PollStep mqtt_connect_sent status_ok mqtt_connected
  fails : (st : ℕ) → st ≢ status_ok → PollStep mqtt_connect_sent st disconnected
  stays : PollStep mqtt_connected status_ok mqtt_connected
  closes : PollStep mqtt_disconnecting status_ok disconnected

abbrev StepFrom : {W : Type 0} → State → ℕ → Sys W → Type 0
StepFrom before st s = PollStep before st s.client.state

error-ne-ok : (st : ℕ) → is_error st ≡ true → st ≢ status_ok
error-ne-ok st e = ground arith

module _ {W : Type 0} where
  connecting-steps :
      (s : Sys W)
      → s.client.state ≡ connecting
      → Whenever (StepFrom connecting) (handle_connecting s)
  unfolding handle_connecting
  connecting-steps s at =
      let (st, w) = transport_connect s.client.transport s.world in
      elim (Bool-cases (st == status_ok)) [
        | inl opened ↦ rw opened PollStep.opens
        | inr other ↦ rw other (elim (Bool-cases (status_code st == code_value Code.would_block)) [
          | inl blocked ↦ rw (blocked, at) PollStep.tries
          | inr failed ↦ rw failed (PollStep.gives_up st (ne_of_== st status_ok other))
        ])
      ]

  drop-fails :
      (st : ℕ) (s : Sys W)
      → st ≢ status_ok
      → Whenever (StepFrom mqtt_connect_sent) (drop_connection st s)
  unfolding drop_connection
  drop-fails st s bad = PollStep.fails st bad

  timeout-steps :
      (s : Sys W)
      → s.client.state ≡ mqtt_connect_sent
      → Whenever (StepFrom mqtt_connect_sent) (check_timeout s)
  unfolding check_timeout
  timeout-steps s at =
      let (now, w) = time_now s.client.time s.world in
      elim (Bool-cases (leb 5000 (sub_size now s.client.last_activity_ms))) [
        | inl late ↦
            rw late (drop-fails timed_out (record s { world = w }) (λ e. absurd (omega (arith, e))))
        | inr early ↦ rw (early, at) PollStep.awaits
      ]

  -- From here on, the client waits for the CONNACK.
  abbrev Sent : Outcome (Sys W) → Type 0
  Sent r = Whenever (StepFrom mqtt_connect_sent) r

  connack-steps : (n : ℕ) (s : Sys W) → Sent (take_connack n s)
  unfolding take_connack
  connack-steps n s = Whenever-accessing _ (slice s.client.rx_buffer 0 n) _ (λ packet e.
      Whenever-accessing _ (consume n s.client) _ (λ c taken.
        elim (Decoded-cases (decode_connack packet)) [
          | inl (connack, d) ↦ rw d (elim (Bool-cases (connack.return_code == 0)) [
            | inl accepted ↦ rw accepted PollStep.establishes
            | inr refused ↦ rw refused (
                drop-fails connect_refused (record s { client = c })
                  (λ e. absurd (omega (arith, e))))
          ])
          | inr (inl (st, d)) ↦ rw d (
              drop-fails connect_refused (record s { client = c }) (λ e. absurd (omega (arith, e))))
          | inr (inr d) ↦ rw d tt
        ]))

  header-steps :
      (h : FixedHeader) (s : Sys W) → s.client.state ≡ mqtt_connect_sent → Sent (handle_header h s)
  unfolding handle_header
  header-steps h s at =
      let n : ℕ = add_size h.header_size h.remaining_length in
      elim (Bool-cases (not (h.type == pkt_connack))) [
        | inl other ↦ rw other (drop-fails protocol_error s (λ e. absurd (omega (arith, e))))
        | inr connack ↦ rw connack (elim (Bool-cases (ltb s.client.rx_buffer_size n)) [
          | inl large ↦ rw large (drop-fails too_small s (λ e. absurd (omega (arith, e))))
          | inr fits ↦ rw fits (elim (Bool-cases (leb n s.client.rx_len)) [
            | inl full ↦ rw full (connack-steps n s)
            | inr short ↦ rw short (timeout-steps s at)
          ])
        ])
      ]

  await-steps : (s : Sys W) → s.client.state ≡ mqtt_connect_sent → Sent (await_connack s)
  unfolding await_connack
  await-steps s at = elim (Bool-cases (ltb 0 s.client.rx_len)) [
    | inr nothing ↦ rw nothing (timeout-steps s at)
    | inl some_bytes ↦ rw some_bytes (
        Whenever-accessing _ (slice s.client.rx_buffer 0 s.client.rx_len) _ (λ view e.
          elim (Decoded-cases (decode_fixed_header view)) [
            | inl (header, d) ↦ rw d (header-steps header s at)
            | inr (inl (st, d)) ↦ rw d (elim (Bool-cases (is_too_small st)) [
              | inl short ↦ rw short (timeout-steps s at)
              | inr bad ↦ rw bad (drop-fails st s (decode_fixed_header-err view st d))
            ])
            | inr (inr d) ↦ rw d tt
          ]))
  ]

  Sent-steps : (s : Sys W) → s.client.state ≡ mqtt_connect_sent → Sent (handle_connect_sent s)
  unfolding handle_connect_sent receive
  Sent-steps s at =
      let r =
        transport_read s.client.transport (sub_size s.client.rx_buffer_size s.client.rx_len) 0
          s.world in
      Whenever-accessing _ (memcpy s.client.rx_buffer s.client.rx_len r.stored) _ (λ rx e.
        elim (Bool-cases (is_error r.status)) [
          | inl bad ↦ rw bad (drop-fails r.status _ (error-ne-ok r.status bad))
          | inr good ↦ rw good (await-steps _ at)
        ])

  state-steps :
      (before : State) (s : Sys W)
      → s.client.state ≡ before
      → Whenever (StepFrom before) (poll_in before s)
  unfolding poll_in drop_connection
  state-steps disconnected s at = rw at PollStep.rests
  state-steps connecting s at = connecting-steps s at
  state-steps mqtt_connect_sent s at = Sent-steps s at
  state-steps mqtt_connected s at = rw at PollStep.stays
  state-steps mqtt_disconnecting s at = PollStep.closes

  -- On a client in the invariant, every poll of the core is one of the steps: a status other than
  -- OK always leaves the client DISCONNECTED, with OK a client becomes DISCONNECTED only by closing
  -- a connection, and only a poll that waits for the CONNACK connects.
  pub core_poll-steps :
      (s : Sys W)
      → Good s
      → Ends (λ st s'. PollStep s.client.state st s'.client.state) (core_poll s)
  unfolding core_poll
  core_poll-steps s g =
      Whenever-Ends (λ st s'. Good s') (StepFrom s.client.state) (core_poll s) (core_poll-Safe s g)
        (state-steps s.client.state s refl)

  pub core_poll-moves : (s : Sys W) → Whenever (StepFrom s.client.state) (core_poll s)
  unfolding core_poll
  core_poll-moves s = state-steps s.client.state s refl
