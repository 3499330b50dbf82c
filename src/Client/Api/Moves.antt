-- ===== src/Client/Api/Moves.antt =====
-- The state machine of core/client.c: from which state a call of the API goes to which.
use aemlib.Base.{ℕ, ◌≡◌, refl, ap, sym, subst, List, Bool-cases, inl, inr, ◌==◌, not}
use aemlib.Status.{status_ok}
use aemlib.Status.Outcome.{
  Outcome, returned, fault, Ends, Whenever, Whenever-bind, Whenever-Ends, Whenever-map,
}
use aemlib.Core.State.{Sys, State, disconnected, connecting, mqtt_connected, mqtt_disconnecting}
use aemlib.Core.Valid.{Good}
use aemlib.Core.Machine.{core_connect, core_disconnect, core_poll, next_packet_id}
use aemlib.Core.Machine.Steps.{PollStep, core_poll-moves}
use aemlib.Core.Machine.Requests.{core_connect-moves, core_disconnect-moves}
use aemlib.Core.Machine.Safety.{next_packet_id-frame}
use aemlib.Core.Stable.{Keeps, IsStable}
use aemlib.Client.Io.{client_flush_pending}
use aemlib.Client.Io.Frame.{client_flush_pending-Keeps, send_encoded-Keeps}
use aemlib.Client.Api.Frame.{poll_io-Keeps}
use aemlib.Client.Api.{connect, disconnect, publish, subscribe, poll_io, poll}
use aemlib.Client.Api.Reach.{Call, Permitted, perform, perform-Safe}

-- A call, by the state before it and the state after it.
pub data Move : Call → State → State → Type 0 where
  stays : (c : Call) (a : State) → Move c a a
  opens : Move Call.connect_call disconnected connecting
  closes : Move Call.disconnect_call mqtt_connected mqtt_disconnecting
  polls : (st : ℕ) (a b : State) → PollStep a st b → Move Call.poll_call a b

abbrev MovesFrom : {W : Type 0} → Call → State → ℕ → Sys W → Type 0
MovesFrom c a st s = Move c a s.client.state

moved_to : (c : Call) {a b : State} → b ≡ a → Move c a b
moved_to c {a = a} e = subst (Move c a) (sym e) (Move.stays c a)

module _ {W : Type 0} where
  abbrev At : State → ℕ → Sys W → Type 0
  At a id s = (s.client.state ≡ a) × (s.client.packet_id ≡ id)

  At-IsStable : (a : State) (id : ℕ) → IsStable (At a id)
  At-IsStable a id = record {
    buffers = λ s tx rx pending len at. at;
    notes = λ s now sent at. at;
    reads = λ s len at. at;
    writes = λ s bytes at. at;
    tells = λ s at. at;
    delivers = λ s f m e at. at;
  }

  -- A call that leaves the state alone.
  kept :
      (c : Call) (a : State) (id : ℕ) (r : Outcome (Sys W))
      → Keeps (At a id) r
      → Whenever (MovesFrom c a) r
  kept c a id (returned st s) (at, _) = rw at (Move.stays c a)
  kept c a id fault k = tt

  connect-moves : (s : Sys W) → Whenever (MovesFrom Call.connect_call s.client.state) (connect s)
  unfolding connect
  connect-moves s =
      Whenever-map _ (MovesFrom Call.connect_call s.client.state) (core_connect emptied)
        (λ st s' h. elim h [
          | inl (at, to, _) ↦ rw (at, to) Move.opens
          | inr (_, same, _) ↦ moved_to Call.connect_call (ap (λ t. t.client.state) same)
        ])
        (core_connect-moves emptied)
    where
      emptied : Sys W
      emptied = record s { client = record s.client { tx_pending_len = 0; rx_len = 0 } }

  disconnect-moves :
      (s : Sys W) → Whenever (MovesFrom Call.disconnect_call s.client.state) (disconnect s)
  unfolding disconnect
  disconnect-moves s =
      Whenever-map _ (MovesFrom Call.disconnect_call s.client.state) (core_disconnect s)
        (λ st s' h. elim h [
          | inl (at, to, _) ↦ rw (at, to) Move.closes
          | inr (_, same, _) ↦ moved_to Call.disconnect_call (ap (λ t. t.client.state) same)
        ])
        (core_disconnect-moves s)

  publish-moves :
      (topic payload : List ℕ) (qos : ℕ) (s : Sys W)
      → Whenever
          (MovesFrom (Call.publish_call topic payload qos) s.client.state)
          (publish topic payload qos s)
  unfolding publish
  publish-moves topic payload qos s = elim (Bool-cases (not (qos == 0))) [
    | inl bad ↦ rw bad (Move.stays _ s.client.state)
    | inr good ↦ rw good (
        kept _ s.client.state s.client.packet_id _
          (send_encoded-Keeps _ (At-IsStable _ _) _ s (refl, refl)))
  ]

  subscribe-moves :
      (topic : List ℕ) (qos : ℕ) (s : Sys W)
      → Whenever (MovesFrom (Call.subscribe_call topic qos) s.client.state) (subscribe topic qos s)
  unfolding subscribe
  subscribe-moves topic qos s = elim (Bool-cases (not (qos == 0))) [
    | inl bad ↦ rw bad (Move.stays _ s.client.state)
    | inr good ↦ rw good (
        kept _ s.client.state (next_packet_id s.client).packet_id _ (
          send_encoded-Keeps _ (At-IsStable _ _) _ (record s { client = next_packet_id s.client })
            (ap (λ c. c.state) (next_packet_id-frame s.client), refl)))
  ]

  poll-moves : (s : Sys W) → Whenever (MovesFrom Call.poll_call s.client.state) (poll s)
  unfolding poll
  poll-moves s =
      let a = s.client.state in
      let id = s.client.packet_id in
      Whenever-bind (λ st s'. (s'.client.state ≡ a) × (s'.client.packet_id ≡ id))
        (MovesFrom Call.poll_call a) (client_flush_pending s) _
        (client_flush_pending-Keeps (At a id) (At-IsStable a id) s (refl, refl))
        (λ st s' bad (at, _). subst (Move Call.poll_call a) (sym at) (Move.stays Call.poll_call a))
        (λ s' (at, _).
          Whenever-bind (λ st t. PollStep a st t.client.state) (MovesFrom Call.poll_call a)
            (core_poll s') _
            (subst (λ b. Whenever (λ st t. PollStep b st t.client.state) (core_poll s')) at
              (core_poll-moves s'))
            (λ st t bad step. Move.polls st a t.client.state step)
            (λ t step.
              Whenever-map _ (MovesFrom Call.poll_call a) (poll_io t.client.state t)
                (λ st u k.
                  subst (Move Call.poll_call a) (sym k.0)
                    (Move.polls status_ok a t.client.state step))
                (poll_io-Keeps (At t.client.state t.client.packet_id)
                  (At-IsStable t.client.state t.client.packet_id) t.client.state t (refl, refl))))

  moves : (c : Call) (s : Sys W) → Whenever (MovesFrom c s.client.state) (perform c s)
  moves Call.connect_call s = connect-moves s
  moves Call.disconnect_call s = disconnect-moves s
  moves Call.poll_call s = poll-moves s
  moves (Call.publish_call topic payload qos) s = publish-moves topic payload qos s
  moves (Call.subscribe_call topic qos) s = subscribe-moves topic qos s

  -- On a client in the invariant, every call of the API, whatever it returns, leaves the client in
  -- its state or takes it along one of the moves of the state machine: aemlib_connect from
  -- DISCONNECTED to CONNECTING, aemlib_disconnect from MQTT_CONNECTED to MQTT_DISCONNECTING, and
  -- aemlib_poll along a step of the core.
  pub perform-Move :
      (c : Call) (s : Sys W)
      → Good s
      → Permitted c
      → Ends (λ st s'. Move c s.client.state s'.client.state) (perform c s)
  perform-Move c s g p =
      Whenever-Ends (λ st s'. Good s') (MovesFrom c s.client.state) (perform c s)
        (perform-Safe c s g p) (moves c s)
