-- ===== src/Core/Machine/Requests.antt =====
-- aemlib_core_connect and aemlib_core_disconnect of core/core.c, by the state that they are called in.
use aemlib.Base.{◌≡◌, ◌≢◌, refl, inl, inr, ◌⊎◌}
use aemlib.Status.{status_ok}
use aemlib.Status.Outcome.{Whenever}
use aemlib.Core.State.{Sys, State, disconnected, connecting, mqtt_connected, mqtt_disconnecting}
use aemlib.Core.Machine.{core_connect, connect_in, core_disconnect, disconnect_in, state_invalid}

module _ {W : Type 0} where
  connect_in-moves :
      (a : State) (s : Sys W)
      → s.client.state ≡ a
      → Whenever
          (λ st s'.
            ((a ≡ disconnected) × (s'.client.state ≡ connecting) × (st ≡ status_ok))
            ⊎ ((a ≢ disconnected) × (s' ≡ s) × (st ≡ state_invalid)))
          (connect_in a s)
  unfolding connect_in
  connect_in-moves disconnected s at = inl (refl, refl, refl)
  connect_in-moves a s at = inr (λ e. cc, refl, refl)

  disconnect_in-moves :
      (a : State) (s : Sys W)
      → s.client.state ≡ a
      → Whenever
          (λ st s'.
            ((a ≡ mqtt_connected) × (s'.client.state ≡ mqtt_disconnecting) × (st ≡ status_ok))
            ⊎ ((a ≢ mqtt_connected) × (s' ≡ s) × (st ≡ state_invalid)))
          (disconnect_in a s)
  unfolding disconnect_in
  disconnect_in-moves mqtt_connected s at = inl (refl, refl, refl)
  disconnect_in-moves a s at = inr (λ e. cc, refl, refl)

  -- aemlib_core_connect leaves DISCONNECTED for CONNECTING, and in every other state it is refused.
  pub core_connect-moves :
      (s : Sys W)
      → Whenever
          (λ st s'.
            ((s.client.state ≡ disconnected) × (s'.client.state ≡ connecting) × (st ≡ status_ok))
            ⊎ ((s.client.state ≢ disconnected) × (s' ≡ s) × (st ≡ state_invalid)))
          (core_connect s)
  unfolding core_connect
  core_connect-moves s = connect_in-moves s.client.state s refl

  -- aemlib_core_disconnect leaves MQTT_CONNECTED for MQTT_DISCONNECTING, and in every other state it is
  -- refused.
  pub core_disconnect-moves :
      (s : Sys W)
      → Whenever
          (λ st s'.
            ((s.client.state ≡ mqtt_connected)
              × (s'.client.state ≡ mqtt_disconnecting)
              × (st ≡ status_ok))
            ⊎ ((s.client.state ≢ mqtt_connected) × (s' ≡ s) × (st ≡ state_invalid)))
          (core_disconnect s)
  unfolding core_disconnect
  core_disconnect-moves s = disconnect_in-moves s.client.state s refl
