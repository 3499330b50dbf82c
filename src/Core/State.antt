-- ===== src/Core/State.antt =====
-- aemlib_state_t, aemlib_client_t and aemlib_config_t of include/aemlib/aemlib.h.
use aemlib.Base.{ℕ, List, [], Option, none, some, Bool}
use aemlib.Platform.Transport.{Transport}
use aemlib.Platform.Time.{Time}
use aemlib.Platform.Storage.{Storage}
use aemlib.Proto.Decode.{Message}

pub data State : Type 0 where
  disconnected connecting mqtt_connect_sent mqtt_connected mqtt_disconnecting : State

-- The message callback, as what it does to the world; `on_message_ctx` is part of the world.
abbrev pub Callback : Type 0 → Type 0
Callback W = W → Message → W

-- `tx_buffer` and `rx_buffer` are the memories behind the pointers, which do not overlap.
pub record Client (W : Type 0) : Type 0 where
  pub state : State
  pub transport : Transport W
  pub time : Time W
  pub storage : Storage W
  pub tx_buffer : List ℕ
  pub tx_buffer_size : ℕ
  pub rx_buffer : List ℕ
  pub rx_buffer_size : ℕ
  pub last_activity_ms : ℕ
  pub keepalive_interval_ms : ℕ
  pub packet_id : ℕ
  pub connect_sent : Bool
  pub tx_pending_len : ℕ
  pub rx_len : ℕ
  pub on_message : Option (Callback W)

-- Here a buffer's pointer may be NULL.
pub record Config (W : Type 0) : Type 0 where
  pub tx_buffer : Option (List ℕ)
  pub tx_buffer_size : ℕ
  pub rx_buffer : Option (List ℕ)
  pub rx_buffer_size : ℕ
  pub transport : Transport W
  pub time : Time W
  pub storage : Storage W
  pub keepalive_interval_ms : ℕ
  pub on_message : Option (Callback W)

-- A client and the world that its interfaces act on.
pub record Sys (W : Type 0) : Type 0 where
  pub client : Client W
  pub world : W

-- The memory behind a pointer: every access through NULL is out of bounds.
abbrev pub memory : Option (List ℕ) → List ℕ
memory none = []
memory (some bytes) = bytes
