-- ===== src/Core/Config.antt =====
-- core/core.c: validate_config, apply_config and aemlib_core_init.
use aemlib.Base.{
  ℕ, ◌≡◌, ◌≤◌, ◌<◌, ◌^◌, length, All, arith, Bool-cases, inl, inr, ne_of_==, Option, none, some,
  ◌||◌, not, ◌==◌, if◌then◌else◌,
}
use aemlib.Status.{status, status_ok, Layer, Code}
use aemlib.Status.Outcome.{Outcome, returned, Ends}
use aemlib.Base.Words.{IsByte}
use aemlib.Core.Valid.{Good, Safe}
use aemlib.Platform.Transport.{transport_validate, is_null, IsLawful}
use aemlib.Platform.Time.{time_validate, time_now}
use aemlib.Core.State.{Client, Config, Sys, State, memory}

abbrev invalid_arg : ℕ
invalid_arg = status Layer.general Code.invalid_arg

module _ {W : Type 0} where
  unfoldable pub validate_config : Option (Config W) → ℕ
  validate_config none = invalid_arg
  validate_config (some cfg) =
      if is_null cfg.tx_buffer || cfg.tx_buffer_size == 0
      then invalid_arg
      else if is_null cfg.rx_buffer || cfg.rx_buffer_size == 0
      then invalid_arg
      else if not (transport_validate cfg.transport == status_ok)
      then invalid_arg
      else if not (time_validate cfg.time == status_ok)
      then invalid_arg
      else status_ok

  unfoldable pub apply_config : Client W → Config W → Client W
  apply_config client config = record client {
    transport = config.transport;
    time = config.time;
    storage = config.storage;
    tx_buffer = memory config.tx_buffer;
    tx_buffer_size = config.tx_buffer_size;
    rx_buffer = memory config.rx_buffer;
    rx_buffer_size = config.rx_buffer_size;
    keepalive_interval_ms = config.keepalive_interval_ms;
    on_message = config.on_message;
  }

  unfoldable pub init_with : Config W → Sys W → Outcome (Sys W)
  init_with cfg s =
      let client = apply_config s.client cfg in
      let (now, w) = time_now client.time s.world in
      returned status_ok (record {
        client = record client {
          packet_id = 1;
          state = State.disconnected;
          last_activity_ms = now;
        };
        world = w;
      })

  -- aemlib_core_init
  unfoldable pub core_init : Option (Config W) → Sys W → Outcome (Sys W)
  core_init none s = returned invalid_arg s
  core_init (some cfg) s =
      let valid = validate_config (some cfg) in
      if valid == status_ok then init_with cfg s else returned valid s

  -- What the caller of aemlib_init owes: buffers of bytes, of the sizes given, smaller than half of the
  -- address space, and a transport that keeps its contract.
  pub record Provided (cfg : Config W) : Type 0 where
    pub tx_room : cfg.tx_buffer_size ≤ length (memory cfg.tx_buffer)
    pub rx_room : cfg.rx_buffer_size ≤ length (memory cfg.rx_buffer)
    pub tx_small : length (memory cfg.tx_buffer) < 2 ^ 62
    pub rx_small : length (memory cfg.rx_buffer) < 2 ^ 62
    pub rx_bytes : All IsByte (memory cfg.rx_buffer)
    pub law : IsLawful cfg.transport

  init_with-Good :
      (cfg : Config W) (s : Sys W)
      → s.client.tx_pending_len ≡ 0
      → s.client.rx_len ≡ 0
      → Provided cfg
      → Safe (init_with cfg s)
  unfolding init_with apply_config
  init_with-Good cfg s no_tx no_rx p = record {
    tx_memory = p.tx_room;
    rx_memory = p.rx_room;
    tx_small = p.tx_small;
    rx_small = p.rx_small;
    pending_in = omega arith;
    received_in = omega arith;
    rx_bytes = p.rx_bytes;
    id_positive = omega arith;
    id_small = omega arith;
    law = p.law;
  }

  pub core_init-Good :
      (cfg : Config W) (s : Sys W)
      → s.client.tx_pending_len ≡ 0
      → s.client.rx_len ≡ 0
      → Provided cfg
      → Ends (λ st s'. st ≡ status_ok → Good s') (core_init (some cfg) s)
  unfolding core_init init_with apply_config
  core_init-Good cfg s no_tx no_rx p = elim (Bool-cases (validate_config (some cfg) == status_ok)) [
    | inl valid ↦ rw valid (λ _. init_with-Good cfg s no_tx no_rx p)
    | inr bad ↦ rw bad (λ ok. absurd (ne_of_== (validate_config (some cfg)) status_ok bad ok))
  ]
