-- ===== src/Platform/Time.antt =====
-- aemlib_time_t of include/aemlib/aemlib.h, and platform/time_iface.h.
use aemlib.Base.{ℕ, Option, none, some}
use aemlib.Status.{status, status_ok, Layer, Code}

pub record Time (W : Type 0) : Type 0 where
  pub now_ms : Option (W → ℕ × W)

module _ {W : Type 0} where
  -- aemlib_time_validate
  unfoldable pub time_validate : Time W → ℕ
  time_validate t = elim t.now_ms [
    | none ↦ status Layer.system Code.invalid_arg
    | some f ↦ status_ok
  ]

  -- aemlib_time_now
  abbrev pub time_now : Time W → W → ℕ × W
  time_now t w = elim t.now_ms [ none ↦ (0, w) | some f ↦ f w ]
