-- ===== src/Platform/Storage.antt =====
-- aemlib_storage_t of include/aemlib/aemlib.h, and platform/storage.h. Nothing in the library calls it.
use aemlib.Base.{ℕ, List, [], Option, none, some, Bool, not, ◌||◌, if◌then◌else◌}
use aemlib.Status.{status, status_ok, Layer, Code}
use aemlib.Platform.Transport.{Read, is_null}

pub record Storage (W : Type 0) : Type 0 where
  pub write_record : Option (W → List ℕ → ℕ × W)
  pub read_record : Option (W → ℕ → Read W)
  pub delete_record : Option (W → ℕ × W)

abbrev io_invalid_arg : ℕ
io_invalid_arg = status Layer.io Code.invalid_arg

module _ {W : Type 0} where
  abbrev has_any : Storage W → Bool
  has_any s =
      not (is_null s.write_record) || not (is_null s.read_record) || not (is_null s.delete_record)

  abbrev lacks_any : Storage W → Bool
  lacks_any s = is_null s.write_record || is_null s.read_record || is_null s.delete_record

  -- aemlib_storage_validate; `none` is a NULL pointer.
  pub storage_validate : Option (Storage W) → ℕ
  storage_validate none = io_invalid_arg
  storage_validate (some s) =
      if has_any s then (if lacks_any s then io_invalid_arg else status_ok) else status_ok

  -- aemlib_storage_write, aemlib_storage_read and aemlib_storage_delete
  pub storage_write : Storage W → List ℕ → W → ℕ × W
  storage_write s bytes w = elim s.write_record [ none ↦ (io_invalid_arg, w) | some f ↦ f w bytes ]

  pub storage_read : Storage W → ℕ → ℕ → W → Read W
  storage_read s buf_len out_len w = elim s.read_record [
    | none ↦ record { status = io_invalid_arg; stored = []; out_len = out_len; world = w }
    | some f ↦ f w buf_len
  ]

  pub storage_delete : Storage W → W → ℕ × W
  storage_delete s w = elim s.delete_record [ none ↦ (io_invalid_arg, w) | some f ↦ f w ]
