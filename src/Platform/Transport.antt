-- ===== src/Platform/Transport.antt =====
-- aemlib_transport_t of include/aemlib/aemlib.h, and platform/transport.h.
-- `W` is everything outside the library that a call can change: the contexts behind the `void *ctx`.
use aemlib.Base.{
  ℕ, ◌≤◌, ◌≡◌, ◌≢◌, List, [], ◌++◌, take, length, All, Option, none, some, Bool, not, ◌&&◌, ◌==◌,
}
use aemlib.Base.Words.{IsByte}
use aemlib.Status.{status, status_ok, status_code, code_value, Layer, Code}

-- What a read leaves: its status, the bytes that it stored at `buf`, `*out_len`, and the world.
pub record Read (W : Type 0) : Type 0 where
  pub status : ℕ
  pub stored : List ℕ
  pub out_len : ℕ
  pub world : W

pub record Written (W : Type 0) : Type 0 where
  pub status : ℕ
  pub out_len : ℕ
  pub world : W

-- A function pointer that may be NULL is an option.
pub record Transport (W : Type 0) : Type 0 where
  pub connect : Option (W → ℕ × W)
  pub disconnect : Option (W → ℕ × W)
  pub read : Option (W → ℕ → Read W)
  pub write : Option (W → List ℕ → Written W)

abbrev io_invalid_arg : ℕ
io_invalid_arg = status Layer.io Code.invalid_arg

abbrev pub is_null {ℓ} : {A : Type ℓ} → Option A → Bool
is_null none = Bool.true
is_null (some a) = Bool.false

-- A status that is an error, and not only "nothing now".
abbrev pub is_error : ℕ → Bool
is_error st = not (st == status_ok) && not (status_code st == code_value Code.would_block)

module _ {W : Type 0} where
  -- aemlib_transport_connect and aemlib_transport_disconnect
  abbrev pub transport_connect : Transport W → W → ℕ × W
  transport_connect t w = elim t.connect [ none ↦ (io_invalid_arg, w) | some f ↦ f w ]

  abbrev pub transport_disconnect : Transport W → W → ℕ × W
  transport_disconnect t w = elim t.disconnect [ none ↦ (io_invalid_arg, w) | some f ↦ f w ]

  -- aemlib_transport_read(t, buf, len, &out_len)
  abbrev pub transport_read : Transport W → ℕ → ℕ → W → Read W
  transport_read t len out_len w = elim t.read [
    | none ↦ record { status = io_invalid_arg; stored = []; out_len = out_len; world = w }
    | some f ↦ f w len
  ]

  -- aemlib_transport_write(t, data, length data, &out_len)
  abbrev pub transport_write : Transport W → List ℕ → ℕ → W → Written W
  transport_write t bytes out_len w = elim t.write [
    | none ↦ record { status = io_invalid_arg; out_len = out_len; world = w }
    | some f ↦ f w bytes
  ]

  -- aemlib_transport_validate
  unfoldable pub transport_validate : Transport W → ℕ
  transport_validate t = elim t.connect [
    | none ↦ io_invalid_arg
    | some c ↦ elim t.disconnect [
      | none ↦ io_invalid_arg
      | some d ↦ elim t.read [
        | none ↦ io_invalid_arg
        | some r ↦ elim t.write [ none ↦ io_invalid_arg | some v ↦ status_ok ]
      ]
    ]
  ]

  -- What the library relies on: a read stores bytes, at most `len`, and counts no more than it
  -- stored; a write counts no more than it was given.
  pub record IsLawful (t : Transport W) : Type 0 where
    pub read_fits : (w : W) (len : ℕ) → length (transport_read t len 0 w).stored ≤ len
    pub read_bytes : (w : W) (len : ℕ) → All IsByte (transport_read t len 0 w).stored
    pub read_counts :
        (w : W) (len : ℕ)
        → (transport_read t len 0 w).status ≡ status_ok
        → (transport_read t len 0 w).out_len ≤ length (transport_read t len 0 w).stored
    pub write_counts :
        (w : W) (bytes : List ℕ)
        → (transport_write t bytes 0 w).status ≡ status_ok
        → (transport_write t bytes 0 w).out_len ≤ length bytes

  -- `wire` is a stream of bytes that has left through the transport: a write that is OK appends the
  -- bytes that it counts, and any other appends none.
  pub record IsSink (t : Transport W) (wire : W → List ℕ) : Type 0 where
    pub accepted :
        (w : W) (bytes : List ℕ)
        → (transport_write t bytes 0 w).status ≡ status_ok
        → wire (transport_write t bytes 0 w).world
          ≡ wire w ++ take (transport_write t bytes 0 w).out_len bytes
    pub refused :
        (w : W) (bytes : List ℕ)
        → (transport_write t bytes 0 w).status ≢ status_ok
        → wire (transport_write t bytes 0 w).world ≡ wire w
