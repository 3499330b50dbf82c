-- ===== src/Status.antt =====
-- include/aemlib/status.h: the status word of the library, a layer in the high half and a code in the
-- low half, and (in the children) the results of the functions that return one.
pub mod Outcome
pub mod Decoded
use aemlib.Base.{ℕ, ◌+◌, ◌*◌, ◌/◌, ◌%◌, ◌^◌, ◌≡◌, ◌<◌, arith}

-- aemlib_status_layer_t
pub data Layer : Type 0 where
  general system io protocol user : Layer

-- aemlib_status_code_t
pub data Code : Type 0 where
  ok unknown invalid_arg not_initialized out_of_memory buffer_too_small not_supported : Code
  state_invalid would_block internal closed io timeout connect protocol malformed : Code
  unsupported unexpected unavailable : Code

-- The value of each enumerator.
abbrev pub layer_value : Layer → ℕ
layer_value Layer.general = 0x0001
layer_value Layer.system = 0x0002
layer_value Layer.io = 0x0003
layer_value Layer.protocol = 0x0004
layer_value Layer.user = 0x00FF

abbrev pub code_value : Code → ℕ
code_value Code.ok = 0
code_value Code.unknown = 1
code_value Code.invalid_arg = 2
code_value Code.not_initialized = 3
code_value Code.out_of_memory = 4
code_value Code.buffer_too_small = 5
code_value Code.not_supported = 6
code_value Code.state_invalid = 7
code_value Code.would_block = 8
code_value Code.internal = 9
code_value Code.closed = 10
code_value Code.io = 11
code_value Code.timeout = 12
code_value Code.connect = 13
code_value Code.protocol = 14
code_value Code.malformed = 15
code_value Code.unsupported = 16
code_value Code.unexpected = 17
code_value Code.unavailable = 18

-- AEMLIB_STATUS(layer, code); the two halves have no bit in common, so `|` is `+`.
abbrev pub status : Layer → Code → ℕ
status l c = layer_value l % 2 ^ 16 * 2 ^ 16 + code_value c % 2 ^ 16

-- AEMLIB_STATUS_LAYER(status) and AEMLIB_STATUS_CODE(status)
abbrev pub status_layer : ℕ → ℕ
status_layer s = s / 2 ^ 16 % 2 ^ 16

abbrev pub status_code : ℕ → ℕ
status_code s = s % 2 ^ 16

-- AEMLIB_STATUS_OK
abbrev pub status_ok : ℕ
status_ok = status Layer.general Code.ok

layer_value_lt : (l : Layer) → layer_value l < 2 ^ 16
layer_value_lt Layer.general = omega arith
layer_value_lt l = omega arith

code_value_lt : (c : Code) → code_value c < 2 ^ 16
code_value_lt Code.ok = omega arith
code_value_lt c = omega arith

-- The layer and the code of a status are those that it was made of.
pub status_parts :
    (l : Layer) (c : Code)
    → (status_layer (status l c) ≡ layer_value l) × (status_code (status l c) ≡ code_value c)
status_parts l c = omega (arith, layer_value_lt l, code_value_lt c)
