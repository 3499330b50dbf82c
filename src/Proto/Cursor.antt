-- ===== src/Proto/Cursor.antt =====
-- proto/proto.c, the helpers that write at an offset of a buffer: ensure_space, reserve_space,
-- append_byte, append_uint16_be and aemlib_proto_write_utf8. `buf_len` is what the caller claims the
-- buffer to hold; the memory itself is `bytes`, and a write outside it is a fault.
pub mod Emits
pub mod Helpers
use aemlib.Base.{ℕ, ◌/◌, ◌%◌, ◌^◌, List, [], ◌∷◌, length, ltb, if◌then◌else◌}
use aemlib.Base.Words.{add_size}
use aemlib.Base.Memory.{store, memcpy}
use aemlib.Status.{status, status_ok, Layer, Code}
use aemlib.Status.Outcome.{Outcome, returned, ◌>>=◌, accessing}
use aemlib.Proto.Packet.{prefix_size}

-- A buffer under construction: its memory, the local `offset`, and what `*out_len` holds.
pub record Cursor : Type 0 where
  pub bytes : List ℕ
  pub offset : ℕ
  pub out_len : ℕ

abbrev pub too_small : ℕ
too_small = status Layer.protocol Code.buffer_too_small

unfoldable pub ensure_space : ℕ → ℕ → ℕ → ℕ
ensure_space needed offset buf_len =
    if ltb buf_len (add_size offset needed) then too_small else status_ok

unfoldable pub reserve_space : ℕ → ℕ → Cursor → Outcome Cursor
unfolding ensure_space
reserve_space size buf_len c = do
  c ← returned (ensure_space size c.offset buf_len) c
  returned status_ok (record c { offset = add_size c.offset size })

unfoldable pub append_byte : ℕ → ℕ → Cursor → Outcome Cursor
unfolding ensure_space
append_byte buf_len value c = do
  c ← returned (ensure_space 1 c.offset buf_len) c
  accessing (store c.bytes c.offset value)
      λ bytes. returned status_ok (record c { bytes = bytes; offset = add_size c.offset 1 })

-- The high byte of a uint16_t first; both casts keep a value below 2^8.
unfoldable pub append_uint16_be : ℕ → ℕ → Cursor → Outcome Cursor
unfolding ensure_space
append_uint16_be buf_len value c = do
  c ← returned (ensure_space 2 c.offset buf_len) c
  accessing (store c.bytes c.offset (value / 2 ^ 8 % 2 ^ 8)) λ high.
      accessing (store high (add_size c.offset 1) (value % 2 ^ 8)) λ bytes.
        returned status_ok (record c { bytes = bytes; offset = add_size (add_size c.offset 1) 1 })

-- `str` is the bytes of a C string before its NUL, so that `strlen` is `length`.
unfoldable pub write_utf8 : ℕ → List ℕ → Cursor → Outcome Cursor
unfolding ensure_space
write_utf8 buf_len str c =
    let len = length str in
    do
      c ← returned (ensure_space (add_size prefix_size len) c.offset buf_len) c
      accessing (store c.bytes (add_size c.offset 0) (len / 2 ^ 8 % 2 ^ 8)) λ high.
          accessing (store high (add_size c.offset 1) (len % 2 ^ 8)) λ prefixed.
            accessing (memcpy prefixed (add_size c.offset prefix_size) str) λ bytes.
              returned status_ok
                (record c { bytes = bytes; offset = add_size c.offset (add_size prefix_size len) })

-- memcpy(&buf[offset], data, len), behind its check, as aemlib_proto_encode_publish does it.
unfoldable pub append_bytes : ℕ → List ℕ → Cursor → Outcome Cursor
unfolding ensure_space
append_bytes buf_len src c = do
  c ← returned (ensure_space (length src) c.offset buf_len) c
  accessing (memcpy c.bytes c.offset src) λ bytes.
      returned status_ok (record c { bytes = bytes; offset = add_size c.offset (length src) })
