-- ===== src/Proto/Encode.antt =====
-- proto/proto.c: the encoders of CONNECT, PINGREQ, DISCONNECT, PUBLISH and SUBSCRIBE. Each takes the
-- transmit buffer, `buf_len`, what `*out_len` holds before the call, and its own arguments.
pub mod Finish
pub mod Frame
pub mod Packets
use aemlib.Base.{ℕ, ◌+◌, ◌*◌, ◌%◌, ◌^◌, List, [], ◌∷◌, ltb, if◌then◌else◌}
use aemlib.Base.Words.{add_size, sub_size, u32_mod}
use aemlib.Base.Memory.{store, memcpy, memmove, slice}
use aemlib.Status.{status_ok}
use aemlib.Status.Outcome.{Outcome, returned, fault, ◌>>=◌, accessing}
use aemlib.Proto.Packet.{
  pkt_connect, pkt_publish, pkt_subscribe, pkt_pingreq, pkt_disconnect, max_length_bytes,
  protocol_level, clean_session, subscribe_flags, subscribe_qos,
}
use aemlib.Proto.Cursor.{
  Cursor, too_small, reserve_space, append_byte, append_uint16_be, write_utf8, append_bytes,
}
use aemlib.Proto.RemainingLength.{encode_remaining_length}

-- The bytes of `rl_buf` before they are written.
abbrev pub scratch : List ℕ
scratch = 0 ∷ 0 ∷ 0 ∷ 0 ∷ []

-- The encoded remaining length is in hand: the packet's body is moved down to meet it, and `*out_len`
-- is set.
unfoldable pub place_packet : ℕ → ℕ → Cursor → Outcome Cursor → Outcome Cursor
place_packet rl_pos rl c (returned st r) = returned st c >>= λ c.
    accessing (memmove c.bytes (add_size rl_pos r.out_len) (add_size rl_pos max_length_bytes) rl)
      λ moved. accessing (slice r.bytes 0 r.out_len) λ digits.
        accessing (memcpy moved rl_pos digits) λ bytes.
          returned status_ok
            (record c { bytes = bytes; out_len = add_size (add_size rl_pos r.out_len) rl })
place_packet rl_pos rl c fault = fault

-- The end of an encoder: the remaining length is counted, encoded and put in place.
unfoldable pub finish_packet : ℕ → Cursor → Outcome Cursor
finish_packet rl_pos c =
    let rl = sub_size c.offset (add_size rl_pos max_length_bytes) % u32_mod in
    place_packet rl_pos rl c (encode_remaining_length rl scratch max_length_bytes 0)

abbrev start : List ℕ → ℕ → Cursor
start buf out_len = record { bytes = buf; offset = 0; out_len = out_len }

unfoldable pub encode_connect : List ℕ → ℕ → ℕ → List ℕ → ℕ → Outcome Cursor
encode_connect buf buf_len out_len client_id keepalive_sec = do
  c ← append_byte buf_len (pkt_connect * 2 ^ 4 % 2 ^ 8) (start buf out_len)
  let rl_pos = c.offset
  c ← reserve_space max_length_bytes buf_len c
  c ← write_utf8 buf_len (b'M' ∷ b'Q' ∷ b'T' ∷ b'T' ∷ []) c
  c ← append_byte buf_len protocol_level c
  c ← append_byte buf_len clean_session c
  c ← append_uint16_be buf_len keepalive_sec c
  c ← write_utf8 buf_len client_id c
  finish_packet rl_pos c

-- Two bytes at the start of the buffer, as PINGREQ and DISCONNECT are.
unfoldable pub encode_empty : ℕ → List ℕ → ℕ → ℕ → Outcome Cursor
encode_empty type buf buf_len out_len =
    if ltb buf_len 2
    then returned too_small (start buf out_len)
    else accessing (store buf 0 (type * 2 ^ 4))
        λ typed. accessing (store typed 1 0) λ bytes. returned status_ok (start bytes 2)

unfoldable pub encode_pingreq : List ℕ → ℕ → ℕ → Outcome Cursor
unfolding encode_empty
encode_pingreq = encode_empty pkt_pingreq

unfoldable pub encode_disconnect : List ℕ → ℕ → ℕ → Outcome Cursor
unfolding encode_empty
encode_disconnect = encode_empty pkt_disconnect

unfoldable pub encode_publish : List ℕ → ℕ → ℕ → List ℕ → List ℕ → Outcome Cursor
encode_publish buf buf_len out_len topic payload = do
  c ← append_byte buf_len (pkt_publish * 2 ^ 4) (start buf out_len)
  let rl_pos = c.offset
  c ← reserve_space max_length_bytes buf_len c
  c ← write_utf8 buf_len topic c
  c ← append_bytes buf_len payload c
  finish_packet rl_pos c

unfoldable pub encode_subscribe : List ℕ → ℕ → ℕ → ℕ → List ℕ → Outcome Cursor
encode_subscribe buf buf_len out_len packet_id topic = do
  c ← append_byte buf_len (pkt_subscribe * 2 ^ 4 + subscribe_flags) (start buf out_len)
  let rl_pos = c.offset
  c ← reserve_space max_length_bytes buf_len c
  c ← append_uint16_be buf_len packet_id c
  c ← write_utf8 buf_len topic c
  c ← append_byte buf_len subscribe_qos c
  finish_packet rl_pos c
