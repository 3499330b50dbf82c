-- ===== src/Proto/Decode/Bounds.antt =====
-- The decoders of proto/proto.c and the ends of their buffers.
use aemlib.Base.{
  ℕ, ◌+◌, ◌*◌, ◌^◌, ◌≤◌, ◌<◌, ◌≢◌, List, length, All, get_elem?, get_elem?-ne-none, get_elem?-All,
  ltb, le_of_ltb, not, ◌==◌, arith,
}
use aemlib.Base.Words.{add_size, sub_size, IsByte}
use aemlib.Base.Memory.{slice-ne-none}
use aemlib.Status.Decoded.{
  overrun, reading-ne-overrun, if-ne-overrun, err-ne-overrun, ok-ne-overrun,
}
use aemlib.Proto.Packet.{FixedHeader}
use aemlib.Proto.Header.{qos_of}
use aemlib.Proto.Decode.{decode_publish, decode_connack, decode_suback}

pub decode_connack-ne-overrun : (buf : List ℕ) → decode_connack buf ≢ overrun
unfolding decode_connack
decode_connack-ne-overrun buf =
    if-ne-overrun (ltb (length buf) 4) _ _ (λ e. cc)
      λ h.
        let size = le_of_ltb (length buf) 4 h in
        reading-ne-overrun (get_elem? buf 2) _ (get_elem?-ne-none buf 2 (omega (arith, size)))
          λ a p.
            reading-ne-overrun (get_elem? buf 3) _ (get_elem?-ne-none buf 3 (omega (arith, size)))
              λ b q e. cc

pub decode_suback-ne-overrun : (buf : List ℕ) → decode_suback buf ≢ overrun
unfolding decode_suback
decode_suback-ne-overrun buf =
    if-ne-overrun (ltb (length buf) 5) _ _ (λ e. cc)
      λ h.
        let size = le_of_ltb (length buf) 5 h in
        reading-ne-overrun (get_elem? buf 2) _ (get_elem?-ne-none buf 2 (omega (arith, size)))
          λ a p.
            reading-ne-overrun (get_elem? buf 3) _ (get_elem?-ne-none buf 3 (omega (arith, size)))
              λ b q.
                reading-ne-overrun (get_elem? buf 4) _
                  (get_elem?-ne-none buf 4 (omega (arith, size))) λ c r e. cc

-- With a header of at most five bytes and a remaining length below 128 ^ 4, as the decoder of the
-- fixed header gives, decode_publish never reads outside a buffer of bytes, whatever is in it and
-- however much is missing.
pub decode_publish-ne-overrun :
    (buf : List ℕ) (header : FixedHeader)
    → header.header_size ≤ 5
    → header.remaining_length < 128 ^ 4
    → All IsByte buf
    → decode_publish buf header ≢ overrun
unfolding decode_publish
decode_publish-ne-overrun buf header small short bytes =
    if-ne-overrun (not (qos_of header.flags == 0)) _ _ (err-ne-overrun _) λ q.
      if-ne-overrun (ltb (length buf) packet_end) _ _ (err-ne-overrun _) λ whole.
        if-ne-overrun (ltb packet_end topic_at) _ _ (err-ne-overrun _) λ prefixed.
          let inside = le_of_ltb (length buf) packet_end whole in
          let room = le_of_ltb packet_end topic_at prefixed in
          reading-ne-overrun (get_elem? buf header.header_size) _
            (get_elem?-ne-none buf _ (omega (arith, inside, room)))
            λ high p.
              reading-ne-overrun (get_elem? buf (add_size header.header_size 1)) _
                (get_elem?-ne-none buf _ (omega (arith, inside, room)))
                λ low r.
                  let high_byte = get_elem?-All IsByte buf header.header_size high bytes p in
                  let low_byte =
                    get_elem?-All IsByte buf (add_size header.header_size 1) low bytes r in
                  if-ne-overrun (ltb packet_end (add_size topic_at (high * 2 ^ 8 + low))) _ _
                    (err-ne-overrun _)
                    λ fits.
                      let within =
                        le_of_ltb packet_end (add_size topic_at (high * 2 ^ 8 + low)) fits in
                      reading-ne-overrun _ _
                        (slice-ne-none buf topic_at (high * 2 ^ 8 + low)
                          (omega (arith, inside, room, high_byte, low_byte, within)))
                        λ t s.
                          reading-ne-overrun _ _
                            (slice-ne-none buf (add_size topic_at (high * 2 ^ 8 + low))
                              (sub_size packet_end (add_size topic_at (high * 2 ^ 8 + low)))
                              (omega (arith, inside, room, high_byte, low_byte, within)))
                            λ m u. ok-ne-overrun _
  where
    packet_end : ℕ
    packet_end = add_size header.header_size header.remaining_length

    topic_at : ℕ
    topic_at = add_size header.header_size 2
