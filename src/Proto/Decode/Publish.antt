-- ===== src/Proto/Decode/Publish.antt =====
-- aemlib_proto_decode_publish on a PUBLISH packet of QoS 0.
use aemlib.Base.{
  ℕ, ◌+◌, ◌*◌, ◌^◌, ◌≤◌, ◌<◌, ◌≡◌, ap, ◌∙◌, sym, List, [], ◌∷◌, ◌++◌, length, take, drop, get_elem?,
  length-append, length-take_le, length-drop, append_assoc, ltb-false, arith, get_elem?-append,
  take-append-drop, some,
}
use aemlib.Base.Words.{size_mod, add_size, sub_size}
use aemlib.Base.Memory.{slice, slice-append}
use aemlib.Status.Decoded.{ok}
use aemlib.Proto.Packet.{FixedHeader}
use aemlib.Proto.Header.{qos_of}
use aemlib.Proto.Decode.{decode_publish}

-- A PUBLISH of QoS 0 whose topic length, `high` and `low`, counts no more than what follows it: the
-- topic and the payload are the two parts of it, whatever stands before and behind.
module _ (front : List ℕ) (high low : ℕ) (content rest : List ℕ) (header : FixedHeader)
    (size : header.header_size ≡ length front)
    (remaining : header.remaining_length ≡ 2 + length content) (qos : qos_of header.flags ≡ 0)
    (inside : high * 2 ^ 8 + low ≤ length content)
    (total : length front + 2 + length content + length rest < size_mod) where
  abbrev buf : List ℕ
  buf = front ++ (high ∷ low ∷ (content ++ rest))

  abbrev n : ℕ
  n = high * 2 ^ 8 + low

  buf_size : length buf ≡ length front + 2 + length content + length rest
  buf_size =
      omega
        (arith, length-append front (high ∷ low ∷ (content ++ rest)), length-append content rest)

  low_at : get_elem? buf (add_size header.header_size 1) ≡ some low
  low_at = rw (← append_assoc front (high ∷ []) (low ∷ (content ++ rest))) (
      get_elem?-append (front ++ high ∷ []) low (content ++ rest) (add_size header.header_size 1)
        (omega (arith, length-append front (high ∷ []))))

  abbrev before : List ℕ
  before = front ++ high ∷ low ∷ []

  before_size : length before ≡ length front + 2
  before_size = length-append front (high ∷ low ∷ [])

  topic_size : length (take n content) ≡ n
  topic_size = length-take_le n content inside

  cut : buf ≡ before ++ (take n content ++ (drop n content ++ rest))
  cut = rw (
    append_assoc front (high ∷ low ∷ []) (take n content ++ (drop n content ++ rest)),
    ← append_assoc (take n content) (drop n content) rest,
    take-append-drop n content,
  )

  topic_at : slice buf (add_size header.header_size 2) n ≡ some (take n content)
  topic_at =
      ap (λ b. slice b (add_size header.header_size 2) n) cut
      ∙ slice-append before (take n content) (drop n content ++ rest)
          (add_size header.header_size 2) n (omega (arith, before_size)) (sym topic_size)

  payload_at :
      slice buf (add_size (add_size header.header_size 2) n) (
        sub_size
          (add_size header.header_size header.remaining_length)
          (add_size (add_size header.header_size 2) n))
      ≡ some (drop n content)
  payload_at =
      ap (λ b. slice b payload_start payload_size)
        (cut ∙ sym (append_assoc before (take n content) (drop n content ++ rest)))
      ∙ slice-append (before ++ take n content) (drop n content) rest payload_start payload_size
          (omega (arith, before_size, topic_size, length-append before (take n content)))
          (omega (arith, length-drop n content))
    where
      payload_start : ℕ
      payload_start = add_size (add_size header.header_size 2) n

      payload_size : ℕ
      payload_size = sub_size (add_size header.header_size header.remaining_length) payload_start

  pub decode_publish_content :
      decode_publish buf header ≡ ok (record { topic = take n content; payload = drop n content })
  unfolding decode_publish
  decode_publish_content = rw (
    qos,
    ltb-false (length buf) (add_size header.header_size header.remaining_length)
        (omega (arith, buf_size)),
    ltb-false (add_size header.header_size header.remaining_length) (add_size header.header_size 2)
        (omega arith),
    get_elem?-append front high (low ∷ (content ++ rest)) header.header_size size,
    low_at,
    ltb-false (add_size header.header_size header.remaining_length)
        (add_size (add_size header.header_size 2) n) (omega arith),
    topic_at,
    payload_at,
  )
