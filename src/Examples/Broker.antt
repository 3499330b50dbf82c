-- ===== src/Examples/Broker.antt =====
-- The broker of examples/pubsub_demo.c: it answers CONNECT and SUBSCRIBE, and sends every PUBLISH on the topic
-- of the last SUBSCRIBE back.
pub mod Terminates
pub mod Requests
pub mod Subscribe
pub mod Round
pub mod Waits
pub mod Refines
pub mod Overrun
pub mod Tests
use aemlib.Base.{
  ℕ, zero, suc, ◌+◌, ◌*◌, ◌/◌, ◌%◌, ◌^◌, List, [], ◌∷◌, length, take, drop, get_elem?, Option, none,
  some, Bool, true, false, ◌&&◌, ◌==◌, ltb, leb, if◌then◌else◌,
}
use aemlib.Base.Words.{add_size, sub_size}
use aemlib.Base.Memory.{slice, memcpy, memmove}
use aemlib.Base.Partial.{◌>>=◌}
use aemlib.Status.Decoded.{Decoded, ok, err, overrun}
use aemlib.Platform.Transport.{Transport, transport_read, transport_write, is_error}
use aemlib.Proto.Packet.{FixedHeader, pkt_connect, pkt_publish, pkt_subscribe}
use aemlib.Proto.Header.{decode_fixed_header}
use aemlib.Proto.Decode.{Message, decode_publish}

-- The static variables of the broker.
pub record Broker : Type 0 where
  pub topic : List ℕ
  pub topic_len : ℕ
  pub subscribed : Bool
  pub buf : List ℕ
  pub buf_len : ℕ

pub record Demo (W : Type 0) : Type 0 where
  pub broker : Broker
  pub world : W

-- `sizeof(broker_topic)` and `sizeof(buf)`
abbrev pub topic_size : ℕ
topic_size = 128

abbrev pub buf_size : ℕ
buf_size = 256

-- What `printf` reads for `%.*s`: up to the given number of bytes, or to a NUL.
unfoldable pub read_text : ℕ → List ℕ → Option (List ℕ)
read_text zero mem = some []
read_text (suc n) [] = none
read_text (suc n) (b ∷ mem) =
    let rest = read_text n mem in
    if b == 0 then some [] else elim rest [ none ↦ none | some text ↦ some (b ∷ text) ]

-- `memcmp(a, b, n) == 0` on the `n` bytes of each.
unfoldable pub same_bytes : List ℕ → List ℕ → Bool
same_bytes [] [] = true
same_bytes (x ∷ xs) (y ∷ ys) = x == y && same_bytes xs ys
same_bytes [] (y ∷ ys) = false
same_bytes (x ∷ xs) [] = false

-- The topic of a SUBSCRIBE is kept if there is room for it.
unfoldable pub remember : ℕ → ℕ → Broker → Option Broker
remember topic_len at b =
    if leb topic_len topic_size
    then (do
      topic ← slice b.buf at topic_len
      mem ← memcpy b.topic 0 topic
      some (record b { topic = mem; topic_len = topic_len; subscribed = true }))
    else some b

abbrev pub connack : List ℕ
connack = 0x20 ∷ 0x02 ∷ 0x00 ∷ 0x00 ∷ []

abbrev pub suback : ℕ → List ℕ
suback packet_id = 0x90 ∷ 0x03 ∷ packet_id / 2 ^ 8 % 2 ^ 8 ∷ packet_id % 2 ^ 8 ∷ 0x00 ∷ []

-- The test of the topic of a PUBLISH.
abbrev pub answers : Broker → Message → Bool
answers b m =
    let topic_len = length m.topic in
    b.subscribed && (topic_len == b.topic_len && same_bytes m.topic (take topic_len b.topic))

-- `buf_len -= packet_len`, and the bytes that are left are moved to the front.
unfoldable pub shift : ℕ → Broker → Option Broker
shift packet_len b =
    let rest = sub_size b.buf_len packet_len in
    if ltb 0 rest
    then (do buf ← memmove b.buf 0 packet_len rest; some (record b { buf = buf; buf_len = rest }))
    else some (record b { buf_len = rest })

-- A run of the loop; `out_of_fuel` is no C result.
pub data Run (A : Type 0) : Type 0 where
  done : A → Run A
  out_of_bounds : Run A
  out_of_fuel : Run A

abbrev pub accessing : {A B : Type 0} → Option A → (A → Run B) → Run B
accessing none k = out_of_bounds
accessing (some a) k = k a

module _ {W : Type 0} (t : Transport W) where
  -- aemlib_transport_write, whose status the broker does not look at.
  abbrev pub reply : List ℕ → Demo W → Demo W
  reply bytes s = record s { world = (transport_write t bytes 0 s.world).world }

  unfoldable pub on_subscribe : FixedHeader → Demo W → Option (Demo W)
  on_subscribe header s = do
    let offset = header.header_size
    id_high ← get_elem? s.broker.buf offset
    id_low ← get_elem? s.broker.buf (add_size offset 1)
    let offset' = add_size offset 2
    high ← get_elem? s.broker.buf offset'
    low ← get_elem? s.broker.buf (add_size offset' 1)
    let topic_len = high * 2 ^ 8 + low
    let topic_at = add_size offset' 2
    broker ← remember topic_len topic_at s.broker
    text ← read_text topic_len (drop topic_at s.broker.buf)
    some (reply (suback ((id_high * 2 ^ 8 + id_low) % 2 ^ 16)) (record s { broker = broker }))

  -- A PUBLISH that was decoded is sent back on the topic that is subscribed to.
  unfoldable pub echo : List ℕ → Decoded Message → Demo W → Option (Demo W)
  echo packet (err st) s = some s
  echo packet overrun s = none
  echo packet (ok m) s = if answers s.broker m then some (reply packet s) else some s

  -- broker_process_packet
  unfoldable pub process_packet : FixedHeader → ℕ → Demo W → Option (Demo W)
  process_packet header packet_len s =
      if header.type == pkt_connect
      then some (reply connack s)
      else if header.type == pkt_subscribe
      then on_subscribe header s
      else if header.type == pkt_publish
      then (do
        packet ← slice s.broker.buf 0 packet_len
        echo packet (decode_publish packet header) s)
      else some s

  -- The loop after the decoder of the fixed header, and `again` for its next round.
  unfoldable pub on_header : (Demo W → Run (Demo W)) → Decoded FixedHeader → Demo W → Run (Demo W)
  on_header again (err st) s = done s
  on_header again overrun s = out_of_bounds
  on_header again (ok header) s =
      let packet_len = add_size header.header_size header.remaining_length in
      if ltb s.broker.buf_len packet_len
      then done s
      else accessing (process_packet header packet_len s)
          λ s. accessing (shift packet_len s.broker) λ broker. again (record s { broker = broker })

  -- The loop of broker_tick on fuel.
  unfoldable pub broker_loop : ℕ → Demo W → Run (Demo W)
  broker_loop zero s = out_of_fuel
  broker_loop (suc fuel) s =
      let again = broker_loop fuel in
      if s.broker.buf_len == 0
      then done s
      else accessing (slice s.broker.buf 0 s.broker.buf_len)
          λ view. on_header again (decode_fixed_header view) s

  -- broker_tick; a round takes a packet of two bytes or more, so one round more than there are bytes is enough.
  unfoldable pub broker_tick : Demo W → Run (Demo W)
  broker_tick s =
      let b = s.broker in
      let r = transport_read t (sub_size buf_size b.buf_len) 0 s.world in
      accessing (memcpy b.buf b.buf_len r.stored) λ buf.
        if is_error r.status
        then done (record { broker = record b { buf = buf }; world = r.world })
        else let len = add_size b.buf_len r.out_len in
          broker_loop (suc len)
            (record { broker = record b { buf = buf; buf_len = len }; world = r.world })
