-- ===== src/Examples/Broker/Requests.antt =====
-- What the broker of examples/pubsub_demo.c is there for: its answers to the packets of a client, and the
-- topic that it remembers.
use aemlib.Base.{
  ℕ, ◌/◌, ◌%◌, ◌^◌, ◌≤◌, ◌<◌, ◌≡◌, ◌≢◌, refl, List, [], ◌∷◌, length, take, Option, none, some, true,
  false, ==_iff, arith, length-append,
}
use aemlib.Status.{status_ok}
use aemlib.Platform.Transport.{Transport, transport_write}
use aemlib.Proto.Packet.{pkt_connect, pkt_publish, pkt_subscribe}
use aemlib.Proto.Header.{validate_mqtt_flags, qos_of}
use aemlib.Proto.Encode.Finish.{packet}
use aemlib.Proto.Encode.Packets.{publish_body, subscribe_body}
use aemlib.Examples.Broker.{Broker, connack, suback, same_bytes}

-- A packet, by its first byte and its body; the topic subscribed to, before it and after it; and the answers.
-- A CONNECT is accepted, a SUBSCRIBE to one topic that is not too long replaces the topic, a PUBLISH of QoS 0
-- is sent back if it is on that topic, and any other packet is ignored.
pub data Serves : ℕ → List ℕ → Option (List ℕ) → Option (List ℕ) → List (List ℕ) → Type 0 where
  accept :
      (first : ℕ) (body : List ℕ) (o : Option (List ℕ))
      → first / 2 ^ 4 ≡ pkt_connect
      → validate_mqtt_flags (first / 2 ^ 4) (first % 2 ^ 4) ≡ status_ok
      → length body < 128 ^ 4
      → Serves first body o o (connack ∷ [])
  subscribe :
      (packet_id : ℕ) (topic : List ℕ) (o : Option (List ℕ))
      → packet_id < 2 ^ 16
      → length topic ≤ 128
      → Serves 0x82 (subscribe_body packet_id topic) o (some topic) (suback packet_id ∷ [])
  send_back :
      (first : ℕ) (topic payload : List ℕ)
      → first / 2 ^ 4 ≡ pkt_publish
      → qos_of (first % 2 ^ 4) ≡ 0
      → length topic < 2 ^ 16
      → length (publish_body topic payload) < 128 ^ 4
      → Serves first
          (publish_body topic payload)
          (some topic)
          (some topic)
          (packet first (publish_body topic payload) ∷ [])
  pass_over :
      (first : ℕ) (topic payload : List ℕ) (o : Option (List ℕ))
      → first / 2 ^ 4 ≡ pkt_publish
      → qos_of (first % 2 ^ 4) ≡ 0
      → length topic < 2 ^ 16
      → length (publish_body topic payload) < 128 ^ 4
      → o ≢ some topic
      → Serves first (publish_body topic payload) o o []
  ignore :
      (first : ℕ) (body : List ℕ) (o : Option (List ℕ))
      → first / 2 ^ 4 ≢ pkt_connect
      → first / 2 ^ 4 ≢ pkt_subscribe
      → first / 2 ^ 4 ≢ pkt_publish
      → validate_mqtt_flags (first / 2 ^ 4) (first % 2 ^ 4) ≡ status_ok
      → length body < 128 ^ 4
      → Serves first body o o []

-- The topic in the memory of the broker.
abbrev pub Knows : Broker → Option (List ℕ) → Type 0
Knows b none = b.subscribed ≡ false
Knows b (some topic) =
    (b.subscribed ≡ true) × (b.topic_len ≡ length topic) × (take (length topic) b.topic ≡ topic)

pub Knows-buf :
    (b : Broker) (buf : List ℕ) (len : ℕ) (o : Option (List ℕ))
    → Knows b o
    → Knows (record b { buf = buf; buf_len = len }) o
Knows-buf b buf len none k = k
Knows-buf b buf len (some topic) k = k

-- The sizes of the static arrays.
pub record Valid (b : Broker) : Type 0 where
  pub topic_memory : length b.topic ≡ 128
  pub memory : length b.buf ≡ 256
  pub len_in : b.buf_len ≤ 256

-- The answers, written one after another.
abbrev pub send_all : {W : Type 0} → Transport W → List (List ℕ) → W → W
send_all t [] w = w
send_all t (bytes ∷ more) w = send_all t more (transport_write t bytes 0 w).world

pub serves-valid :
    (first : ℕ) (body : List ℕ) (o o' : Option (List ℕ)) (replies : List (List ℕ))
    → Serves first body o o' replies
    → validate_mqtt_flags (first / 2 ^ 4) (first % 2 ^ 4) ≡ status_ok
unfolding validate_mqtt_flags
serves-valid first body _ _ _ (Serves.accept _ _ o typ valid small) = valid
serves-valid _ _ _ _ _ (Serves.subscribe id topic o i l) = refl
serves-valid first _ _ _ _ (Serves.send_back _ topic payload typ qos short small) = rw (typ, qos)
serves-valid first _ _ _ _ (Serves.pass_over _ topic payload o typ qos short small d) =
    rw (typ, qos)
serves-valid first body _ _ _ (Serves.ignore _ _ o a b c valid small) = valid

pub serves-small :
    (first : ℕ) (body : List ℕ) (o o' : Option (List ℕ)) (replies : List (List ℕ))
    → Serves first body o o' replies
    → length body < 128 ^ 4
serves-small first body _ _ _ (Serves.accept _ _ o typ valid small) = small
serves-small _ _ _ _ _ (Serves.subscribe id topic o i l) =
    omega (arith, length-append topic (0 ∷ []))
serves-small first _ _ _ _ (Serves.send_back _ topic payload typ qos short small) = small
serves-small first _ _ _ _ (Serves.pass_over _ topic payload o typ qos short small d) = small
serves-small first body _ _ _ (Serves.ignore _ _ o a b c valid small) = small

pub same_bytes_refl : (xs : List ℕ) → same_bytes xs xs ≡ true
unfolding same_bytes
same_bytes_refl [] = refl
same_bytes_refl (x ∷ xs) = rw ((==_iff x x).1 refl, same_bytes_refl xs) refl

pub same_bytes-eq : (xs ys : List ℕ) → same_bytes xs ys ≡ true → xs ≡ ys
unfolding same_bytes
same_bytes-eq [] [] h = refl
same_bytes-eq [] (y ∷ ys) h = absurd cc
same_bytes-eq (x ∷ xs) [] h = absurd cc
same_bytes-eq (x ∷ xs) (y ∷ ys) h = ground (arith, ==_iff x y, same_bytes-eq xs ys)
