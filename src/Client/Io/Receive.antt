-- ===== src/Client/Io/Receive.antt =====
-- The packets that client_read of core/client.c takes from the bytes received, and the messages that it
-- gives to the callback.
pub mod Rounds
pub mod Waits
pub mod Loop
pub mod Rejects
use aemlib.Base.{
  ℕ, zero, suc, ◌+◌, ◌-◌, ◌/◌, ◌%◌, ◌≤◌, ◌<◌, ◌^◌, ◌≡◌, ◌≢◌, refl, ap, sym, subst, ◌∙◌, Option,
  none, some, List, [], ◌∷◌, ◌++◌, append-nil, append_assoc, length, take, drop, length-append,
  length-take, take-append, drop-append, take-take, Bool-cases, inl, inr, ◌⊎◌, ◌==◌, ==_iff,
  ==_false, ltb, ltb-false, lt→ltb, arith, if◌then◌else◌, true, false, not,
}
use aemlib.Base.Words.{add_size}
use aemlib.Base.Memory.{slice, slice_total}
use aemlib.Status.{status_ok}
use aemlib.Status.Outcome.{Outcome, returned, fault, Ends, ◌>>=◌, accessing}
use aemlib.Status.Decoded.{Decoded, ok, err, overrun, Decoded-cases}
use aemlib.Proto.Packet.{FixedHeader, pkt_publish}
use aemlib.Proto.Cursor.{too_small}
use aemlib.Proto.Header.{validate_mqtt_flags, qos_of, decode_fixed_header}
use aemlib.Proto.Header.Laws.{header_of, decode_fixed_header-packet, decode_fixed_header-append}
use aemlib.Proto.Encode.Finish.{packet}
use aemlib.Proto.Encode.Packets.{publish_body}
use aemlib.Proto.Decode.{Message, decode_publish}
use aemlib.Proto.RoundTrip.{decode_publish-alone, length-packet, packet_measure}
use aemlib.Core.State.{Client, Sys, Callback}
use aemlib.Core.Valid.{Good, Good-world}
use aemlib.Core.Machine.{consume, is_too_small}
use aemlib.Core.Machine.Inbox.{received, consume-received}
use aemlib.Client.Io.{deliver, client_dispatch_packet, handle_packet, process_packets}

-- A packet, by its first byte and its body, and the messages in it: a PUBLISH of QoS 0 has one, and a
-- packet of another type none.
pub data IsFrame : ℕ → List ℕ → List Message → Type 0 where
  publish_frame :
      (first : ℕ) (topic payload : List ℕ)
      → first / 2 ^ 4 ≡ pkt_publish
      → qos_of (first % 2 ^ 4) ≡ 0
      → length topic < 2 ^ 16
      → length (publish_body topic payload) < 128 ^ 4
      → IsFrame first
          (publish_body topic payload)
          (record { topic = topic; payload = payload } ∷ [])
  other_frame :
      (first : ℕ) (body : List ℕ)
      → first / 2 ^ 4 ≢ pkt_publish
      → validate_mqtt_flags (first / 2 ^ 4) (first % 2 ^ 4) ≡ status_ok
      → length body < 128 ^ 4
      → IsFrame first body []

-- Bytes that are the beginning of a packet that fits a buffer of `size` bytes.
pub record IsPartial (size : ℕ) (rest : List ℕ) : Type 0 where
  pub first : ℕ
  pub body : List ℕ
  pub messages : List Message
  pub more : List ℕ
  pub frame : IsFrame first body messages
  pub whole : rest ++ more ≡ packet first body
  pub missing : 1 ≤ length more
  pub fits : length (packet first body) ≤ size

-- Received bytes, as the packets that are complete, their messages in order, and the rest.
pub data Received (size : ℕ) : List ℕ → List Message → List ℕ → Type 0 where
  partial : (rest : List ℕ) → IsPartial size rest → Received size rest [] rest
  framed :
      (first : ℕ) (body : List ℕ) (now : List Message) (bytes : List ℕ) (later : List Message)
      (rest : List ℕ)
      → IsFrame first body now
      → Received size bytes later rest
      → Received size (packet first body ++ bytes) (now ++ later) rest

-- The callback, if there is one, on each message in turn.
abbrev pub deliver_all : {W : Type 0} → Option (Callback W) → List Message → W → W
deliver_all f [] w = w
deliver_all none (m ∷ ms) w = deliver_all none ms w
deliver_all (some f) (m ∷ ms) w = deliver_all (some f) ms (f w m)

pub frame-valid :
    (first : ℕ) (body : List ℕ) (ms : List Message)
    → IsFrame first body ms
    → (validate_mqtt_flags (first / 2 ^ 4) (first % 2 ^ 4) ≡ status_ok) × (length body < 128 ^ 4)
unfolding validate_mqtt_flags
frame-valid first body ms (IsFrame.publish_frame _ topic payload typ qos short small) =
    (rw (typ, qos), small)
frame-valid first body ms (IsFrame.other_frame _ _ typ valid small) = (valid, small)

module _ {W : Type 0} where
  pub deliver_one :
      (f : Option (Callback W)) (m : Message) (s : Sys W)
      → deliver f m s ≡ record s { world = deliver_all f (m ∷ []) s.world }
  unfolding deliver
  deliver_one none m s = refl
  deliver_one (some f) m s = refl

  pub deliver_all-append :
      (f : Option (Callback W)) (ms ns : List Message) (w : W)
      → deliver_all f (ms ++ ns) w ≡ deliver_all f ns (deliver_all f ms w)
  deliver_all-append f [] ns w = refl
  deliver_all-append none (m ∷ ms) ns w = deliver_all-append none ms ns w
  deliver_all-append (some f) (m ∷ ms) ns w = deliver_all-append (some f) ms ns (f w m)

  -- A complete packet is dispatched: its messages are delivered, and the client stays as it is.
  pub dispatch-frame :
      (first : ℕ) (body : List ℕ) (ms : List Message) (n : ℕ) (s : Sys W)
      → IsFrame first body ms
      → slice s.client.rx_buffer 0 n ≡ some (packet first body)
      → client_dispatch_packet (header_of first body) n s
        ≡ returned status_ok (record s { world = deliver_all s.client.on_message ms s.world })
  unfolding client_dispatch_packet
  dispatch-frame first body ms n s (IsFrame.publish_frame _ topic payload typ qos short small) e =
      rw
        (
          (==_iff (first / 2 ^ 4) pkt_publish).1 typ,
          e,
          accessing,
          decode_publish-alone first topic payload qos short small,
        )
        (ap (returned status_ok) (deliver_one s.client.on_message _ s))
  dispatch-frame first body ms n s (IsFrame.other_frame _ _ typ valid small) e =
      rw (==_false (first / 2 ^ 4) pkt_publish typ) refl
