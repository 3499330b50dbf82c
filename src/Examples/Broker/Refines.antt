-- ===== src/Examples/Broker/Refines.antt =====
-- The loop of broker_tick, in examples/pubsub_demo.c, on the packets of a client.
use aemlib.Base.{
  ℕ, zero, suc, ◌+◌, ◌-◌, ◌≤◌, ◌<◌, ◌≡◌, refl, ap, sym, ◌∙◌, subst, List, [], ◌∷◌, ◌++◌, length,
  take, drop, length-append, length-take, take-append, drop-append, take-take, Option, some,
  some_inj, ltb-false, arith,
}
use aemlib.Base.Words.{add_size, sub_size}
use aemlib.Base.Memory.{memcpy, memcpy_total}
use aemlib.Base.Memory.Front.{memcpy_behind}
use aemlib.Status.{status_ok}
use aemlib.Status.Decoded.{ok}
use aemlib.Platform.Transport.{Transport, IsLawful, Read, transport_read}
use aemlib.Proto.Packet.{FixedHeader}
use aemlib.Proto.Header.{decode_fixed_header}
use aemlib.Proto.Header.Laws.{header_of, decode_fixed_header-packet}
use aemlib.Proto.Encode.Finish.{packet}
use aemlib.Proto.RoundTrip.{length-packet, packet_measure}
use aemlib.Examples.Broker.{
  Broker, Demo, Run, accessing, done, process_packet, shift, on_header, broker_loop, broker_tick,
}
use aemlib.Examples.Broker.Terminates.{process_packet-same}
use aemlib.Examples.Broker.Requests.{
  Serves, Knows, Knows-buf, Valid, send_all, serves-valid, serves-small,
}
use aemlib.Examples.Broker.Round.{process-Served, shift-drops}
use aemlib.Examples.Broker.Waits.{IsBeginning, Dialogue, waiting, loop-header, loop-waits}

send_all-append :
    {W : Type 0} (t : Transport W) (xs ys : List (List ℕ)) (w : W)
    → send_all t (xs ++ ys) w ≡ send_all t ys (send_all t xs w)
send_all-append t [] ys w = refl
send_all-append t (x ∷ xs) ys w = send_all-append t xs ys _

module _ {W : Type 0} (t : Transport W) where
  header-goes :
      (again : Demo W → Run (Demo W)) (h : FixedHeader) (s s1 : Demo W) (b : Broker) (n : ℕ)
      → add_size h.header_size h.remaining_length ≡ n
      → n ≤ s.broker.buf_len
      → process_packet t h n s ≡ some s1
      → shift n s1.broker ≡ some b
      → on_header t again (ok h) s ≡ again (record s1 { broker = b })
  unfolding on_header
  header-goes again h s s1 b n e here p q =
      rw (e, ltb-false s.broker.buf_len n here, p, accessing, q)

  -- A round on a complete packet.
  round :
      (fuel : ℕ) (s : Demo W) (first : ℕ) (body bytes : List ℕ) (o o' : Option (List ℕ))
      (replies : List (List ℕ))
      → Valid s.broker
      → Knows s.broker o
      → Serves first body o o' replies
      → waiting s.broker ≡ packet first body ++ bytes
      → (s' : Demo W) × (broker_loop t (suc fuel) s ≡ broker_loop t fuel s')
        × Valid s'.broker
        × Knows s'.broker o'
        × (waiting s'.broker ≡ bytes)
        × (s'.broker.buf_len < s.broker.buf_len)
        × (s'.world ≡ send_all t replies s.world)
  round fuel s first body bytes o o' replies v k serves here =
      let valid = serves-valid first body o o' replies serves in
      let small = serves-small first body o o' replies serves in
      let header = header_of first body in
      let n : ℕ = length (packet first body) in
      let len : ℕ = s.broker.buf_len in
      let bounds = length-packet first body in
      let total : n + length bytes ≡ len = omega (
        arith,
        ap length here,
        length-append (packet first body) bytes,
        length-take len s.broker.buf,
        v.memory,
        v.len_in,
      ) in
      let front : take n s.broker.buf ≡ packet first body =
        sym (take-take n len s.broker.buf (omega arith))
        ∙ ap (take n) here
        ∙ take-append (packet first body) bytes n refl in
      let (b, e, v1, k1) =
        process-Served t first body o o' replies s n serves v k (omega (arith, v.len_in)) front in
      let (same, same_len) = process_packet-same t header n s _ e in
      let (buf, e', size, left) = shift-drops n b v1 (omega (arith, same_len)) in
      (
        record {
          broker = record b { buf = buf; buf_len = b.buf_len - n };
          world = send_all t replies s.world;
        },
        loop-header t fuel s _ v (λ z. absurd (omega arith))
              (ap decode_fixed_header here
                ∙ decode_fixed_header-packet first body bytes valid small)
            ∙ header-goes (broker_loop t fuel) header s _ _ n
                (omega (arith, packet_measure first body, v.len_in)) (omega arith) e e',
        record { topic_memory = v1.topic_memory; memory = size; len_in = omega (arith, v1.len_in) },
        Knows-buf b buf (b.buf_len - n) o' k1,
        left
            ∙ ap (drop n) (
                ap (λ l. take b.buf_len l) same
                ∙ ap (λ (m : ℕ). take m s.broker.buf) same_len
                ∙ here)
            ∙ drop-append (packet first body) bytes n refl,
        omega (arith, same_len),
        refl,
      )

  pub broker_loop-serves :
      (fuel : ℕ) (s : Demo W) (bytes : List ℕ) (o o' : Option (List ℕ)) (replies : List (List ℕ))
      (rest : List ℕ)
      → Valid s.broker
      → Knows s.broker o
      → waiting s.broker ≡ bytes
      → Dialogue bytes o o' replies rest
      → s.broker.buf_len < fuel
      → (s' : Demo W) × (broker_loop t fuel s ≡ done s')
        × Valid s'.broker
        × Knows s'.broker o'
        × (waiting s'.broker ≡ rest)
        × (s'.world ≡ send_all t replies s.world)
  broker_loop-serves zero s bytes o o' replies rest v k here dialogue h = absurd (omega arith)
  broker_loop-serves (suc fuel) s bytes o _ _ _ v k here (Dialogue.unfinished _ _ p) h =
      (s, loop-waits t fuel s v (subst IsBeginning (sym here) p), v, k, here, refl)
  broker_loop-serves (suc fuel) s _ o o' _ rest v k here
        (Dialogue.served first body bytes _ o1 _ now later _ serves dialogue) h =
      let (s1, e, v1, k1, here1, less, world1) =
        round fuel s first body bytes o o1 now v k serves here in
      let (s2, e2, v2, k2, here2, world2) =
        broker_loop-serves fuel s1 bytes o1 o' later rest v1 k1 here1 dialogue (omega arith) in
      (
        s2,
        e ∙ e2,
        v2,
        k2,
        here2,
        world2 ∙ ap (send_all t later) world1 ∙ sym (send_all-append t now later s.world),
      )

  -- The read at the start of a tick.
  abbrev pub read_of : Demo W → Read W
  read_of s = transport_read t (sub_size 256 s.broker.buf_len) 0 s.world

  tick-step :
      (s : Demo W) (buf : List ℕ)
      → (read_of s).status ≡ status_ok
      → memcpy s.broker.buf s.broker.buf_len (read_of s).stored ≡ some buf
      → let len = add_size s.broker.buf_len (read_of s).out_len in
        broker_tick t s
        ≡ broker_loop t (suc len) (record {
          broker = record s.broker { buf = buf; buf_len = len };
          world = (read_of s).world;
        })
  unfolding broker_tick
  tick-step s buf fine e = rw (fine, e) refl

  -- Over a lawful transport, when a read is OK and the bytes that wait and those that it stored are
  -- packets that the broker is there for and then the beginning of one, broker_tick returns after
  -- it wrote exactly the right answers, in order, it remembers the topic of the last SUBSCRIBE, and
  -- the beginning waits: a CONNECT is accepted, a SUBSCRIBE to at most 128 bytes is acknowledged by
  -- its identifier, a PUBLISH of QoS 0 is sent back exactly if it is on the topic, and other
  -- packets are ignored.
  pub broker_tick-serves :
      (s : Demo W) (o o' : Option (List ℕ)) (replies : List (List ℕ)) (rest : List ℕ)
      → IsLawful t
      → Valid s.broker
      → Knows s.broker o
      → (read_of s).status ≡ status_ok
      → Dialogue (waiting s.broker ++ take (read_of s).out_len (read_of s).stored) o o' replies rest
      → (s' : Demo W) × (broker_tick t s ≡ done s')
        × Valid s'.broker
        × Knows s'.broker o'
        × (waiting s'.broker ≡ rest)
        × (s'.world ≡ send_all t replies (read_of s).world)
  broker_tick-serves s o o' replies rest law v k fine dialogue =
      let r = read_of s in
      let b = s.broker in
      let len : ℕ = add_size b.buf_len r.out_len in
      let counted = law.read_counts s.world (sub_size 256 b.buf_len) fine in
      let inside : b.buf_len + length r.stored ≤ 256 =
        omega (arith, law.read_fits s.world (sub_size 256 b.buf_len), v.len_in) in
      let (buf, e, front) =
        memcpy_behind b.buf b.buf_len r.stored r.out_len (omega (arith, inside, v.memory))
          counted in
      let (buf', e', same) =
        memcpy_total b.buf b.buf_len r.stored (omega (arith, inside, v.memory)) in
      let size : length buf ≡ 256 = ap length (some_inj (sym e ∙ e')) ∙ same ∙ v.memory in
      let sum : len ≡ b.buf_len + r.out_len = omega (arith, inside, counted) in
      let start : Demo W = record {
        broker = record b { buf = buf; buf_len = len };
        world = r.world;
      } in
      let (s', e2, v', k', left, world) =
        broker_loop-serves (suc len) start (waiting b ++ take r.out_len r.stored) o o' replies rest
          (record {
            topic_memory = v.topic_memory;
            memory = size;
            len_in = omega (arith, sum, inside, counted);
          })
          (Knows-buf b buf len o k) (ap (λ (n : ℕ). take n buf) sum ∙ front) dialogue
          (omega arith) in
      (s', tick-step s buf fine e ∙ e2, v', k', left, world)
