-- ===== src/Examples/Broker/Round.antt =====
-- A round of the loop of broker_tick, in examples/pubsub_demo.c, on a packet that is complete.
use aemlib.Base.{
  ℕ, ◌-◌, ◌≤◌, ◌≡◌, ◌≢◌, refl, ap, sym, ◌∙◌, List, ◌++◌, length, take, drop, length-take,
  take-append-drop, take-drop, take_none, drop_all, Option, none, some, some_inj, Bool, true, false,
  Bool-cases, inl, inr, ◌==◌, ==_iff, ==_false, ltb, le_of_ltb, if◌then◌else◌, arith,
}
use aemlib.Base.Words.{sub_size}
use aemlib.Base.Memory.{slice, slice_total, memmove, memmove_total}
use aemlib.Base.Memory.Front.{memmove_front}
use aemlib.Base.Partial.{◌>>=◌}
use aemlib.Status.Decoded.{ok}
use aemlib.Platform.Transport.{Transport}
use aemlib.Proto.Packet.{FixedHeader, pkt_connect, pkt_publish, pkt_subscribe}
use aemlib.Proto.Header.Laws.{header_of}
use aemlib.Proto.Encode.Finish.{packet}
use aemlib.Proto.Encode.Packets.{publish_body, subscribe_body}
use aemlib.Proto.Decode.{Message, decode_publish}
use aemlib.Proto.RoundTrip.{decode_publish-alone}
use aemlib.Examples.Broker.{
  Broker, Demo, connack, same_bytes, answers, reply, on_subscribe, echo, process_packet, shift,
}
use aemlib.Examples.Broker.Requests.{Serves, Knows, Valid, send_all, same_bytes_refl, same_bytes-eq}
use aemlib.Examples.Broker.Subscribe.{on_subscribe-serves}

-- The test of the topic is right: it holds on the topic subscribed to and on no other.
answers_known :
    (b : Broker) (topic payload : List ℕ)
    → Knows b (some topic)
    → answers b (record { topic = topic; payload = payload }) ≡ true
answers_known b topic payload (on, len, mem) =
    rw (on, (==_iff (length topic) b.topic_len).1 (sym len), mem, same_bytes_refl topic) refl

answers_other :
    (b : Broker) (o : Option (List ℕ)) (topic payload : List ℕ)
    → Knows b o
    → o ≢ some topic
    → answers b (record { topic = topic; payload = payload }) ≡ false
answers_other b none topic payload off other = rw off refl
answers_other b (some known) topic payload (on, len, mem) other =
    elim (Bool-cases (length topic == b.topic_len)) [
      | inr e ↦ rw (on, e) refl
      | inl e ↦ elim (Bool-cases (same_bytes topic (take (length topic) b.topic))) [
        | inr f ↦ rw (on, e, f) refl
        | inl f ↦
            let size : length topic ≡ length known =
              (==_iff (length topic) b.topic_len).0 e ∙ len in
            let same : topic ≡ known =
              same_bytes-eq topic (take (length topic) b.topic) f
              ∙ ap (λ (n : ℕ). take n b.topic) size
              ∙ mem in
            absurd (other (ap some (sym same)))
      ]
    ]

shift-more :
    (n rest : ℕ) (b : Broker) (buf : List ℕ)
    → sub_size b.buf_len n ≡ rest
    → ltb 0 rest ≡ true
    → memmove b.buf 0 n rest ≡ some buf
    → shift n b ≡ some (record b { buf = buf; buf_len = rest })
unfolding shift
shift-more n rest b buf e more moved = rw (e, more, moved) refl

shift_all :
    (n rest : ℕ) (b : Broker)
    → sub_size b.buf_len n ≡ rest
    → ltb 0 rest ≡ false
    → shift n b ≡ some (record b { buf_len = rest })
unfolding shift
shift_all n rest b e nothing = rw (e, nothing) refl

-- What follows the packet stands at the front.
pub shift-drops :
    (n : ℕ) (b : Broker)
    → Valid b
    → n ≤ b.buf_len
    → (buf : List ℕ) × (shift n b ≡ some (record b { buf = buf; buf_len = b.buf_len - n }))
      × (length buf ≡ 256)
      × (take (b.buf_len - n) buf ≡ drop n (take b.buf_len b.buf))
shift-drops n b v h =
    let rest : ℕ = b.buf_len - n in
    let exact : sub_size b.buf_len n ≡ rest = omega (arith, v.len_in) in
    elim (Bool-cases (ltb 0 rest)) [
      | inl more ↦
          let (buf, e, front) = memmove_front b.buf n rest (omega (arith, v.memory, v.len_in)) in
          let (buf', e', size) =
            memmove_total b.buf 0 n rest (omega (arith, v.memory, v.len_in))
              (omega (arith, v.memory, v.len_in)) in
          (
            buf,
            shift-more n rest b buf exact more e,
            ap length (some_inj (sym e ∙ e')) ∙ size ∙ v.memory,
            front ∙ take-drop n b.buf_len b.buf,
          )
      | inr nothing ↦ (
        b.buf,
        shift_all n rest b exact nothing,
        v.memory,
        take_none rest b.buf (le_of_ltb 0 rest nothing)
            ∙ sym (
                drop_all n (take b.buf_len b.buf)
                  (omega (arith, le_of_ltb 0 rest nothing, length-take b.buf_len b.buf))),
      )
    ]

module _ {W : Type 0} (t : Transport W) where
  on_connect :
      (h : FixedHeader) (n : ℕ) (s : Demo W)
      → h.type ≡ pkt_connect
      → process_packet t h n s ≡ some (reply t connack s)
  unfolding process_packet
  on_connect h n s e = rw ((==_iff h.type pkt_connect).1 e) refl

  on_other :
      (h : FixedHeader) (n : ℕ) (s : Demo W)
      → h.type ≢ pkt_connect
      → h.type ≢ pkt_subscribe
      → h.type ≢ pkt_publish
      → process_packet t h n s ≡ some s
  unfolding process_packet
  on_other h n s a b c = rw (==_false h.type 1 a, ==_false h.type 8 b, ==_false h.type 3 c) refl

  on_subscribe_type :
      (h : FixedHeader) (n : ℕ) (s : Demo W)
      → h.type ≡ pkt_subscribe
      → process_packet t h n s ≡ on_subscribe t h s
  unfolding process_packet
  on_subscribe_type h n s e =
      rw (==_false h.type 1 (λ f. absurd (omega (arith, e, f))), (==_iff h.type 8).1 e) refl

  on_publish :
      (h : FixedHeader) (n : ℕ) (s : Demo W) (p : List ℕ) (m : Message) (a : Bool)
      → h.type ≡ pkt_publish
      → slice s.broker.buf 0 n ≡ some p
      → decode_publish p h ≡ ok m
      → answers s.broker m ≡ a
      → process_packet t h n s ≡ (if a then some (reply t p s) else some s)
  unfolding process_packet echo
  on_publish h n s p m a e cut d f =
      rw
        (
          ==_false h.type 1 (λ f. absurd (omega (arith, e, f))),
          ==_false h.type 8 (λ f. absurd (omega (arith, e, f))),
          (==_iff h.type 3).1 e,
          cut,
          ◌>>=◌,
          d,
          echo,
          f,
        )
        refl

  -- What a step leaves: the answers are written and the topic is remembered.
  abbrev pub Served : FixedHeader → ℕ → Demo W → Option (List ℕ) → List (List ℕ) → Type 0
  Served h n s o replies =
      (b : Broker) × (process_packet t h n s
        ≡ some (record { broker = b; world = send_all t replies s.world }))
      × Valid b
      × Knows b o

  pub process-Served :
      (first : ℕ) (body : List ℕ) (o o' : Option (List ℕ)) (replies : List (List ℕ)) (s : Demo W)
      (n : ℕ)
      → Serves first body o o' replies
      → Valid s.broker
      → Knows s.broker o
      → n ≤ 256
      → take n s.broker.buf ≡ packet first body
      → Served (header_of first body) n s o' replies
  process-Served first body _ _ _ s n (Serves.accept _ _ o typ valid small) v k fits front =
      (s.broker, on_connect (header_of first body) n s typ, v, k)
  process-Served _ _ _ _ _ s n (Serves.subscribe id topic o small short) v k fits front =
      let (b, e, v', k') =
        on_subscribe-serves t s id topic (drop n s.broker.buf) v small short
          (sym (take-append-drop n s.broker.buf) ∙ ap (λ l. l ++ drop n s.broker.buf) front) in
      (b, on_subscribe_type (header_of 0x82 (subscribe_body id topic)) n s refl ∙ e, v', k')
  process-Served first _ _ _ _ s n (Serves.send_back _ topic payload typ qos short small) v k fits
        front =
      (
        s.broker,
        on_publish (header_of first (publish_body topic payload)) n s _ _ true typ
            (slice_total s.broker.buf 0 n (omega (arith, v.memory)) ∙ ap some front)
            (decode_publish-alone first topic payload qos short small)
            (answers_known s.broker topic payload k),
        v,
        k,
      )
  process-Served first _ _ _ _ s n (Serves.pass_over _ topic payload o typ qos short small other) v
        k fits front =
      (
        s.broker,
        on_publish (header_of first (publish_body topic payload)) n s _ _ false typ
            (slice_total s.broker.buf 0 n (omega (arith, v.memory)) ∙ ap some front)
            (decode_publish-alone first topic payload qos short small)
            (answers_other s.broker o topic payload k other),
        v,
        k,
      )
  process-Served first body _ _ _ s n (Serves.ignore _ _ o a b c valid small) v k fits front =
      (s.broker, on_other (header_of first body) n s a b c, v, k)
