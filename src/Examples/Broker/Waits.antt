-- ===== src/Examples/Broker/Waits.antt =====
-- The loop of broker_tick, in examples/pubsub_demo.c, on the beginning of a packet.
use aemlib.Base.{
  ℕ, suc, ◌+◌, ◌/◌, ◌%◌, ◌^◌, ◌≤◌, ◌<◌, ◌≡◌, ◌≢◌, ◌⊎◌, refl, ap, sym, ◌∙◌, List, [], ◌++◌,
  append-nil, length, take, length-append, length-take, Option, Bool-cases, inl, inr, ◌==◌, ==_iff,
  ==_false, ne_of_==, lt→ltb, arith,
}
use aemlib.Base.Words.{add_size}
use aemlib.Base.Memory.{slice_total}
use aemlib.Status.{status_ok}
use aemlib.Status.Decoded.{Decoded, ok, err, Decoded-cases, err_inj}
use aemlib.Platform.Transport.{Transport}
use aemlib.Proto.Packet.{FixedHeader}
use aemlib.Proto.Cursor.{too_small}
use aemlib.Proto.Header.{validate_mqtt_flags, decode_fixed_header}
use aemlib.Proto.Header.Laws.{header_of, decode_fixed_header-packet, decode_fixed_header-append}
use aemlib.Proto.Encode.Finish.{packet}
use aemlib.Proto.RoundTrip.{length-packet, packet_measure}
use aemlib.Examples.Broker.{Broker, Demo, Run, accessing, done, on_header, broker_loop}
use aemlib.Examples.Broker.Requests.{Serves, Valid}

-- Bytes that are the beginning of a packet.
pub record IsBeginning (rest : List ℕ) : Type 0 where
  pub first : ℕ
  pub body : List ℕ
  pub more : List ℕ
  pub valid : validate_mqtt_flags (first / 2 ^ 4) (first % 2 ^ 4) ≡ status_ok
  pub small : length body < 128 ^ 4
  pub whole : rest ++ more ≡ packet first body
  pub missing : 1 ≤ length more

-- Bytes, as packets that are complete and then the beginning of one: the topic subscribed to before and
-- after them, the answers in order, and the beginning.
pub data Dialogue
    : List ℕ → Option (List ℕ) → Option (List ℕ) → List (List ℕ) → List ℕ → Type 0 where
  unfinished : (rest : List ℕ) (o : Option (List ℕ)) → IsBeginning rest → Dialogue rest o o [] rest
  served :
      (first : ℕ) (body bytes : List ℕ) (o o1 o2 : Option (List ℕ)) (now later : List (List ℕ))
      (rest : List ℕ)
      → Serves first body o o1 now
      → Dialogue bytes o1 o2 later rest
      → Dialogue (packet first body ++ bytes) o o2 (now ++ later) rest

-- The bytes that wait.
abbrev pub waiting : Broker → List ℕ
waiting b = take b.buf_len b.buf

beginning_cases :
    (rest : List ℕ) (p : IsBeginning rest)
    → (decode_fixed_header rest ≡ err too_small)
      ⊎ (decode_fixed_header rest ≡ ok (header_of p.first p.body))
beginning_cases rest p = elim (Decoded-cases (decode_fixed_header rest)) [
  | inl (header, d) ↦ inr (settled (λ e. cc))
  | inr (inl (st, d)) ↦ elim (Bool-cases (st == too_small)) [
    | inl short ↦ inl (d ∙ ap err ((==_iff st too_small).0 short))
    | inr final ↦ inr (settled (λ e. ne_of_== st too_small final (err_inj (sym d ∙ e))))
  ]
  | inr (inr d) ↦ inr (settled (λ e. cc))
]
  where
    settled :
        decode_fixed_header rest ≢ err too_small
        → decode_fixed_header rest ≡ ok (header_of p.first p.body)
    settled h =
        sym (decode_fixed_header-append rest p.more h)
        ∙ ap decode_fixed_header (p.whole ∙ sym (append-nil (packet p.first p.body)))
        ∙ decode_fixed_header-packet p.first p.body [] p.valid p.small

module _ {W : Type 0} (t : Transport W) where
  loop_empty : (fuel : ℕ) (s : Demo W) → s.broker.buf_len ≡ 0 → broker_loop t (suc fuel) s ≡ done s
  unfolding broker_loop
  loop_empty fuel s e = rw ((==_iff s.broker.buf_len 0).1 e) refl

  pub loop-header :
      (fuel : ℕ) (s : Demo W) (d : Decoded FixedHeader)
      → Valid s.broker
      → s.broker.buf_len ≢ 0
      → decode_fixed_header (waiting s.broker) ≡ d
      → broker_loop t (suc fuel) s ≡ on_header t (broker_loop t fuel) d s
  unfolding broker_loop
  loop-header fuel s d v some_ e = rw (
    ==_false s.broker.buf_len 0 some_,
    slice_total s.broker.buf 0 s.broker.buf_len (omega (arith, v.memory, v.len_in)),
    accessing,
    e,
  )

  header_waits :
      (again : Demo W → Run (Demo W)) (h : FixedHeader) (s : Demo W) (n : ℕ)
      → add_size h.header_size h.remaining_length ≡ n
      → s.broker.buf_len < n
      → on_header t again (ok h) s ≡ done s
  unfolding on_header
  header_waits again h s n e less = rw (e, lt→ltb s.broker.buf_len n less)

  header_stops :
      (again : Demo W → Run (Demo W)) (st : ℕ) (s : Demo W) → on_header t again (err st) s ≡ done s
  unfolding on_header
  header_stops again st s = refl

  -- The loop ends on a packet that is not complete.
  pub loop-waits :
      (fuel : ℕ) (s : Demo W)
      → Valid s.broker
      → IsBeginning (waiting s.broker)
      → broker_loop t (suc fuel) s ≡ done s
  loop-waits fuel s v p =
      let n : ℕ = length (packet p.first p.body) in
      let rest : List ℕ = waiting s.broker in
      let size : length rest ≡ s.broker.buf_len =
        omega (arith, length-take s.broker.buf_len s.broker.buf, v.memory, v.len_in) in
      let total : s.broker.buf_len + length p.more ≡ n =
        omega (arith, size, ap length p.whole, length-append rest p.more) in
      elim (Bool-cases (s.broker.buf_len == 0)) [
        | inl nothing ↦ loop_empty fuel s ((==_iff s.broker.buf_len 0).0 nothing)
        | inr some_ ↦ elim (beginning_cases rest p) [
          | inl d ↦
              loop-header fuel s _ v (ne_of_== s.broker.buf_len 0 some_) d
              ∙ header_stops (broker_loop t fuel) too_small s
          | inr d ↦
              loop-header fuel s _ v (ne_of_== s.broker.buf_len 0 some_) d
              ∙ header_waits (broker_loop t fuel) _ s n
                  (omega
                    (arith, packet_measure p.first p.body, length-packet p.first p.body, p.small))
                  (omega (arith, p.missing, total))
        ]
      ]
