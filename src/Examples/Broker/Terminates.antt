-- ===== src/Examples/Broker/Terminates.antt =====
-- The loop of broker_tick in examples/pubsub_demo.c ends.
use aemlib.Base.{
  ℕ, zero, suc, ◌+◌, ◌^◌, ◌<◌, ◌≡◌, ◌≢◌, refl, sym, ap, ◌∙◌, List, drop, get_elem?, ◌*◌, Option,
  none, some, some_inj, Bool-cases, inl, inr, ◌==◌, ltb, leb, le_of_ltb, arith,
}
use aemlib.Base.Words.{add_size, sub_size, size_mod}
use aemlib.Base.Memory.{slice, memcpy, memmove}
use aemlib.Base.Partial.{◌>>=◌}
use aemlib.Status.Decoded.{Decoded, ok, err, overrun}
use aemlib.Platform.Transport.{Transport, transport_read, is_error}
use aemlib.Proto.Packet.{FixedHeader}
use aemlib.Proto.Decode.{Message, decode_publish}
use aemlib.Proto.Header.{decode_fixed_header}
use aemlib.Proto.Header.Laws.{decode_fixed_header_bounds}
use aemlib.Examples.Broker.{
  Broker, Demo, Run, accessing, out_of_fuel, remember, read_text, answers, on_subscribe, echo,
  process_packet, shift, on_header, broker_loop, broker_tick,
}

accessing-ends :
    {A B : Type 0} (o : Option A) (k : A → Run B)
    → ((a : A) → o ≡ some a → k a ≢ out_of_fuel)
    → accessing o k ≢ out_of_fuel
accessing-ends none k h e = cc
accessing-ends (some a) k h e = h a refl e

-- What a chain of accesses came to.
bind-some :
    {A B : Type 0} (o : Option A) (k : A → Option B) (b : B)
    → (o >>= k) ≡ some b
    → (a : A) × (o ≡ some a) × (k a ≡ some b)
bind-some none k b e = absurd cc
bind-some (some a) k b e = (a, refl, e)

-- The buffer and how much of it counts.
abbrev pub SameBuffer : Broker → Broker → Type 0
SameBuffer b b' = (b'.buf ≡ b.buf) × (b'.buf_len ≡ b.buf_len)

remember-same : (n at : ℕ) (b b' : Broker) → remember n at b ≡ some b' → SameBuffer b b'
unfolding remember
remember-same n at b b' e = elim (Bool-cases (leb n 128)) [
  | inl fits ↦
      let e1 = rw fits at e in
      let (topic, _, e2) = bind-some (slice b.buf at n) _ b' e1 in
      let (mem, _, e3) = bind-some (memcpy b.topic 0 topic) _ b' e2 in
      (ap (λ x. x.buf) (sym (some_inj e3)), ap (λ x. x.buf_len) (sym (some_inj e3)))
  | inr long ↦
      let e1 = rw long at e in
      (ap (λ x. x.buf) (sym (some_inj e1)), ap (λ x. x.buf_len) (sym (some_inj e1)))
]

pub shift_len : (n : ℕ) (b b' : Broker) → shift n b ≡ some b' → b'.buf_len ≡ sub_size b.buf_len n
unfolding shift
shift_len n b b' e = elim (Bool-cases (ltb 0 (sub_size b.buf_len n))) [
  | inl more ↦
      let e1 = rw more at e in
      let (buf, _, e2) = bind-some (memmove b.buf 0 n (sub_size b.buf_len n)) _ b' e1 in
      ap (λ x. x.buf_len) (sym (some_inj e2))
  | inr all_ ↦ let e1 = rw all_ at e in ap (λ x. x.buf_len) (sym (some_inj e1))
]

module _ {W : Type 0} (t : Transport W) where
  on_subscribe-same :
      (h : FixedHeader) (s s' : Demo W)
      → on_subscribe t h s ≡ some s'
      → SameBuffer s.broker s'.broker
  unfolding on_subscribe
  on_subscribe-same h s s' e =
      let buf = s.broker.buf in
      let (ih, _, e1) = bind-some (get_elem? buf h.header_size) _ s' e in
      let (il, _, e2) = bind-some (get_elem? buf (add_size h.header_size 1)) _ s' e1 in
      let (th, _, e3) = bind-some (get_elem? buf (add_size h.header_size 2)) _ s' e2 in
      let (tl, _, e4) = bind-some (get_elem? buf (add_size (add_size h.header_size 2) 1)) _ s' e3 in
      let at = add_size (add_size h.header_size 2) 2 in
      let (b, kept, e5) = bind-some (remember (th * 2 ^ 8 + tl) at s.broker) _ s' e4 in
      let (text, _, e6) = bind-some (read_text (th * 2 ^ 8 + tl) (drop at buf)) _ s' e5 in
      let same = remember-same (th * 2 ^ 8 + tl) at s.broker b kept in
      let e7 : s'.broker ≡ b = ap (λ x. x.broker) (sym (some_inj e6)) in
      (ap (λ x. x.buf) e7 ∙ same.0, ap (λ x. x.buf_len) e7 ∙ same.1)

  echo-same :
      (p : List ℕ) (d : Decoded Message) (s s' : Demo W)
      → echo t p d s ≡ some s'
      → SameBuffer s.broker s'.broker
  unfolding echo
  echo-same p (err st) s s' e =
      (ap (λ x. x.broker.buf) (sym (some_inj e)), ap (λ x. x.broker.buf_len) (sym (some_inj e)))
  echo-same p overrun s s' e = absurd cc
  echo-same p (ok m) s s' e = elim (Bool-cases (answers s.broker m)) [
    | inl yes_ ↦
        let e1 = rw yes_ at e in
        (ap (λ x. x.broker.buf) (sym (some_inj e1)), ap (λ x. x.broker.buf_len) (sym (some_inj e1)))
    | inr no_ ↦
        let e1 = rw no_ at e in
        (ap (λ x. x.broker.buf) (sym (some_inj e1)), ap (λ x. x.broker.buf_len) (sym (some_inj e1)))
  ]

  pub process_packet-same :
      (h : FixedHeader) (n : ℕ) (s s' : Demo W)
      → process_packet t h n s ≡ some s'
      → SameBuffer s.broker s'.broker
  unfolding process_packet
  process_packet-same h n s s' e = elim (Bool-cases (h.type == 1)) [
    | inl c ↦
        let e1 = rw c at e in
        (ap (λ x. x.broker.buf) (sym (some_inj e1)), ap (λ x. x.broker.buf_len) (sym (some_inj e1)))
    | inr c ↦ elim (Bool-cases (h.type == 8)) [
      | inl d ↦ on_subscribe-same h s s' (rw (c, d) at e)
      | inr d ↦ elim (Bool-cases (h.type == 3)) [
        | inl f ↦
            let e1 = rw (c, d, f) at e in
            let (p, _, e2) = bind-some (slice s.broker.buf 0 n) _ s' e1 in
            echo-same p (decode_publish p h) s s' e2
        | inr f ↦
            let e1 = rw (c, d, f) at e in
            (
              ap (λ x. x.broker.buf) (sym (some_inj e1)),
              ap (λ x. x.broker.buf_len) (sym (some_inj e1)),
            )
      ]
    ]
  ]

  -- A round that goes on has taken two bytes or more.
  on_header-ends :
      (again : Demo W → Run (Demo W)) (view : List ℕ) (d : Decoded FixedHeader) (s : Demo W)
      → d ≡ decode_fixed_header view
      → s.broker.buf_len < size_mod
      → ((s' : Demo W) → s'.broker.buf_len < s.broker.buf_len → again s' ≢ out_of_fuel)
      → on_header t again d s ≢ out_of_fuel
  unfolding on_header
  on_header-ends again view (err st) s e small next = λ f. cc
  on_header-ends again view overrun s e small next = λ f. cc
  on_header-ends again view (ok h) s e small next =
      let n = add_size h.header_size h.remaining_length in
      let bounds = decode_fixed_header_bounds view h (sym e) in
      elim (Bool-cases (ltb s.broker.buf_len n)) [
        | inl missing ↦ rw missing (λ f. cc)
        | inr whole ↦ rw whole (
            accessing-ends (process_packet t h n s) _ λ s1 p.
              accessing-ends (shift n s1.broker) _ λ b q.
                next (record s1 { broker = b })
                  (omega (
                    arith,
                    shift_len n s1.broker b q,
                    (process_packet-same h n s s1 p).1,
                    bounds,
                    le_of_ltb s.broker.buf_len n whole,
                  )))
      ]

  broker_loop-ends :
      (fuel : ℕ) (s : Demo W)
      → s.broker.buf_len < fuel
      → s.broker.buf_len < size_mod
      → broker_loop t fuel s ≢ out_of_fuel
  unfolding broker_loop
  broker_loop-ends zero s h small = absurd (omega arith)
  broker_loop-ends (suc fuel) s h small = elim (Bool-cases (s.broker.buf_len == 0)) [
    | inl nothing ↦ rw nothing (λ f. cc)
    | inr some_ ↦ rw some_ (
        accessing-ends (slice s.broker.buf 0 s.broker.buf_len) _ λ view p.
          on_header-ends (broker_loop t fuel) view (decode_fixed_header view) s refl small
            (λ s' less. broker_loop-ends fuel s' (omega arith) (omega arith)))
  ]

  -- From every state of the broker and whatever its transport does, the loop of broker_tick ends
  -- within one round more than there are bytes in its buffer.
  pub broker_tick-ne-out_of_fuel : (s : Demo W) → broker_tick t s ≢ out_of_fuel
  unfolding broker_tick
  broker_tick-ne-out_of_fuel s =
      let r = transport_read t (sub_size 256 s.broker.buf_len) 0 s.world in
      accessing-ends (memcpy s.broker.buf s.broker.buf_len r.stored) _ λ buf p.
        elim (Bool-cases (is_error r.status)) [
          | inl bad ↦ rw bad (λ f. cc)
          | inr fine ↦ rw fine (broker_loop-ends _ _ (omega arith) (omega arith))
        ]
