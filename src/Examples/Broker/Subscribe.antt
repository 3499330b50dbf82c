-- ===== src/Examples/Broker/Subscribe.antt =====
-- broker_process_packet of examples/pubsub_demo.c on a SUBSCRIBE.
use aemlib.Base.{
  ℕ, zero, suc, ◌+◌, ◌*◌, ◌/◌, ◌%◌, ◌^◌, ◌≤◌, ◌<◌, ◌≡◌, refl, ap, ◌∙◌, List, [], ◌∷◌, ◌++◌,
  append_assoc, length, take, drop, length-append, take-append, drop-append, drop-add, get_elem?,
  some, true, ◌==◌, le→leb, Bool-cases, inl, inr, arith, length-drop,
}
use aemlib.Base.Words.{add_size}
use aemlib.Base.Memory.{slice, slice_total, memcpy-append}
use aemlib.Base.Partial.{◌>>=◌}
use aemlib.Platform.Transport.{Transport}
use aemlib.Proto.Header.Laws.{header_of}
use aemlib.Proto.RemainingLength.Encode.{digits, length-digits}
use aemlib.Proto.Encode.Finish.{packet}
use aemlib.Proto.Encode.Packets.{subscribe_body}
use aemlib.Examples.Broker.{Broker, Demo, suback, remember, read_text, reply, on_subscribe}
use aemlib.Examples.Broker.Requests.{Knows, Valid}

-- Behind `xs`, memory is that of `ys`.
pub get_elem?-behind :
    (xs ys : List ℕ) (k n : ℕ) → n ≡ length xs + k → get_elem? (xs ++ ys) n ≡ get_elem? ys k
get_elem?-behind [] ys k n e = ap (get_elem? ys) (omega arith)
get_elem?-behind (x ∷ xs) ys k zero e = absurd (omega arith)
get_elem?-behind (x ∷ xs) ys k (suc n) e = get_elem?-behind xs ys k n (omega arith)

drop-behind : (xs ys : List ℕ) (k n : ℕ) → n ≡ length xs + k → drop n (xs ++ ys) ≡ drop k ys
drop-behind xs ys k n e =
    ap (λ (m : ℕ). drop m (xs ++ ys)) e
    ∙ drop-add (length xs) k (xs ++ ys)
    ∙ ap (drop k) (drop-append xs ys (length xs) refl)

-- A text of the length given is read without leaving the memory.
read_text_total :
    (n : ℕ) (mem : List ℕ) → n ≤ length mem → (text : List ℕ) × (read_text n mem ≡ some text)
unfolding read_text
read_text_total zero mem h = ([], refl)
read_text_total (suc n) [] h = absurd (omega arith)
read_text_total (suc n) (b ∷ mem) h =
    let (text, e) = read_text_total n mem (omega arith) in
    elim (Bool-cases (b == 0)) [
      | inl nul ↦ ([], rw nul refl)
      | inr more ↦ (b ∷ text, rw (more, e) refl)
    ]

-- The topic is kept at the front of its array.
remember-keeps :
    (b : Broker) (topic : List ℕ) (n at : ℕ)
    → n ≡ length topic
    → n ≤ 128
    → length b.topic ≡ 128
    → slice b.buf at n ≡ some topic
    → (mem : List ℕ) × (remember n at b
        ≡ some (record b { topic = mem; topic_len = n; subscribed = true }))
      × (length mem ≡ 128)
      × (take (length topic) mem ≡ topic)
unfolding remember
remember-keeps b topic n at size fits room e =
    let rest : List ℕ = drop (length topic) b.topic in
    (
      topic ++ rest,
      rw (le→leb n 128 fits, e, ◌>>=◌, memcpy-append [] b.topic topic 0 refl (omega arith)) refl,
      omega (arith, length-append topic rest, length-drop (length topic) b.topic),
      take-append topic rest (length topic) refl,
    )

packet-front :
    (first : ℕ) (body rest : List ℕ)
    → packet first body ++ rest ≡ (first ∷ digits 3 (length body)) ++ (body ++ rest)
unfolding packet
packet-front first body rest = ap (λ l. first ∷ l) (append_assoc (digits 3 (length body)) body rest)

-- Where the bytes of a SUBSCRIBE stand, and its topic.
subscribe_cells :
    (packet_id : ℕ) (topic rest buf : List ℕ) (n : ℕ)
    → n ≡ length topic
    → buf ≡ packet 0x82 (subscribe_body packet_id topic) ++ rest
    → let size = (header_of 0x82 (subscribe_body packet_id topic)).header_size in
      let at = add_size (add_size size 2) 2 in
      (get_elem? buf size ≡ some (packet_id / 2 ^ 8 % 2 ^ 8))
      × (get_elem? buf (add_size size 1) ≡ some (packet_id % 2 ^ 8))
      × (get_elem? buf (add_size size 2) ≡ some (length topic / 2 ^ 8 % 2 ^ 8))
      × (get_elem? buf (add_size (add_size size 2) 1) ≡ some (length topic % 2 ^ 8))
      × (slice buf at n ≡ some topic)
      × ((text : List ℕ) × (read_text n (drop at buf) ≡ some text))
subscribe_cells packet_id topic rest buf n n_is here =
    let body : List ℕ = subscribe_body packet_id topic in
    let front : List ℕ = 0x82 ∷ digits 3 (length body) in
    let size : ℕ = (header_of 0x82 body).header_size in
    let shape : buf ≡ front ++ (body ++ rest) = here ∙ packet-front 0x82 body rest in
    let small : size ≤ 5 = omega (arith, length-digits 3 (length body)) in
    let cell : (k n v : ℕ)
        → n ≡ length front + k
        → get_elem? (body ++ rest) k ≡ some v
        → get_elem? buf n ≡ some v =
      λ k n v e f.
        ap (λ l. get_elem? l n) shape ∙ get_elem?-behind front (body ++ rest) k n e ∙ f in
    let at : ℕ = add_size (add_size size 2) 2 in
    let after : List ℕ = topic ++ 0 ∷ rest in
    let behind : drop at buf ≡ after =
      ap (drop at) shape
      ∙ drop-behind front (body ++ rest) 4 at (omega (arith, small))
      ∙ append_assoc topic (0 ∷ []) rest in
    let room : n ≤ length after = omega (arith, length-append topic (0 ∷ rest)) in
    let total : at + n ≤ length buf = omega (
      arith,
      small,
      room,
      ap length behind,
      length-drop at buf,
      n_is,
      length-append topic (0 ∷ rest),
    ) in
    (
      cell 0 size _ (omega arith) refl,
      cell 1 (add_size size 1) _ (omega (arith, small)) refl,
      cell 2 (add_size size 2) _ (omega (arith, small)) refl,
      cell 3 (add_size (add_size size 2) 1) _ (omega (arith, small)) refl,
      slice_total buf at n total
          ∙ ap (λ l. some (take n l)) behind
          ∙ ap some (take-append topic (0 ∷ rest) n n_is),
      let (text, printed) = read_text_total n after room in
          (text, ap (read_text n) behind ∙ printed),
    )

module _ {W : Type 0} (t : Transport W) where
  -- The accesses of the branch, one after the other.
  on_subscribe-step :
      (s : Demo W) (size a b c d : ℕ) (kept : Broker) (text : List ℕ) (first : ℕ) (body : List ℕ)
      → (header_of first body).header_size ≡ size
      → get_elem? s.broker.buf size ≡ some a
      → get_elem? s.broker.buf (add_size size 1) ≡ some b
      → get_elem? s.broker.buf (add_size size 2) ≡ some c
      → get_elem? s.broker.buf (add_size (add_size size 2) 1) ≡ some d
      → remember (c * 2 ^ 8 + d) (add_size (add_size size 2) 2) s.broker ≡ some kept
      → read_text (c * 2 ^ 8 + d) (drop (add_size (add_size size 2) 2) s.broker.buf) ≡ some text
      → on_subscribe t (header_of first body) s
        ≡ some (reply t (suback ((a * 2 ^ 8 + b) % 2 ^ 16)) (record s { broker = kept }))
  unfolding on_subscribe
  on_subscribe-step s size a b c d kept text first body e0 e1 e2 e3 e4 e5 e6 =
      rw (e0, e1, ◌>>=◌, e2, ◌>>=◌, e3, ◌>>=◌, e4, ◌>>=◌, e5, ◌>>=◌, e6) refl

  -- A SUBSCRIBE to a topic of at most 128 bytes: the topic replaces the one before, and the answer is a
  -- SUBACK of its packet identifier.
  pub on_subscribe-serves :
      (s : Demo W) (packet_id : ℕ) (topic rest : List ℕ)
      → Valid s.broker
      → packet_id < 2 ^ 16
      → length topic ≤ 128
      → s.broker.buf ≡ packet 0x82 (subscribe_body packet_id topic) ++ rest
      → (b : Broker) × (on_subscribe t (header_of 0x82 (subscribe_body packet_id topic)) s
          ≡ some (reply t (suback packet_id) (record s { broker = b })))
        × Valid b
        × Knows b (some topic)
  on_subscribe-serves s packet_id topic rest v small short here =
      let body : List ℕ = subscribe_body packet_id topic in
      let size : ℕ = (header_of 0x82 body).header_size in
      let high : ℕ = length topic / 2 ^ 8 % 2 ^ 8 in
      let low : ℕ = length topic % 2 ^ 8 in
      let n : ℕ = high * 2 ^ 8 + low in
      let at : ℕ = add_size (add_size size 2) 2 in
      let (first, second, third, fourth, there, (text, printed)) =
        subscribe_cells packet_id topic rest s.broker.buf n (omega arith) here in
      let (mem, kept, size', reads) =
        remember-keeps s.broker topic n at (omega arith) (omega arith) v.topic_memory there in
      let id : (packet_id / 2 ^ 8 % 2 ^ 8 * 2 ^ 8 + packet_id % 2 ^ 8) % 2 ^ 16 ≡ packet_id =
        omega arith in
      let b : Broker = record s.broker { topic = mem; topic_len = n; subscribed = true } in
      (
        b,
        on_subscribe-step s size (packet_id / 2 ^ 8 % 2 ^ 8) (packet_id % 2 ^ 8) high low b text
              0x82 body refl first second third fourth kept printed
            ∙ ap (λ k. some (reply t (suback k) (record s { broker = b }))) id,
        record { topic_memory = size'; memory = v.memory; len_in = v.len_in },
        (refl, omega arith, reads),
      )
