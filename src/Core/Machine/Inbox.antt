-- ===== src/Core/Machine/Inbox.antt =====
-- The receive buffer of core/core.c and core/client.c: a read puts bytes behind those that wait, and a
-- packet that is done with is taken off the front.
use aemlib.Base.{
  ℕ, ◌+◌, ◌-◌, ◌≤◌, ◌≡◌, refl, ap, sym, ◌∙◌, List, length, take, drop, take-drop, take_none, none,
  ◌⊎◌, Option-cases, ◌++◌, drop_all, length-take, true, false, some, some_inj, subst, Bool-cases,
  inl, inr, ltb, le_of_ltb, arith,
}
use aemlib.Base.Words.{sub_size, add_size}
use aemlib.Base.Memory.{memmove, memcpy, memcpy_total, memcpy-IsByte}
use aemlib.Base.Memory.Front.{memmove_front, memcpy_behind}
use aemlib.Status.{status_ok}
use aemlib.Status.Outcome.{Outcome, Whenever, Whenever-accessing}
use aemlib.Platform.Transport.{Read, transport_read, is_error}
use aemlib.Core.State.{Client, Sys}
use aemlib.Core.Valid.{Good, Good-receive}
use aemlib.Core.Machine.{consume, receive}
use aemlib.Core.Machine.Safety.{consume-Good}

-- The bytes that wait at the front of `rx_buffer`.
abbrev pub received : {W : Type 0} → Client W → List ℕ
received c = take c.rx_len c.rx_buffer

module _ {W : Type 0} where
  -- Only the receive buffer and the world are other ones.
  abbrev pub SameButReceived : Sys W → Sys W → Type 0
  SameButReceived s s' =
      s'.client ≡ record s.client { rx_buffer = s'.client.rx_buffer; rx_len = s'.client.rx_len }

  consume-some :
      (n rest : ℕ) (c : Client W) (rx : List ℕ)
      → sub_size c.rx_len n ≡ rest
      → ltb 0 rest ≡ true
      → memmove c.rx_buffer 0 n rest ≡ some rx
      → consume n c ≡ some (record c { rx_buffer = rx; rx_len = rest })
  unfolding consume
  consume-some n rest c rx exact more e = rw (exact, more, e, exact)

  consume_all :
      (n rest : ℕ) (c : Client W)
      → sub_size c.rx_len n ≡ rest
      → ltb 0 rest ≡ false
      → consume n c ≡ some (record c { rx_len = rest })
  unfolding consume
  consume_all n rest c exact none_left = rw (exact, none_left)

  -- What is left is what followed the packet.
  consume-shift :
      (n : ℕ) (s : Sys W)
      → Good s
      → n ≤ s.client.rx_len
      → (rx : List ℕ) × (consume n s.client
          ≡ some (record s.client { rx_buffer = rx; rx_len = s.client.rx_len - n }))
        × (take (s.client.rx_len - n) rx ≡ drop n (received s.client))
  consume-shift n s g h =
      let rx = s.client.rx_buffer in
      let len = s.client.rx_len in
      let exact : sub_size len n ≡ len - n =
        omega (arith, g.rx_memory, g.rx_small, g.received_in) in
      elim (Bool-cases (ltb 0 (len - n))) [
        | inl more ↦
            let (out, e, front) =
              memmove_front rx n (len - n) (omega (arith, g.rx_memory, g.received_in)) in
            (out, consume-some n (len - n) s.client out exact more e, front ∙ take-drop n len rx)
        | inr none_left ↦ (
          rx,
          consume_all n (len - n) s.client exact none_left,
          take_none (len - n) rx (omega (arith, le_of_ltb 0 (len - n) none_left))
              ∙ sym (
                  drop_all n (received s.client)
                    (omega (arith, le_of_ltb 0 (len - n) none_left, length-take len rx))),
        )
      ]

  -- Taking `n` bytes off the buffer leaves the bytes behind them, the rest of the client, and the
  -- invariant.
  pub consume-received :
      (n : ℕ) (s : Sys W)
      → Good s
      → n ≤ s.client.rx_len
      → (rx : List ℕ) × (consume n s.client
          ≡ some (record s.client { rx_buffer = rx; rx_len = s.client.rx_len - n }))
        × (take (s.client.rx_len - n) rx ≡ drop n (received s.client))
        × Good
            (record s { client = record s.client { rx_buffer = rx; rx_len = s.client.rx_len - n } })
  consume-received n s g h =
      let (rx, e, left) = consume-shift n s g h in
      let (c, e', good, _) = consume-Good n s g h in
      (rx, e, left, subst (λ c. Good (record s { client = c })) (some_inj (sym e' ∙ e)) good)

  -- A read that is OK puts the bytes that it counts behind those that wait.
  abbrev pub read_of : Sys W → Read W
  read_of s =
      transport_read s.client.transport (sub_size s.client.rx_buffer_size s.client.rx_len) 0 s.world

  receive_ok :
      (failed : ℕ → Sys W → Outcome (Sys W)) (k : Sys W → Outcome (Sys W)) (s : Sys W) (rx : List ℕ)
      → (read_of s).status ≡ status_ok
      → memcpy s.client.rx_buffer s.client.rx_len (read_of s).stored ≡ some rx
      → receive failed k s
        ≡ k (record {
          client = record s.client {
            rx_buffer = rx;
            rx_len = add_size s.client.rx_len (read_of s).out_len;
          };
          world = (read_of s).world;
        })
  unfolding receive
  receive_ok failed k s rx fine e = rw (fine, e) refl

  pub receive-appends :
      (failed : ℕ → Sys W → Outcome (Sys W)) (k : Sys W → Outcome (Sys W)) (s : Sys W)
      → Good s
      → (read_of s).status ≡ status_ok
      → (s' : Sys W) × (receive failed k s ≡ k s')
        × Good s'
        × (received s'.client ≡ received s.client ++ take (read_of s).out_len (read_of s).stored)
        × (s'.world ≡ (read_of s).world)
        × SameButReceived s s'
  receive-appends failed k s g fine =
      let c = s.client in
      let r = read_of s in
      let room : ℕ = sub_size c.rx_buffer_size c.rx_len in
      let counted = g.law.read_counts s.world room fine in
      let inside : c.rx_len + length r.stored ≤ length c.rx_buffer =
        omega (arith, g.law.read_fits s.world room, g.rx_memory, g.received_in, g.rx_small) in
      let (rx, e, front) = memcpy_behind c.rx_buffer c.rx_len r.stored r.out_len inside counted in
      let (rx', e', same) = memcpy_total c.rx_buffer c.rx_len r.stored inside in
      let size : length rx ≡ length c.rx_buffer = ap length (some_inj (sym e ∙ e')) ∙ same in
      let sum : add_size c.rx_len r.out_len ≡ c.rx_len + r.out_len =
        omega (arith, inside, counted, g.rx_small) in
      (
        record {
          client = record c { rx_buffer = rx; rx_len = add_size c.rx_len r.out_len };
          world = r.world;
        },
        receive_ok failed k s rx fine e,
        Good-receive s rx (add_size c.rx_len r.out_len) r.world g size
            (memcpy-IsByte c.rx_buffer c.rx_len r.stored rx g.rx_bytes
              (g.law.read_bytes s.world room) e)
            (omega (
              arith,
              sum,
              counted,
              g.law.read_fits s.world room,
              g.received_in,
              g.rx_small,
              g.rx_memory,
            )),
        ap (λ n. take n rx) sum ∙ front,
        refl,
        refl,
      )

  consume_cases :
      (n : ℕ) (c : Client W)
      → (consume n c ≡ none)
        ⊎ ((rx : List ℕ) × (m : ℕ) × (consume n c ≡ some (record c { rx_buffer = rx; rx_len = m })))
  unfolding consume
  consume_cases n c =
      let rest : ℕ = sub_size c.rx_len n in
      elim (Bool-cases (ltb 0 rest)) [
        | inr all ↦ inr (c.rx_buffer, rest, rw all)
        | inl part ↦ elim (Option-cases (memmove c.rx_buffer 0 n rest)) [
          | inl e ↦ inl (rw (part, e))
          | inr (rx, e) ↦ inr (rx, rest, rw (part, e))
        ]
      ]

  -- Only the buffer and its length change when a packet is taken off.
  pub consume-frame :
      (P : Client W → Type 0) (n : ℕ) (c c' : Client W)
      → consume n c ≡ some c'
      → ((rx : List ℕ) (m : ℕ) → P (record c { rx_buffer = rx; rx_len = m }))
      → P c'
  consume-frame P n c c' e p = elim (consume_cases n c) [
    | inl none_left ↦ absurd cc
    | inr (rx, m, e') ↦ subst P (some_inj (sym e' ∙ e)) (p rx m)
  ]

  -- What a read that failed and one that did not leave to what follows them.
  pub receive-read :
      (failed : ℕ → Sys W → Outcome (Sys W)) (k : Sys W → Outcome (Sys W)) (P : ℕ → Sys W → Type 0)
      (s : Sys W)
      → ((st : ℕ) (rx : List ℕ) (n : ℕ)
          → let c = record s.client { rx_buffer = rx; rx_len = n } in
            Whenever P (failed st (record { client = c; world = (read_of s).world })))
      → ((rx : List ℕ) (n : ℕ)
          → let c = record s.client { rx_buffer = rx; rx_len = n } in
            Whenever P (k (record { client = c; world = (read_of s).world })))
      → Whenever P (receive failed k s)
  unfolding receive
  receive-read failed k P s bad good =
      let r = read_of s in
      Whenever-accessing P (memcpy s.client.rx_buffer s.client.rx_len r.stored) _ (λ rx e.
        elim (Bool-cases (is_error r.status)) [
          | inl b ↦ rw b (bad r.status rx s.client.rx_len)
          | inr g ↦ rw g (good rx _)
        ])

  pub receive-frame :
      (failed : ℕ → Sys W → Outcome (Sys W)) (k : Sys W → Outcome (Sys W)) (P : ℕ → Sys W → Type 0)
      (s : Sys W)
      → ((st : ℕ) (rx : List ℕ) (n : ℕ) (w : W)
          → Whenever P (
              failed st
                (record { client = record s.client { rx_buffer = rx; rx_len = n }; world = w })))
      → ((rx : List ℕ) (n : ℕ) (w : W)
          → Whenever P
              (k (record { client = record s.client { rx_buffer = rx; rx_len = n }; world = w })))
      → Whenever P (receive failed k s)
  receive-frame failed k P s bad good =
      receive-read failed k P s (λ st rx n. bad st rx n _) (λ rx n. good rx n _)
