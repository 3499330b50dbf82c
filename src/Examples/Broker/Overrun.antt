-- ===== src/Examples/Broker/Overrun.antt =====
-- broker_process_packet of examples/pubsub_demo.c on a SUBSCRIBE that announces a longer topic than memory has.
use aemlib.Base.{
  ℕ, zero, suc, ◌+◌, ◌*◌, ◌^◌, ◌<◌, ◌≡◌, ◌≢◌, refl, List, [], ◌∷◌, length, drop, get_elem?, All,
  none, some, ==_iff, ==_false, leb-false, arith,
}
use aemlib.Base.Words.{add_size}
use aemlib.Base.Partial.{◌>>=◌}
use aemlib.Platform.Transport.{Transport}
use aemlib.Proto.Packet.{FixedHeader, pkt_subscribe}
use aemlib.Examples.Broker.{Broker, Demo, remember, read_text, on_subscribe, process_packet}

read_text_none :
    (n : ℕ) (mem : List ℕ) → All (λ b. b ≢ 0) mem → length mem < n → read_text n mem ≡ none
unfolding read_text
read_text_none zero mem h less = absurd (omega arith)
read_text_none (suc n) [] h less = refl
read_text_none (suc n) (b ∷ mem) (one, others) less =
    rw (==_false b 0 one, read_text_none n mem others (omega arith)) refl

remember-refuses : (n at : ℕ) (b : Broker) → 128 < n → remember n at b ≡ some b
unfolding remember
remember-refuses n at b h = rw (leb-false n 128 h)

module _ {W : Type 0} (t : Transport W) where
  -- When a SUBSCRIBE states a topic length above 128 that is also more than what is left of the
  -- buffer, and no byte of that is NUL, broker_process_packet reads outside its buffer.
  pub process_packet-overrun :
      (h : FixedHeader) (n : ℕ) (s : Demo W) (id_high id_low high low : ℕ)
      → let buf = s.broker.buf in
        let size = h.header_size in
        h.type ≡ pkt_subscribe
        → get_elem? buf size ≡ some id_high
        → get_elem? buf (add_size size 1) ≡ some id_low
        → get_elem? buf (add_size size 2) ≡ some high
        → get_elem? buf (add_size (add_size size 2) 1) ≡ some low
        → 128 < high * 2 ^ 8 + low
        → length (drop (add_size (add_size size 2) 2) buf) < high * 2 ^ 8 + low
        → All (λ b. b ≢ 0) (drop (add_size (add_size size 2) 2) buf)
        → process_packet t h n s ≡ none
  unfolding process_packet on_subscribe
  process_packet-overrun h n s id_high id_low high low e e1 e2 e3 e4 long far no_nul =
      rw
        (
          ==_false h.type 1 (λ f. absurd (omega (arith, e, f))),
          (==_iff h.type 8).1 e,
          e1,
          ◌>>=◌,
          e2,
          ◌>>=◌,
          e3,
          ◌>>=◌,
          e4,
          ◌>>=◌,
          remember-refuses (high * 2 ^ 8 + low) (add_size (add_size h.header_size 2) 2) s.broker
              long,
          ◌>>=◌,
          read_text_none (high * 2 ^ 8 + low) _ no_nul far,
        )
        refl
