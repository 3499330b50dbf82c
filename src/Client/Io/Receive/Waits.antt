-- ===== src/Client/Io/Receive/Waits.antt =====
-- The loop of client_read, in core/client.c, on the beginning of a packet.
use aemlib.Base.{
  ℕ, suc, ◌+◌, ◌≡◌, ◌≢◌, ap, sym, ◌∙◌, some, List, [], append-nil, length, length-append,
  length-take, Bool-cases, inl, inr, ◌⊎◌, ◌==◌, ==_iff, ==_false, ne_of_==, ltb, ltb-false, lt→ltb,
  arith, true, false,
}
use aemlib.Base.Words.{add_size}
use aemlib.Base.Memory.{slice, slice_total}
use aemlib.Status.{status_ok}
use aemlib.Status.Outcome.{Outcome, returned, accessing}
use aemlib.Status.Decoded.{ok, err, Decoded-cases, err_inj}
use aemlib.Proto.Packet.{FixedHeader}
use aemlib.Proto.Cursor.{too_small}
use aemlib.Proto.Header.{decode_fixed_header}
use aemlib.Proto.Header.Laws.{header_of, decode_fixed_header-packet, decode_fixed_header-append}
use aemlib.Proto.Encode.Finish.{packet}
use aemlib.Proto.RoundTrip.{packet_measure}
use aemlib.Core.State.{Sys}
use aemlib.Core.Valid.{Good}
use aemlib.Core.Machine.Inbox.{received}
use aemlib.Client.Io.{handle_packet, process_packets}
use aemlib.Client.Io.Receive.{IsPartial, frame-valid}
use aemlib.Client.Io.Receive.Rounds.{process-step}

-- What the decoder says of the beginning of a packet, unless it asks for more, it says of the packet.
partial-header :
    (size : ℕ) (rest : List ℕ) (p : IsPartial size rest)
    → decode_fixed_header rest ≢ err too_small
    → decode_fixed_header rest ≡ ok (header_of p.first p.body)
partial-header size rest p settled =
    let (valid, small) = frame-valid p.first p.body p.messages p.frame in
    sym (decode_fixed_header-append rest p.more settled)
    ∙ ap decode_fixed_header (p.whole ∙ sym (append-nil (packet p.first p.body)))
    ∙ decode_fixed_header-packet p.first p.body [] valid small

partial_cases :
    (size : ℕ) (rest : List ℕ) (p : IsPartial size rest)
    → (decode_fixed_header rest ≡ err too_small)
      ⊎ (decode_fixed_header rest ≡ ok (header_of p.first p.body))
partial_cases size rest p = elim (Decoded-cases (decode_fixed_header rest)) [
  | inl (header, d) ↦ inr (partial-header size rest p (λ e. cc))
  | inr (inl (st, d)) ↦ elim (Bool-cases (st == too_small)) [
    | inl short ↦ inl (d ∙ ap err ((==_iff st too_small).0 short))
    | inr final ↦
        inr (partial-header size rest p (λ e. ne_of_== st too_small final (err_inj (sym d ∙ e))))
  ]
  | inr (inr d) ↦ inr (partial-header size rest p (λ e. cc))
]

module _ {W : Type 0} where
  wait-handle :
      (header : FixedHeader) (again : Sys W → Outcome (Sys W)) (s : Sys W) (n : ℕ)
      → add_size header.header_size header.remaining_length ≡ n
      → ltb s.client.rx_buffer_size n ≡ false
      → ltb s.client.rx_len n ≡ true
      → handle_packet header again s ≡ returned status_ok s
  unfolding handle_packet
  wait-handle header again s n e fits missing = rw (e, fits, missing)

  wait-header :
      (view : List ℕ) (s : Sys W) (fuel : ℕ)
      → (s.client.rx_len == 0) ≡ false
      → slice s.client.rx_buffer 0 s.client.rx_len ≡ some view
      → decode_fixed_header view ≡ err too_small
      → (s.client.rx_len == s.client.rx_buffer_size) ≡ false
      → process_packets (suc fuel) s ≡ returned status_ok s
  unfolding process_packets
  wait-header view s fuel some_bytes e d room = rw (some_bytes, e, accessing, d, room)

  wait-empty :
      (s : Sys W) (fuel : ℕ)
      → (s.client.rx_len == 0) ≡ true
      → process_packets (suc fuel) s ≡ returned status_ok s
  unfolding process_packets
  wait-empty s fuel none_here = rw none_here

  -- The loop ends on a packet that is not complete.
  pub wait :
      (s : Sys W) (fuel : ℕ)
      → Good s
      → IsPartial s.client.rx_buffer_size (received s.client)
      → process_packets (suc fuel) s ≡ returned status_ok s
  wait s fuel g p =
      let rest : List ℕ = received s.client in
      let there =
        slice_total s.client.rx_buffer 0 s.client.rx_len
          (omega (arith, g.rx_memory, g.received_in)) in
      let size : length rest ≡ s.client.rx_len =
        omega (arith, length-take s.client.rx_len s.client.rx_buffer, g.rx_memory, g.received_in) in
      let n : ℕ = length (packet p.first p.body) in
      let total : s.client.rx_len + length p.more ≡ n =
        omega (arith, size, ap length p.whole, length-append rest p.more) in
      elim (Bool-cases (s.client.rx_len == 0)) [
        | inl none_here ↦ wait-empty s fuel none_here
        | inr some_bytes ↦ elim (partial_cases s.client.rx_buffer_size rest p) [
          | inl d ↦ wait-header rest s fuel some_bytes there d (
              ==_false s.client.rx_len s.client.rx_buffer_size
                (λ full. absurd (omega (arith, p.missing, p.fits, full))))
          | inr d ↦
              process-step (header_of p.first p.body) rest s fuel some_bytes there d
              ∙ wait-handle (header_of p.first p.body) (process_packets fuel) s n
                  (omega (arith, packet_measure p.first p.body, p.fits, g.rx_small, g.rx_memory))
                  (ltb-false s.client.rx_buffer_size n p.fits)
                  (lt→ltb s.client.rx_len n (omega (arith, p.missing)))
        ]
      ]
