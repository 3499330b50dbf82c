-- ===== src/Client/Io/Receive/Rounds.antt =====
-- A round of the loop of client_read, in core/client.c, on a complete packet.
use aemlib.Base.{
  ℕ, suc, ◌+◌, ◌-◌, ◌<◌, ◌≡◌, refl, ap, sym, ◌∙◌, some, List, ◌++◌, length, take, drop,
  length-append, length-take, take-append, drop-append, take-take, ◌==◌, ==_false, ltb, ltb-false,
  arith, false,
}
use aemlib.Base.Words.{add_size}
use aemlib.Base.Memory.{slice, slice_total}
use aemlib.Status.{status_ok}
use aemlib.Status.Outcome.{Outcome, returned, accessing}
use aemlib.Status.Decoded.{ok}
use aemlib.Proto.Packet.{FixedHeader}
use aemlib.Proto.Header.{decode_fixed_header}
use aemlib.Proto.Header.Laws.{header_of, decode_fixed_header-packet}
use aemlib.Proto.Encode.Finish.{packet}
use aemlib.Proto.Decode.{Message}
use aemlib.Proto.RoundTrip.{length-packet, packet_measure}
use aemlib.Core.State.{Client, Sys}
use aemlib.Core.Valid.{Good, Good-world}
use aemlib.Core.Machine.{consume}
use aemlib.Core.Machine.Inbox.{SameButReceived, received, consume-received}
use aemlib.Client.Io.{client_dispatch_packet, handle_packet, process_packets}
use aemlib.Client.Io.Receive.{IsFrame, deliver_all, frame-valid, dispatch-frame}

module _ {W : Type 0} where
  handle-step :
      (header : FixedHeader) (again : Sys W → Outcome (Sys W)) (s s1 : Sys W) (c : Client W) (n : ℕ)
      → add_size header.header_size header.remaining_length ≡ n
      → ltb s.client.rx_buffer_size n ≡ false
      → ltb s.client.rx_len n ≡ false
      → client_dispatch_packet header n s ≡ returned status_ok s1
      → consume n s1.client ≡ some c
      → handle_packet header again s ≡ again (record s1 { client = c })
  unfolding handle_packet
  handle-step header again s s1 c n e fits full d taken = rw (e, fits, full, d, accessing, taken)

  pub process-step :
      (header : FixedHeader) (view : List ℕ) (s : Sys W) (fuel : ℕ)
      → (s.client.rx_len == 0) ≡ false
      → slice s.client.rx_buffer 0 s.client.rx_len ≡ some view
      → decode_fixed_header view ≡ ok header
      → process_packets (suc fuel) s ≡ handle_packet header (process_packets fuel) s
  unfolding process_packets
  process-step header view s fuel some_bytes e d = rw (some_bytes, e, accessing, d)

  -- A round of the loop on a complete packet.
  pub round :
      (first : ℕ) (body : List ℕ) (ms : List Message) (bytes : List ℕ) (s : Sys W) (fuel : ℕ)
      → Good s
      → IsFrame first body ms
      → received s.client ≡ packet first body ++ bytes
      → (s' : Sys W) × (process_packets (suc fuel) s ≡ process_packets fuel s')
        × Good s'
        × (received s'.client ≡ bytes)
        × (s'.client.rx_len < s.client.rx_len)
        × (s'.world ≡ deliver_all s.client.on_message ms s.world)
        × SameButReceived s s'
  round first body ms bytes s fuel g frame here =
      let header = header_of first body in
      let n : ℕ = length (packet first body) in
      let (valid, small) = frame-valid first body ms frame in
      let size : length (received s.client) ≡ s.client.rx_len =
        omega (arith, length-take s.client.rx_len s.client.rx_buffer, g.rx_memory, g.received_in) in
      let there : n + length bytes ≡ s.client.rx_len =
        omega (arith, size, ap length here, length-append (packet first body) bytes) in
      let front : take n s.client.rx_buffer ≡ packet first body =
        sym (take-take n s.client.rx_len s.client.rx_buffer (omega arith))
        ∙ ap (take n) here
        ∙ take-append (packet first body) bytes n refl in
      let s1 : Sys W = record s { world = deliver_all s.client.on_message ms s.world } in
      let (rx, taken, left, good) = consume-received n s1 (Good-world s s1.world g) (omega arith) in
      (
        record s1 { client = record s.client { rx_buffer = rx; rx_len = s.client.rx_len - n } },
        process-step header (received s.client) s fuel
              (==_false _ 0 (λ z. absurd (omega (arith, length-packet first body))))
              (slice_total s.client.rx_buffer 0 s.client.rx_len
                (omega (arith, g.rx_memory, g.received_in)))
              (ap decode_fixed_header here
                ∙ decode_fixed_header-packet first body bytes valid small)
            ∙ handle-step header (process_packets fuel) s s1 _ n
                (omega (arith, packet_measure first body, g.rx_small, g.rx_memory, g.received_in))
                (ltb-false _ n (omega (arith, g.received_in))) (ltb-false _ n (omega arith))
                (dispatch-frame first body ms n s frame (
                  slice_total s.client.rx_buffer 0 n (omega (arith, g.rx_memory, g.received_in))
                  ∙ ap some front))
                taken,
        good,
        left ∙ ap (drop n) here ∙ drop-append (packet first body) bytes n refl,
        omega (arith, length-packet first body),
        refl,
        refl,
      )
