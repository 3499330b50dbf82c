-- ===== src/Client/Io/Receive/Rejects.antt =====
-- The loop of client_read, in core/client.c, on a PUBLISH above QoS 0.
use aemlib.Base.{
  ℕ, suc, ◌+◌, ◌/◌, ◌%◌, ◌<◌, ◌^◌, ◌≡◌, ◌≢◌, ap, ◌∙◌, some, List, ◌++◌, length, take, length-append,
  length-take, ==_iff, ==_false, ltb, ltb-false, arith, false,
}
use aemlib.Base.Words.{add_size}
use aemlib.Base.Memory.{slice, slice_total}
use aemlib.Status.{status_ok}
use aemlib.Status.Outcome.{Outcome, returned, accessing}
use aemlib.Status.Decoded.{err}
use aemlib.Proto.Packet.{FixedHeader, pkt_publish}
use aemlib.Proto.Header.{validate_mqtt_flags, qos_of, decode_fixed_header}
use aemlib.Proto.Header.Laws.{header_of, decode_fixed_header-packet}
use aemlib.Proto.Encode.Finish.{packet}
use aemlib.Proto.Decode.{decode_publish, unsupported}
use aemlib.Proto.RoundTrip.{length-packet, packet_measure}
use aemlib.Core.State.{Sys}
use aemlib.Core.Valid.{Good}
use aemlib.Core.Machine.Inbox.{received}
use aemlib.Client.Io.{client_dispatch_packet, handle_packet, process_packets}
use aemlib.Client.Io.Receive.Rounds.{process-step}

publish_flags :
    (type flags : ℕ)
    → type ≡ pkt_publish
    → qos_of flags ≢ 3
    → validate_mqtt_flags type flags ≡ status_ok
unfolding validate_mqtt_flags
publish_flags type flags e low = rw (e, ==_false (qos_of flags) 3 low)

decode_publish-unsupported :
    (buf : List ℕ) (h : FixedHeader) → qos_of h.flags ≢ 0 → decode_publish buf h ≡ err unsupported
unfolding decode_publish
decode_publish-unsupported buf h above = rw (==_false (qos_of h.flags) 0 above)

module _ {W : Type 0} where
  dispatch-unsupported :
      (h : FixedHeader) (bytes : List ℕ) (n : ℕ) (s : Sys W)
      → h.type ≡ pkt_publish
      → qos_of h.flags ≢ 0
      → slice s.client.rx_buffer 0 n ≡ some bytes
      → client_dispatch_packet h n s ≡ returned unsupported s
  unfolding client_dispatch_packet
  dispatch-unsupported h bytes n s e above there =
      rw (
        (==_iff h.type pkt_publish).1 e,
        there,
        accessing,
        decode_publish-unsupported bytes h above,
      )

  handle-unsupported :
      (h : FixedHeader) (again : Sys W → Outcome (Sys W)) (s : Sys W) (n : ℕ)
      → add_size h.header_size h.remaining_length ≡ n
      → ltb s.client.rx_buffer_size n ≡ false
      → ltb s.client.rx_len n ≡ false
      → client_dispatch_packet h n s ≡ returned unsupported s
      → handle_packet h again s ≡ returned unsupported s
  unfolding handle_packet
  handle-unsupported h again s n e fits full d = rw (e, fits, full, d)

  -- On a client in the invariant, when a complete PUBLISH of QoS 1 or 2 stands at the front of the
  -- bytes received, the loop of client_read returns UNSUPPORTED and leaves the client as it is: the
  -- packet is neither delivered nor taken off the buffer.
  pub process_packets-unsupported :
      (first : ℕ) (body rest : List ℕ) (fuel : ℕ) (s : Sys W)
      → Good s
      → first / 2 ^ 4 ≡ pkt_publish
      → qos_of (first % 2 ^ 4) ≢ 0
      → qos_of (first % 2 ^ 4) ≢ 3
      → length body < 128 ^ 4
      → received s.client ≡ packet first body ++ rest
      → process_packets (suc fuel) s ≡ returned unsupported s
  process_packets-unsupported first body rest fuel s g typ above low small here =
      let n : ℕ = length (packet first body) in
      let size : length (received s.client) ≡ s.client.rx_len =
        omega (arith, length-take s.client.rx_len s.client.rx_buffer, g.rx_memory, g.received_in) in
      let there : n + length rest ≡ s.client.rx_len =
        omega (arith, size, ap length here, length-append (packet first body) rest) in
      process-step (header_of first body) (received s.client) s fuel
        (==_false _ 0 (λ z. absurd (omega (arith, length-packet first body))))
        (slice_total s.client.rx_buffer 0 s.client.rx_len
          (omega (arith, g.rx_memory, g.received_in)))
        (ap decode_fixed_header here
          ∙ decode_fixed_header-packet first body rest
              (publish_flags (first / 2 ^ 4) (first % 2 ^ 4) typ low) small)
      ∙ handle-unsupported (header_of first body) (process_packets fuel) s n
          (omega (arith, packet_measure first body, g.rx_small, g.rx_memory, g.received_in))
          (ltb-false _ n (omega (arith, g.received_in))) (ltb-false _ n (omega arith))
          (dispatch-unsupported (header_of first body) (take n s.client.rx_buffer) n s typ above
            (slice_total s.client.rx_buffer 0 n (omega (arith, g.rx_memory, g.received_in))))
