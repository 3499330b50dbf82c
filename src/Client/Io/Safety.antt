-- ===== src/Client/Io/Safety.antt =====
-- The I/O of core/client.c on any client that satisfies the invariant: memory and fuel.
use aemlib.Base.{
  ℕ, zero, suc, ◌+◌, ◌-◌, ◌^◌, ◌≤◌, ◌<◌, ◌≡◌, refl, ap, Option, none, some, List, length, take,
  drop, All-take, Bool-cases, inl, inr, ◌==◌, ltb, le_of_ltb, false, arith, if◌then◌else◌,
  length-take,
}
use aemlib.Base.Words.{IsByte, add_size, sub_size}
use aemlib.Base.Memory.{memmove, slice, memmove_total, slice_total}
use aemlib.Status.{status_ok, status_code, code_value, Code}
use aemlib.Status.Outcome.{Outcome, returned}
use aemlib.Status.Decoded.{Decoded-cases}
use aemlib.Platform.Transport.{Written, transport_write, is_error}
use aemlib.Proto.Packet.{FixedHeader, pkt_publish}
use aemlib.Proto.Header.{decode_fixed_header}
use aemlib.Proto.Header.Laws.{decode_fixed_header_bounds, decode_fixed_header-ne-overrun}
use aemlib.Proto.Decode.{Message, decode_publish}
use aemlib.Proto.Decode.Bounds.{decode_publish-ne-overrun}
use aemlib.Core.State.{Sys, Callback}
use aemlib.Core.Valid.{
  Good, Safe, Safe-accessing, Good-transmit, Good-world, Leaves, Leaves-bind, Leaves-accessing,
}
use aemlib.Core.Machine.{consume}
use aemlib.Core.Machine.Safety.{receive-Safe, consume-Good}
use aemlib.Client.Io.{
  stage, client_send, unstage, client_flush_pending, deliver, client_dispatch_packet, handle_packet,
  process_packets, client_read,
}

pub head_bytes : (n : ℕ) (xs : List ℕ) → n ≤ length xs → length (take n (drop 0 xs)) ≡ n
head_bytes n xs h = omega (arith, length-take n (drop 0 xs))

module _ {W : Type 0} where
  stage-Safe :
      (written len : ℕ) (s : Sys W)
      → Good s
      → written ≤ len
      → len ≤ s.client.tx_buffer_size
      → Safe (stage written len s)
  unfolding stage
  stage-Safe written len s g h fits = elim (Bool-cases (ltb written len)) [
    | inr all ↦ rw all g
    | inl part ↦
        let (tx, e, same) =
          memmove_total s.client.tx_buffer 0 written (len - written) (omega (arith, g.tx_memory))
            (omega (arith, g.tx_memory)) in
        rw part (
          Safe-accessing (memmove s.client.tx_buffer 0 written (len - written)) _ tx e
            (Good-transmit s tx (len - written) s.world g same (omega arith)))
  ]

  pub unstage-Safe :
      (written : ℕ) (s : Sys W)
      → Good s
      → written ≤ s.client.tx_pending_len
      → Safe (unstage written s)
  unfolding unstage
  unstage-Safe written s g h = elim (Bool-cases (ltb 0 written)) [
    | inr none_out ↦ rw none_out g
    | inl some_out ↦
        rw some_out (elim (Bool-cases (ltb 0 (sub_size s.client.tx_pending_len written))) [
          | inr all ↦ rw all (
              Good-transmit s s.client.tx_buffer (sub_size s.client.tx_pending_len written) s.world
                g refl (omega (arith, g.tx_memory, g.tx_small, g.pending_in)))
          | inl part ↦
              let (tx, e, same) =
                memmove_total s.client.tx_buffer 0 written
                  (sub_size s.client.tx_pending_len written)
                  (omega (arith, g.tx_memory, g.tx_small, g.pending_in))
                  (omega (arith, g.tx_memory, g.tx_small, g.pending_in)) in
              rw part (
                Safe-accessing
                  (memmove s.client.tx_buffer 0 written (sub_size s.client.tx_pending_len written))
                  _ tx e
                  (Good-transmit s tx (sub_size s.client.tx_pending_len written) s.world g same
                    (omega (arith, g.tx_memory, g.tx_small, g.pending_in))))
        ])
  ]

  -- What a write took is at most what it was given.
  module _ (s : Sys W) (g : Good s) (bytes : List ℕ) where
    abbrev pub write_of : Written W
    write_of = transport_write s.client.transport bytes 0 s.world

    unfoldable pub taken : ℕ
    taken =
        if status_code write_of.status == code_value Code.would_block then 0 else write_of.out_len

    pub taken_fits : is_error write_of.status ≡ false → taken ≤ length bytes
    unfolding taken
    taken_fits e = ground (arith, g.law.write_counts s.world bytes)

  pub client_send-Safe :
      (len : ℕ) (s : Sys W) → Good s → len ≤ s.client.tx_buffer_size → Safe (client_send len s)
  unfolding client_send taken
  client_send-Safe len s g h = elim (Bool-cases (ltb 0 s.client.tx_pending_len)) [
    | inl pending ↦ rw pending g
    | inr clear ↦
        let bytes : List ℕ = take len (drop 0 s.client.tx_buffer) in
        rw clear (
          Safe-accessing (slice s.client.tx_buffer 0 len) _ bytes
            (slice_total s.client.tx_buffer 0 len (omega (arith, g.tx_memory)))
            (elim (Bool-cases (is_error (write_of s g bytes).status)) [
              | inl bad ↦ rw bad (Good-world s (write_of s g bytes).world g)
              | inr good ↦ rw good (
                  stage-Safe (taken s g bytes) len (record s { world = (write_of s g bytes).world })
                    (Good-world s (write_of s g bytes).world g)
                    (omega (
                      arith,
                      taken_fits s g bytes good,
                      head_bytes len s.client.tx_buffer (omega (arith, g.tx_memory)),
                    ))
                    h)
            ]))
  ]

  pub client_flush_pending-Safe : (s : Sys W) → Good s → Safe (client_flush_pending s)
  unfolding client_flush_pending taken
  client_flush_pending-Safe s g = elim (Bool-cases (s.client.tx_pending_len == 0)) [
    | inl clear ↦ rw clear g
    | inr pending ↦
        let len = s.client.tx_pending_len in
        let bytes : List ℕ = take len (drop 0 s.client.tx_buffer) in
        rw pending (
          Safe-accessing (slice s.client.tx_buffer 0 len) _ bytes
            (slice_total s.client.tx_buffer 0 len (omega (arith, g.tx_memory, g.pending_in)))
            (elim (Bool-cases (is_error (write_of s g bytes).status)) [
              | inl bad ↦ rw bad (Good-world s (write_of s g bytes).world g)
              | inr good ↦ rw good (
                  unstage-Safe (taken s g bytes) (record s { world = (write_of s g bytes).world })
                    (Good-world s (write_of s g bytes).world g)
                    (omega (
                      arith,
                      taken_fits s g bytes good,
                      head_bytes len s.client.tx_buffer (omega (arith, g.tx_memory, g.pending_in)),
                    )))
            ]))
  ]

  deliver-Leaves :
      (f : Option (Callback W)) (m : Message) (s : Sys W)
      → Good s
      → Leaves s.client (returned status_ok (deliver f m s))
  unfolding deliver
  deliver-Leaves none m s g = (g, refl)
  deliver-Leaves (some f) m s g = (Good-world s (f s.world m) g, refl)

  client_dispatch_packet-Leaves :
      (header : FixedHeader) (n : ℕ) (s : Sys W)
      → Good s
      → header.header_size ≤ 5
      → header.remaining_length < 128 ^ 4
      → n ≤ s.client.rx_len
      → Leaves s.client (client_dispatch_packet header n s)
  unfolding client_dispatch_packet
  client_dispatch_packet-Leaves header n s g small short h =
      elim (Bool-cases (header.type == pkt_publish)) [
        | inr other ↦ rw other (g, refl)
        | inl publish ↦
            let packet : List ℕ = take n (drop 0 s.client.rx_buffer) in
            rw publish (
              Leaves-accessing s.client (slice s.client.rx_buffer 0 n) _ packet
                (slice_total s.client.rx_buffer 0 n (omega (arith, g.rx_memory, g.received_in)))
                (elim (Decoded-cases (decode_publish packet header)) [
                  | inl (m, d) ↦ rw d (deliver-Leaves s.client.on_message m s g)
                  | inr (inl (st, d)) ↦ rw d (g, refl)
                  | inr (inr d) ↦ absurd (
                      decode_publish-ne-overrun packet header small short
                        (All-take IsByte n (drop 0 s.client.rx_buffer) g.rx_bytes) d)
                ]))
      ]

  -- The packet is taken off the buffer before the next is read.
  handle_packet-Safe :
      (header : FixedHeader) (again : Sys W → Outcome (Sys W)) (s : Sys W)
      → Good s
      → 2 ≤ header.header_size
      → header.header_size ≤ 5
      → header.remaining_length < 128 ^ 4
      → ((s' : Sys W) → Good s' → s'.client.rx_len < s.client.rx_len → Safe (again s'))
      → Safe (handle_packet header again s)
  unfolding handle_packet
  handle_packet-Safe header again s g big small short go =
      let n = add_size header.header_size header.remaining_length in
      let exact : n ≡ header.header_size + header.remaining_length = omega arith in
      elim (Bool-cases (ltb s.client.rx_buffer_size n)) [
        | inl large ↦ rw large g
        | inr fits ↦ rw fits (elim (Bool-cases (ltb s.client.rx_len n)) [
          | inl partial ↦ rw partial g
          | inr full ↦ rw full (
              Leaves-bind s.client (client_dispatch_packet header n s) _
                (client_dispatch_packet-Leaves header n s g small short
                  (le_of_ltb s.client.rx_len n full))
                (λ s' good same.
                  let (c, e, good', rest) =
                    consume-Good n s' good
                      (omega (arith, ap (λ c. c.rx_len) same, le_of_ltb s.client.rx_len n full)) in
                  Safe-accessing (consume n s'.client) _ c e (
                    go (record s' { client = c }) good'
                      (omega
                        (arith, rest, ap (λ c. c.rx_len) same, le_of_ltb s.client.rx_len n full)))))
        ])
      ]

  process_packets-Safe :
      (fuel : ℕ) (s : Sys W) → Good s → s.client.rx_len < fuel → Safe (process_packets fuel s)
  unfolding process_packets
  process_packets-Safe zero s g h = absurd (omega arith)
  process_packets-Safe (suc fuel) s g h = elim (Bool-cases (s.client.rx_len == 0)) [
    | inl empty ↦ rw empty g
    | inr more ↦
        let view : List ℕ = take s.client.rx_len (drop 0 s.client.rx_buffer) in
        rw more (
          Safe-accessing (slice s.client.rx_buffer 0 s.client.rx_len) _ view
            (slice_total s.client.rx_buffer 0 s.client.rx_len
              (omega (arith, g.rx_memory, g.received_in)))
            (elim (Decoded-cases (decode_fixed_header view)) [
              | inl (header, d) ↦
                  let (big, small, _, short, _) = decode_fixed_header_bounds view header d in
                  rw d (
                    handle_packet-Safe header (process_packets fuel) s g big small short
                      (λ s' good less. process_packets-Safe fuel s' good (omega arith)))
              | inr (inl (st, d)) ↦ rw d (ground arith)
              | inr (inr d) ↦ absurd (decode_fixed_header-ne-overrun view d)
            ]))
  ]

  pub client_read-Safe : (s : Sys W) → Good s → Safe (client_read s)
  unfolding client_read
  client_read-Safe s g =
      receive-Safe returned (λ s. process_packets (suc s.client.rx_len) s) (λ st s g. g)
        (λ s g. process_packets-Safe (suc s.client.rx_len) s g (omega arith)) s g
