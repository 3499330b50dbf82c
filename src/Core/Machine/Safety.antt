-- ===== src/Core/Machine/Safety.antt =====
-- The state machine of core/core.c on any client that satisfies the invariant: memory.
use aemlib.Base.{
  ℕ, ◌+◌, ◌-◌, ◌≤◌, ◌≡◌, refl, some, List, length, take, drop, Bool-cases, inl, inr, ◌==◌, ltb,
  false, arith, if◌then◌else◌,
}
use aemlib.Base.Words.{add_size, sub_size}
use aemlib.Base.Memory.{memcpy, slice, memcpy_total, memcpy-IsByte, memmove_safe, slice_total}
use aemlib.Status.{status_ok, status_code, code_value, Code}
use aemlib.Status.Outcome.{Outcome}
use aemlib.Status.Decoded.{Decoded-cases}
use aemlib.Platform.Transport.{Read, transport_read, is_error}
use aemlib.Proto.Packet.{FixedHeader}
use aemlib.Proto.Cursor.{too_small}
use aemlib.Proto.Header.{decode_fixed_header, protocol_error}
use aemlib.Proto.Header.Laws.{decode_fixed_header-ne-overrun}
use aemlib.Proto.Decode.{decode_connack}
use aemlib.Proto.Decode.Bounds.{decode_connack-ne-overrun}
use aemlib.Core.State.{
  Client, Sys, State, disconnected, connecting, mqtt_connect_sent, mqtt_connected,
  mqtt_disconnecting,
}
use aemlib.Core.Valid.{Good, Safe, Safe-accessing, Good-receive}
use aemlib.Core.Machine.{
  core_connect, connect_in, core_disconnect, disconnect_in, core_poll, next_packet_id,
  drop_connection, handle_connecting, receive, consume, establish, check_timeout, is_too_small,
  take_connack, handle_header, await_connack, handle_connect_sent, poll_in,
}

module _ {W : Type 0} where
  drop_connection-Safe : (st : ℕ) (s : Sys W) → Good s → Safe (drop_connection st s)
  unfolding drop_connection
  drop_connection-Safe st s g = assumption

  check_timeout-Safe : (s : Sys W) → Good s → Safe (check_timeout s)
  unfolding check_timeout drop_connection
  check_timeout-Safe s g = ground arith

  handle_connecting-Safe : (s : Sys W) → Good s → Safe (handle_connecting s)
  unfolding handle_connecting
  handle_connecting-Safe s g = ground arith

  pub core_connect-Safe : (s : Sys W) → Good s → Safe (core_connect s)
  unfolding core_connect connect_in
  core_connect-Safe s g = opened s.client.state
    where
      opened : (a : State) → Safe (connect_in a s)
      opened disconnected = assumption
      opened a = g

  pub core_disconnect-Safe : (s : Sys W) → Good s → Safe (core_disconnect s)
  unfolding core_disconnect disconnect_in
  core_disconnect-Safe s g = closed s.client.state
    where
      closed : (a : State) → Safe (disconnect_in a s)
      closed mqtt_connected = assumption
      closed a = g

  -- A read goes into the free end of the buffer.
  module _ (s : Sys W) (g : Good s) where
    abbrev room : ℕ
    room = sub_size s.client.rx_buffer_size s.client.rx_len

    abbrev r : Read W
    r = transport_read s.client.transport room 0 s.world

    stored_fits : s.client.rx_len + length r.stored ≤ length s.client.rx_buffer
    stored_fits =
        omega (arith, g.law.read_fits s.world room, g.rx_memory, g.received_in, g.rx_small)

    read_len : ℕ
    read_len = if status_code r.status == code_value Code.would_block then 0 else r.out_len

    read_len_fits :
        is_error r.status ≡ false → add_size s.client.rx_len read_len ≤ s.client.rx_buffer_size
    unfolding read_len
    read_len_fits e = ground (
      arith,
      g.law.read_fits s.world room,
      g.law.read_counts s.world room,
      g.rx_memory,
      g.received_in,
      g.rx_small,
    )

  pub receive-Safe :
      (failed : ℕ → Sys W → Outcome (Sys W)) (received : Sys W → Outcome (Sys W))
      → ((st : ℕ) (s : Sys W) → Good s → Safe (failed st s))
      → ((s : Sys W) → Good s → Safe (received s))
      → (s : Sys W) → Good s
      → Safe (receive failed received s)
  unfolding receive read_len
  receive-Safe failed received ff fr s g =
      let (rx, e, same) =
        memcpy_total s.client.rx_buffer s.client.rx_len (r s g).stored (stored_fits s g) in
      let bytes =
        memcpy-IsByte s.client.rx_buffer s.client.rx_len (r s g).stored rx g.rx_bytes
          (g.law.read_bytes s.world (room s g)) e in
      Safe-accessing (memcpy s.client.rx_buffer s.client.rx_len (r s g).stored) _ rx e
        (elim (Bool-cases (is_error (r s g).status)) [
          | inl bad ↦ rw bad (
              ff (r s g).status _
                (Good-receive s rx s.client.rx_len (r s g).world g same bytes g.received_in))
          | inr good ↦ rw good (
              fr _ (
                Good-receive s rx (add_size s.client.rx_len (read_len s g)) (r s g).world g same
                  bytes (read_len_fits s g good)))
        ])

  -- Taking a packet that is there off the buffer.
  pub consume-Good :
      (n : ℕ) (s : Sys W)
      → Good s
      → n ≤ s.client.rx_len
      → (c : Client W) × (consume n s.client ≡ some c)
        × Good (record s { client = c })
        × (c.rx_len ≡ s.client.rx_len - n)
  unfolding consume
  consume-Good n s g h = elim (Bool-cases (ltb 0 (sub_size s.client.rx_len n))) [
    | inl more ↦
        let (rx, e, same, bytes) =
          memmove_safe s.client.rx_buffer 0 n (sub_size s.client.rx_len n) (omega arith)
            (omega arith) g.rx_bytes in
        (
          record s.client { rx_buffer = rx; rx_len = sub_size s.client.rx_len n },
          rw (more, e),
          Good-receive s rx (sub_size s.client.rx_len n) s.world g same bytes (omega arith),
          omega arith,
        )
    | inr none_left ↦ (
      record s.client { rx_len = sub_size s.client.rx_len n },
      rw none_left,
      Good-receive s s.client.rx_buffer (sub_size s.client.rx_len n) s.world g refl g.rx_bytes
          (omega arith),
      omega arith,
    )
  ]

  establish-Safe : (s : Sys W) → Good s → Safe (establish s)
  establish-Safe s g = ground arith

  take_connack-Safe : (n : ℕ) (s : Sys W) → Good s → n ≤ s.client.rx_len → Safe (take_connack n s)
  unfolding take_connack
  take_connack-Safe n s g h =
      let (c, e, good, _) = consume-Good n s g h in
      let packet : List ℕ = take n (drop 0 s.client.rx_buffer) in
      Safe-accessing (slice s.client.rx_buffer 0 n) _ packet
        (slice_total s.client.rx_buffer 0 n (omega arith))
        (Safe-accessing (consume n s.client) _ c e (elim (Decoded-cases (decode_connack packet)) [
          | inl (connack, d) ↦ rw d (elim (Bool-cases (connack.return_code == 0)) [
            | inl zero_code ↦ rw zero_code (establish-Safe (record s { client = c }) good)
            | inr refused ↦ rw refused (drop_connection-Safe _ (record s { client = c }) good)
          ])
          | inr (inl (st, d)) ↦ rw d (drop_connection-Safe _ (record s { client = c }) good)
          | inr (inr d) ↦ absurd (decode_connack-ne-overrun packet d)
        ]))

  handle_header-Safe : (h : FixedHeader) (s : Sys W) → Good s → Safe (handle_header h s)
  unfolding handle_header
  handle_header-Safe h s g = ground (
    arith,
    drop_connection-Safe protocol_error s g,
    drop_connection-Safe too_small s g,
    check_timeout-Safe s g,
    take_connack-Safe (add_size h.header_size h.remaining_length) s g,
  )

  await_connack-Safe : (s : Sys W) → Good s → Safe (await_connack s)
  unfolding await_connack
  await_connack-Safe s g = elim (Bool-cases (ltb 0 s.client.rx_len)) [
    | inr nothing ↦ rw nothing (check_timeout-Safe s g)
    | inl some_bytes ↦
        let view : List ℕ = take s.client.rx_len (drop 0 s.client.rx_buffer) in
        rw some_bytes (
          Safe-accessing (slice s.client.rx_buffer 0 s.client.rx_len) _ view
            (slice_total s.client.rx_buffer 0 s.client.rx_len
              (omega (arith, g.rx_memory, g.received_in)))
            (elim (Decoded-cases (decode_fixed_header view)) [
              | inl (header, d) ↦ rw d (handle_header-Safe header s g)
              | inr (inl (st, d)) ↦ rw d (elim (Bool-cases (is_too_small st)) [
                | inl wait ↦ rw wait (check_timeout-Safe s g)
                | inr bad ↦ rw bad (drop_connection-Safe st s g)
              ])
              | inr (inr d) ↦ absurd (decode_fixed_header-ne-overrun view d)
            ]))
  ]

  handle_connect_sent-Safe : (s : Sys W) → Good s → Safe (handle_connect_sent s)
  unfolding handle_connect_sent
  handle_connect_sent-Safe =
      receive-Safe drop_connection await_connack drop_connection-Safe await_connack-Safe

  poll_in-Safe : (st : State) (s : Sys W) → Good s → Safe (poll_in st s)
  unfolding poll_in
  poll_in-Safe disconnected s g = g
  poll_in-Safe connecting s g = handle_connecting-Safe s g
  poll_in-Safe mqtt_connect_sent s g = handle_connect_sent-Safe s g
  poll_in-Safe mqtt_connected s g = g
  poll_in-Safe mqtt_disconnecting s g = drop_connection-Safe status_ok s g

  pub core_poll-Safe : (s : Sys W) → Good s → Safe (core_poll s)
  unfolding core_poll
  core_poll-Safe s g = poll_in-Safe s.client.state s g

  -- The next identifier is a nonzero uint16_t, and not the one before.
  pub next_packet_id-Good :
      (s : Sys W) → Good s → Good (record s { client = next_packet_id s.client })
  unfolding next_packet_id
  next_packet_id-Good s g = ground arith

  -- Only the counter changes.
  pub next_packet_id-frame :
      (c : Client W) → next_packet_id c ≡ record c { packet_id = (next_packet_id c).packet_id }
  unfolding next_packet_id
  next_packet_id-frame c = refl
