-- ===== src/Examples/Live/Tests.antt =====
-- examples/mqtt_broker_demo.c over a system whose broker answers at once.
use aemlib.Base.{
  zero, suc, All, All-take, length-take, some_inj, subst, ℕ, ◌+◌, ◌*◌, ◌/◌, ◌%◌, ◌^◌, ◌<◌, ◌≤◌, ◌≡◌,
  refl, List, [], ◌∷◌, length, take, drop, replicate, none, some, true, ◌==◌, ◌++◌, Option,
  le_of_ltb, ltb, ltb→lt, Bool-cases, inl, inr, if◌then◌else◌, arith,
}
use aemlib.Base.Memory.{memcpy, slice, memmove}
use aemlib.Client.Api.{
  init, publish, subscribe, poll, poll_io, keep_alive, send_connect_once, disconnect, connect,
}
use aemlib.Client.Io.{
  stage, client_send, unstage, client_flush_pending, deliver, client_dispatch_packet, handle_packet,
  process_packets, client_read, send_encoded, client_send_connect, client_send_ping,
}
use aemlib.Core.Config.{core_init, validate_config, init_with, apply_config}
use aemlib.Core.Machine.{
  connect_in, core_connect, disconnect_in, core_disconnect, next_packet_id, drop_connection,
  handle_connecting, receive, consume, check_timeout, take_connack, handle_header, await_connack,
  handle_connect_sent, poll_in, core_poll,
}
use aemlib.Platform.Time.{time_validate}
use aemlib.Platform.Transport.{transport_validate}
use aemlib.Proto.Cursor.{append_byte, reserve_space, write_utf8, append_uint16_be, append_bytes}
use aemlib.Proto.Decode.{decode_connack, decode_publish}
use aemlib.Proto.Encode.{
  encode_connect, finish_packet, place_packet, encode_subscribe, encode_publish,
}
use aemlib.Proto.Header.{decode_fixed_header}
use aemlib.Proto.RemainingLength.{encode_remaining_length, decode_remaining_length}
use aemlib.Examples.Broker.{done}
use aemlib.Base.Words.{IsByte}
use aemlib.Examples.Sockets.{Sockets, Poll, IsHonest}
use aemlib.Examples.Tcp.{
  begin_connect, with_socket, with_address, tcp_start_connect, close_fd, give_up, with_error,
  with_poll, tcp_poll_connect, tcp_connect, tcp_disconnect, failure, take_received, take_sent,
  tcp_read, tcp_write, tcp_bind, tcp_init,
}
use aemlib.Examples.Live.{
  Posix, real_time_now, transport, config, subscribe_once, publish_once, finish, pause, after_poll,
  main_loop, main,
}
use aemlib.Examples.Live.Clock.{Exits, IsClock}
use aemlib.Examples.Live.Exit.{main-Exits}

-- The clock, and the bytes that wait to be received.
record System : Type 0 where
  ms : ℕ
  inbox : List ℕ

-- CONNECT is answered with CONNACK, SUBSCRIBE with SUBACK, and all else comes back.
abbrev answer : List ℕ → List ℕ
answer [] = []
answer (first ∷ rest) =
    if first == 0x10
    then 0x20 ∷ 2 ∷ 0 ∷ 0 ∷ []
    else if first == 0x82
    then 0x90 ∷ 3 ∷ 0 ∷ 1 ∷ 0 ∷ []
    else first ∷ rest

abbrev as_bytes : List ℕ → List ℕ
as_bytes [] = []
as_bytes (b ∷ bytes) = b % 2 ^ 8 ∷ as_bytes bytes

abbrev receive_some : ℕ → List ℕ → Option (List ℕ)
receive_some len [] = none
receive_some len (b ∷ bytes) = some (take len (as_bytes (b ∷ bytes)))

abbrev system : Sockets ℕ System
system = record {
  getaddrinfo = λ host port w. (0, some 42, w);
  freeaddrinfo = λ a w. w;
  socket = λ a w. (some 3, w);
  fcntl_getfl = λ fd w. (2, w);
  fcntl_setfl = λ fd flags w. w;
  connect = λ fd a w. (true, w);
  poll = λ fd w. (Poll.ready, w);
  socket_error = λ fd w. (some 0, w);
  close = λ fd w. w;
  recv = λ fd len w. (receive_some len w.inbox, record w { inbox = drop len w.inbox });
  send = λ fd bytes w. (some (length bytes), record w { inbox = w.inbox ++ answer bytes });
  errno = λ w. 11;
  o_nonblock = 2048;
  einprogress = 115;
  eagain = 11;
  ewouldblock = 11;
}

abbrev posix : Posix System
posix = record {
  clock_gettime = λ w. let ms = w.ms % 2 ^ 64 in (ms / 1000, ms % 1000 * 1000000, w);
  getpid = λ w. 4711;
  usleep = λ us w.
      if ltb (w.ms % 2 ^ 64 + us / 1000) (2 ^ 64) then record w { ms = w.ms + us / 1000 } else w;
}

abbrev start : System
start = record { ms = 1000; inbox = [] }

-- The program connects, subscribes, publishes after half a second, and is sent its message back.
main_live_test : main system posix 40 (replicate 512 0) (replicate 512 0) start ≡ done 0
unfolding append_byte append_bytes append_uint16_be apply_config await_connack check_timeout
    client_dispatch_packet client_flush_pending client_read client_send client_send_connect
    client_send_ping connect connect_in consume core_connect core_disconnect core_init core_poll
    decode_connack decode_fixed_header decode_publish decode_remaining_length deliver disconnect
    disconnect_in drop_connection encode_connect encode_publish encode_remaining_length
    encode_subscribe finish_packet handle_connect_sent handle_connecting handle_header handle_packet
    init init_with keep_alive memcpy memmove next_packet_id place_packet poll poll_in poll_io
    process_packets publish receive reserve_space send_connect_once send_encoded slice stage
    subscribe take_connack time_validate transport_validate unstage validate_config write_utf8
    begin_connect with_socket with_address tcp_start_connect close_fd give_up with_error with_poll
    tcp_poll_connect tcp_connect tcp_disconnect failure take_received take_sent tcp_read tcp_write
    tcp_bind tcp_init real_time_now transport config subscribe_once publish_once finish pause
    after_poll main_loop main
main_live_test = refl

usleep_time :
    (us : ℕ) (w : System)
    → let after = posix.usleep us w in
      (w.ms % 2 ^ 64 ≤ after.ms % 2 ^ 64)
      × (w.ms % 2 ^ 64 + us / 1000 < 2 ^ 64 → w.ms % 2 ^ 64 + us / 1000 ≤ after.ms % 2 ^ 64)
usleep_time us w = elim (Bool-cases (ltb (w.ms % 2 ^ 64 + us / 1000) (2 ^ 64))) [
  | inl room ↦
      let r = ltb→lt (w.ms % 2 ^ 64 + us / 1000) (2 ^ 64) room in
      rw room (omega (arith, r), λ h. omega (arith, r))
  | inr full ↦ rw full (
    omega arith,
    λ h. absurd (omega (arith, h, le_of_ltb (w.ms % 2 ^ 64 + us / 1000) (2 ^ 64) full)),
  )
]

system-IsClock : IsClock system posix (λ w. w.ms % 2 ^ 64)
system-IsClock = record {
  bounded = λ w. omega arith;
  reads = λ w. omega arith;
  goes_on = λ w. omega arith;
  waits = λ us w h. (usleep_time us w).1 h;
  sleeps = λ us w. (usleep_time us w).0;
  steady = λ t. record {
    getaddrinfo = λ host port w h. h;
    freeaddrinfo = λ a w h. h;
    socket = λ a w h. h;
    getfl = λ fd w h. h;
    setfl = λ fd flags w h. h;
    connect = λ fd a w h. h;
    poll = λ fd w h. h;
    socket_error = λ fd w h. h;
    close = λ fd w h. h;
    recv = λ fd len w h. h;
    send = λ fd bytes w h. h;
  };
}

as_bytes-IsByte : (bytes : List ℕ) → All IsByte (as_bytes bytes)
as_bytes-IsByte [] = tt
as_bytes-IsByte (b ∷ bytes) = (omega arith, as_bytes-IsByte bytes)

receive_some-honest :
    (len : ℕ) (inbox bytes : List ℕ)
    → receive_some len inbox ≡ some bytes
    → (length bytes ≤ len) × All IsByte bytes
receive_some-honest len [] bytes e = absurd cc
receive_some-honest len (b ∷ inbox) bytes e =
    let waiting : List ℕ = as_bytes (b ∷ inbox) in
    subst (λ (l : List ℕ). (length l ≤ len) × All IsByte l) (some_inj e)
      (
        omega (arith, length-take {A = ℕ} len waiting),
        All-take IsByte len waiting (as_bytes-IsByte (b ∷ inbox)),
      )

system-IsHonest : IsHonest system
system-IsHonest = record {
  recv_fits = λ fd len w bytes e. (receive_some-honest len w.inbox bytes e).0;
  recv_bytes = λ fd len w bytes e. (receive_some-honest len w.inbox bytes e).1;
  send_fits = λ fd bytes w n e. subst (λ (k : ℕ). k ≤ length bytes) (some_inj e) (omega arith);
}

zeros-IsByte : (n : ℕ) → All IsByte (replicate n 0)
zeros-IsByte zero = tt
zeros-IsByte (suc n) = (omega arith, zeros-IsByte n)

main-Exits_example : Exits (main system posix 752 (replicate 512 0) (replicate 512 0) start)
main-Exits_example =
    main-Exits system posix (λ w. w.ms % 2 ^ 64) system-IsClock (replicate 512 0) (replicate 512 0)
      start refl refl (zeros-IsByte 512) system-IsHonest (omega arith)
