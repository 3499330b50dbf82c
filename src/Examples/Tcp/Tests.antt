-- ===== src/Examples/Tcp/Tests.antt =====
-- Theorems on examples/posix_tcp_transport.c at concrete inputs: a system with two open descriptors, which
-- connects in the background and whose peer has sent three bytes.
use aemlib.Base.{
  ℕ, suc, ◌≤◌, ◌≡◌, refl, ap, min, List, [], ◌∷◌, ◌++◌, Option, length, take, All, All-take,
  length-take, none, some, some_inj, true, false, inl, inr, ◌==◌, ==_iff, if◌then◌else◌, arith,
  subst,
}
use aemlib.Base.Text.{codes}
use aemlib.Base.Words.{IsByte}
use aemlib.Platform.Transport.{IsLawful, IsSink}
use aemlib.Examples.Sockets.{Sockets, Poll, IsHonest, Descriptors, IsStream}
use aemlib.Examples.Tcp.{
  Net, tcp_init, port_str, tcp_connect, tcp_start_connect, with_address, with_socket, begin_connect,
  tcp_disconnect, tcp_read, tcp_write, tcp_bind,
}
use aemlib.Examples.Tcp.Lawful.{IsExact, tcp_bind-IsLawful, tcp_bind-IsSink}
use aemlib.Examples.Tcp.Owns.{IsDown, IsOwner, Calls, Calls-disconnect}

-- The open descriptors, the one that is connected, and what was sent.
record System : Type 0 where
  open_fds : List ℕ
  up : Option ℕ
  sent : List ℕ

remove : ℕ → List ℕ → List ℕ
remove fd [] = []
remove fd (x ∷ xs) = if x == fd then xs else x ∷ remove fd xs

abbrev next_fd : List ℕ → ℕ
next_fd [] = 3
next_fd (x ∷ xs) = suc x

abbrev system : Sockets ℕ System
system = record {
  getaddrinfo = λ host port w. (0, some 42, w);
  freeaddrinfo = λ a w. w;
  socket =
      λ a w. (some (next_fd w.open_fds), record w { open_fds = next_fd w.open_fds ∷ w.open_fds });
  fcntl_getfl = λ fd w. (2, w);
  fcntl_setfl = λ fd flags w. w;
  connect = λ fd a w. (false, w);
  poll = λ fd w. (Poll.ready, w);
  socket_error = λ fd w. (some 0, record w { up = fd });
  close = λ fd w. record w { open_fds = remove fd w.open_fds };
  recv = λ fd len w. (some (take len (1 ∷ 2 ∷ 3 ∷ [])), w);
  send = λ fd bytes w. (
    some (min 4 (length bytes)),
    record w { sent = w.sent ++ take (min 4 (length bytes)) bytes },
  );
  errno = λ w. 115;
  o_nonblock = 2048;
  einprogress = 115;
  eagain = 11;
  ewouldblock = 11;
}

remove_front : (fd : ℕ) (w rest : List ℕ) → w ≡ fd ∷ rest → remove fd w ≡ rest
unfolding remove
remove_front fd w rest e = rw (e, remove, (==_iff fd fd).1 refl) refl

system-IsHonest : IsHonest system
system-IsHonest = record {
  recv_fits = λ fd len w bytes e.
      subst (λ (l : List ℕ). length l ≤ len) (some_inj e)
        (omega (arith, length-take {A = ℕ} len (1 ∷ 2 ∷ 3 ∷ [])));
  recv_bytes = λ fd len w bytes e.
      subst (All IsByte) (some_inj e) (All-take IsByte len (1 ∷ 2 ∷ 3 ∷ []) (omega arith));
  send_fits = λ fd bytes w n e. subst (λ (k : ℕ). k ≤ length bytes) (some_inj e) (omega arith);
}

system-Descriptors : Descriptors system (λ w. w.open_fds)
system-Descriptors = record {
  socket_opens = λ a w fd e. ap (λ (k : ℕ). k ∷ w.open_fds) (some_inj e);
  socket_fails = λ a w e. absurd cc;
  close_closes = λ fd w rest e. remove_front fd w.open_fds rest e;
  getaddrinfo_keeps = λ host port w. refl;
  freeaddrinfo_keeps = λ a w. refl;
  getfl_keeps = λ fd w. refl;
  setfl_keeps = λ fd flags w. refl;
  connect_keeps = λ fd a w. refl;
  poll_keeps = λ fd w. refl;
  socket_error_keeps = λ fd w. refl;
  recv_keeps = λ fd len w. refl;
  send_keeps = λ fd bytes w. refl;
}

port_test : port_str 1883 ≡ codes "1883"
port_test = refl

abbrev base : List ℕ
base = 4 ∷ 3 ∷ []

abbrev start : Net System
start = record {
  tcp = record { fd = none; host = codes "broker"; port = 1883; connecting = false };
  os = record { open_fds = base; up = none; sent = [] };
}

init_test : tcp_init (codes "broker") 1883 ≡ start.tcp
unfolding tcp_init
init_test = refl

tcp_bind-IsLawful_example : IsLawful (tcp_bind system) × IsExact system (tcp_bind system)
tcp_bind-IsLawful_example = tcp_bind-IsLawful system system-IsHonest

system-IsStream : IsStream system (λ w. w.sent)
system-IsStream = record {
  takes = λ fd bytes w n e. ap (λ (k : ℕ). w.sent ++ take k bytes) (some_inj e);
  fails = λ fd bytes w e. absurd cc;
}

tcp_bind-IsSink_example : IsSink (tcp_bind system) (λ s. s.os.sent)
tcp_bind-IsSink_example = tcp_bind-IsSink system (λ w. w.sent) system-IsStream

abbrev IsUp : ℕ → System → Type 0
IsUp fd w = w.up ≡ some fd

-- A connection on the way.
abbrev going : Net System
going = record {
  tcp = record start.tcp { fd = some 5; connecting = true };
  os = record { open_fds = 5 ∷ base; up = none; sent = [] };
}

-- Two calls of connect, a read and a write.
abbrev later : Net System
later =
    let s1 : Net System = (tcp_connect system start).1 in
    let s2 : Net System = (tcp_connect system s1).1 in
    (tcp_write system (tcp_read system s2 9).world (7 ∷ 8 ∷ [])).world

calls : Calls system (λ w. w.open_fds) base start later
unfolding tcp_connect tcp_start_connect with_address with_socket begin_connect
calls =
    let s1 : Net System = (tcp_connect system start).1 in
    let s2 : Net System = (tcp_connect system s1).1 in
    let s3 : Net System = (tcp_read system s2 9).world in
    Calls.then_write start s3 (7 ∷ 8 ∷ []) (
      Calls.then_read start s2 9 (
        Calls.then_connect start s1 (inl refl)
          (Calls.then_connect start start (inr refl) (Calls.no_call start))))

Calls-disconnect_example :
    IsOwner system (λ w. w.open_fds) base later
    × IsDown system (λ w. w.open_fds) base (tcp_disconnect system later).1
Calls-disconnect_example =
    Calls-disconnect system (λ w. w.open_fds) base system-Descriptors start later (refl, refl, refl)
      calls
