-- ===== src/Examples/Tcp.antt =====
-- examples/posix_tcp_transport.c and examples/posix_tcp_transport.h: a transport over a TCP socket that
-- never blocks.
pub mod Lawful
pub mod Owns
pub mod Links
pub mod Keeps
pub mod Tests
use aemlib.Base.{
  ℕ, zero, suc, ◌+◌, ◌/◌, ◌%◌, List, [], ◌∷◌, ◌++◌, length, take, Option, none, some, Bool, true,
  false, not, ◌||◌, ◌==◌, ltb, if◌then◌else◌,
}
use Prim.Native.Nat.{bit_or}
use aemlib.Status.{status, status_ok, Layer, Code}
use aemlib.Platform.Transport.{Transport, Read, Written}
use aemlib.Examples.Sockets.{Sockets, Poll}

-- aemlib_posix_tcp_t, with -1 as `none`
pub record Tcp : Type 0 where
  pub fd : Option ℕ
  pub host : List ℕ
  pub port : ℕ
  pub connecting : Bool

-- The struct behind the transport's `ctx`, and the system.
pub record Net (W : Type 0) : Type 0 where
  pub tcp : Tcp
  pub os : W

-- aemlib_posix_tcp_init
unfoldable pub tcp_init : List ℕ → ℕ → Tcp
tcp_init host port = record { fd = none; host = host; port = port; connecting = false }

-- `"%u"`, of a number of at most as many digits as the first argument.
abbrev pub decimal : ℕ → ℕ → List ℕ
decimal zero n = []
decimal (suc places) n =
    let front = decimal places (n / 10) in
    if ltb n 10 then (48 + n) ∷ [] else front ++ (48 + n % 10) ∷ []

-- `port_str`, whose 8 bytes hold 7 characters; a uint16_t has at most 5 digits.
abbrev pub port_str : ℕ → List ℕ
port_str port = take 7 (decimal 5 port)

abbrev pub connect_failed : ℕ
connect_failed = status Layer.io Code.connect

abbrev pub io_failed : ℕ
io_failed = status Layer.io Code.io

abbrev pub not_now : ℕ
not_now = status Layer.io Code.would_block

abbrev pub peer_closed : ℕ
peer_closed = status Layer.io Code.closed

module _ {A W : Type 0} (sys : Sockets A W) where
  -- tcp_start_connect from its call of connect on.
  unfoldable pub begin_connect : ℕ → A → Net W → ℕ × Net W
  begin_connect fd res s =
      let (done, os) = sys.connect fd res s.os in
      let os = sys.freeaddrinfo res os in
      if done
      then (
        status_ok,
        record s { tcp = record s.tcp { fd = some fd; connecting = false }; os = os },
      )
      else if sys.errno os == sys.einprogress
      then (not_now, record s { tcp = record s.tcp { fd = some fd; connecting = true }; os = os })
      else (connect_failed, record s { os = sys.close fd os })

  -- tcp_start_connect after its call of socket, which opened a descriptor or did not.
  unfoldable pub with_socket : A → Option ℕ → Net W → ℕ × Net W
  with_socket res none s = (io_failed, record s { os = sys.freeaddrinfo res s.os })
  with_socket res (some fd) s =
      let (flags, os) = sys.fcntl_getfl fd s.os in
      let os = sys.fcntl_setfl fd (bit_or flags sys.o_nonblock) os in
      begin_connect fd res (record s { os = os })

  -- tcp_start_connect after its call of getaddrinfo that returned 0.
  unfoldable pub with_address : Option A → Net W → ℕ × Net W
  with_address none s = (connect_failed, s)
  with_address (some res) s =
      let (fd, os) = sys.socket res s.os in with_socket res fd (record s { os = os })

  unfoldable pub tcp_start_connect : Net W → ℕ × Net W
  tcp_start_connect s =
      let (rc, res, os) = sys.getaddrinfo s.tcp.host (port_str s.tcp.port) s.os in
      let s : Net W = record s { os = os } in
      if not (rc == 0) then (connect_failed, s) else with_address res s

  -- `close(t->fd)`, which does nothing but set errno when there is no descriptor.
  unfoldable pub close_fd : Option ℕ → W → W
  close_fd none os = os
  close_fd (some fd) os = sys.close fd os

  -- `close(t->fd); t->fd = -1; t->connecting = 0`
  unfoldable pub give_up : Net W → Net W
  give_up s = record s {
    tcp = record s.tcp { fd = none; connecting = false };
    os = close_fd s.tcp.fd s.os;
  }

  -- tcp_poll_connect after its call of getsockopt, which gave the error or (`none`) failed.
  unfoldable pub with_error : Option ℕ → Net W → ℕ × Net W
  with_error none s = (connect_failed, give_up s)
  with_error (some err) s =
      if not (err == 0)
      then (connect_failed, give_up s)
      else (status_ok, record s { tcp = record s.tcp { connecting = false } })

  -- tcp_poll_connect after its call of poll.
  unfoldable pub with_poll : Poll → Net W → ℕ × Net W
  with_poll Poll.idle s = (not_now, s)
  with_poll Poll.failed s = (connect_failed, s)
  with_poll Poll.ready s =
      let (err, os) = sys.socket_error s.tcp.fd s.os in with_error err (record s { os = os })

  unfoldable pub tcp_poll_connect : Net W → ℕ × Net W
  tcp_poll_connect s = let (rv, os) = sys.poll s.tcp.fd s.os in with_poll rv (record s { os = os })

  unfoldable pub tcp_connect : Net W → ℕ × Net W
  tcp_connect s = if s.tcp.connecting then tcp_poll_connect s else tcp_start_connect s

  -- Without a descriptor, there is none to close.
  unfoldable pub tcp_disconnect : Net W → ℕ × Net W
  tcp_disconnect s = (status_ok, give_up s)

  -- `errno == EAGAIN || errno == EWOULDBLOCK`, and the status for either answer.
  unfoldable pub failure : W → ℕ
  failure os =
      if sys.errno os == sys.eagain || sys.errno os == sys.ewouldblock then not_now else io_failed

  -- tcp_read after its call of recv, and tcp_write after its call of send.
  unfoldable pub take_received : Option (List ℕ) → Net W → Read (Net W)
  take_received none s = record { status = failure s.os; stored = []; out_len = 0; world = s }
  take_received (some bytes) s =
      if ltb 0 (length bytes)
      then record { status = status_ok; stored = bytes; out_len = length bytes; world = s }
      else record { status = peer_closed; stored = []; out_len = 0; world = s }

  unfoldable pub take_sent : Option ℕ → Net W → Written (Net W)
  take_sent none s = record { status = failure s.os; out_len = 0; world = s }
  take_sent (some n) s = record { status = status_ok; out_len = n; world = s }

  unfoldable pub tcp_read : Net W → ℕ → Read (Net W)
  tcp_read s len =
      let (n, os) = sys.recv s.tcp.fd len s.os in take_received n (record s { os = os })

  unfoldable pub tcp_write : Net W → List ℕ → Written (Net W)
  tcp_write s bytes =
      let (n, os) = sys.send s.tcp.fd bytes s.os in take_sent n (record s { os = os })

  -- aemlib_posix_tcp_bind
  unfoldable pub tcp_bind : Transport (Net W)
  tcp_bind = record {
    connect = some tcp_connect;
    disconnect = some tcp_disconnect;
    read = some tcp_read;
    write = some tcp_write;
  }
