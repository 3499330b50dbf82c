-- ===== src/Examples/Tcp/Keeps.antt =====
-- examples/posix_tcp_transport.c keeps every property of the system that the functions of POSIX keep.
use aemlib.Base.{
  ℕ, List, length, Option, none, some, Bool-cases, inl, inr, ◌==◌, ltb, not, true, false,
  if◌then◌else◌,
}
use aemlib.Platform.Transport.{
  transport_connect, transport_disconnect, transport_read, transport_write,
}
use aemlib.Examples.Sockets.{Sockets, Poll}
use aemlib.Examples.Tcp.{
  Net, tcp_bind, port_str, begin_connect, with_socket, with_address, tcp_start_connect, close_fd,
  give_up, with_error, with_poll, tcp_poll_connect, tcp_connect, tcp_disconnect, take_received,
  take_sent, tcp_read, tcp_write,
}

module _ {A W : Type 0} where
  -- A property of the system that no function breaks.
  pub record IsSteady (sys : Sockets A W) (P : W → Type 0) : Type 0 where
    pub getaddrinfo : (host port : List ℕ) (w : W) → P w → P (sys.getaddrinfo host port w).2
    pub freeaddrinfo : (a : A) (w : W) → P w → P (sys.freeaddrinfo a w)
    pub socket : (a : A) (w : W) → P w → P (sys.socket a w).1
    pub getfl : (fd : ℕ) (w : W) → P w → P (sys.fcntl_getfl fd w).1
    pub setfl : (fd flags : ℕ) (w : W) → P w → P (sys.fcntl_setfl fd flags w)
    pub connect : (fd : ℕ) (a : A) (w : W) → P w → P (sys.connect fd a w).1
    pub poll : (fd : Option ℕ) (w : W) → P w → P (sys.poll fd w).1
    pub socket_error : (fd : Option ℕ) (w : W) → P w → P (sys.socket_error fd w).1
    pub close : (fd : ℕ) (w : W) → P w → P (sys.close fd w)
    pub recv : (fd : Option ℕ) (len : ℕ) (w : W) → P w → P (sys.recv fd len w).1
    pub send : (fd : Option ℕ) (bytes : List ℕ) (w : W) → P w → P (sys.send fd bytes w).1

module _ {A W : Type 0} (sys : Sockets A W) (P : W → Type 0) (steady : IsSteady sys P) where
  begin_connect-keeps : (fd : ℕ) (a : A) (s : Net W) → P s.os → P (begin_connect sys fd a s).1.os
  unfolding begin_connect
  begin_connect-keeps fd a s p =
      let os : W = sys.freeaddrinfo a (sys.connect fd a s.os).1 in
      let q : P os = steady.freeaddrinfo a _ (steady.connect fd a s.os p) in
      elim (Bool-cases (sys.connect fd a s.os).0) [
        | inl done ↦ rw done q
        | inr later ↦ rw later (elim (Bool-cases (sys.errno os == sys.einprogress)) [
          | inl going ↦ rw going q
          | inr bad ↦ rw bad (steady.close fd os q)
        ])
      ]

  with_socket-keeps : (a : A) (fd : Option ℕ) (s : Net W) → P s.os → P (with_socket sys a fd s).1.os
  unfolding with_socket
  with_socket-keeps a none s p = steady.freeaddrinfo a s.os p
  with_socket-keeps a (some fd) s p =
      begin_connect-keeps fd a _ (steady.setfl fd _ _ (steady.getfl fd s.os p))

  with_address-keeps : (a : Option A) (s : Net W) → P s.os → P (with_address sys a s).1.os
  unfolding with_address
  with_address-keeps none s p = p
  with_address-keeps (some a) s p = with_socket-keeps a _ _ (steady.socket a s.os p)

  tcp_start_connect-keeps : (s : Net W) → P s.os → P (tcp_start_connect sys s).1.os
  unfolding tcp_start_connect
  tcp_start_connect-keeps s p =
      let q = steady.getaddrinfo s.tcp.host (port_str s.tcp.port) s.os p in
      elim (Bool-cases (not ((sys.getaddrinfo s.tcp.host (port_str s.tcp.port) s.os).0 == 0))) [
        | inl bad ↦ rw bad q
        | inr fine ↦ rw fine (with_address-keeps _ _ q)
      ]

  close_fd-keeps : (fd : Option ℕ) (w : W) → P w → P (close_fd sys fd w)
  unfolding close_fd
  close_fd-keeps none w p = p
  close_fd-keeps (some fd) w p = steady.close fd w p

  give_up-keeps : (s : Net W) → P s.os → P (give_up sys s).os
  unfolding give_up
  give_up-keeps s p = close_fd-keeps s.tcp.fd s.os p

  with_error-keeps : (e : Option ℕ) (s : Net W) → P s.os → P (with_error sys e s).1.os
  unfolding with_error
  with_error-keeps none s p = give_up-keeps s p
  with_error-keeps (some err) s p = elim (Bool-cases (not (err == 0))) [
    | inl bad ↦ rw bad (give_up-keeps s p)
    | inr fine ↦ rw fine p
  ]

  with_poll-keeps : (r : Poll) (s : Net W) → P s.os → P (with_poll sys r s).1.os
  unfolding with_poll
  with_poll-keeps Poll.idle s p = p
  with_poll-keeps Poll.failed s p = p
  with_poll-keeps Poll.ready s p = with_error-keeps _ _ (steady.socket_error s.tcp.fd s.os p)

  tcp_poll_connect-keeps : (s : Net W) → P s.os → P (tcp_poll_connect sys s).1.os
  unfolding tcp_poll_connect
  tcp_poll_connect-keeps s p = with_poll-keeps _ _ (steady.poll s.tcp.fd s.os p)

  pub tcp_connect-keeps : (s : Net W) → P s.os → P (transport_connect (tcp_bind sys) s).1.os
  unfolding tcp_bind tcp_connect
  tcp_connect-keeps s p =
      elim s.tcp.connecting
        as (λ b. P (if b then tcp_poll_connect sys s else tcp_start_connect sys s).1.os) [
          | true ↦ tcp_poll_connect-keeps s p
          | false ↦ tcp_start_connect-keeps s p
        ]

  pub tcp_disconnect-keeps : (s : Net W) → P s.os → P (transport_disconnect (tcp_bind sys) s).1.os
  unfolding tcp_bind tcp_disconnect
  tcp_disconnect-keeps s p = give_up-keeps s p

  received-keeps : (r : Option (List ℕ)) (s : Net W) → P s.os → P (take_received sys r s).world.os
  unfolding take_received
  received-keeps none s p = p
  received-keeps (some bytes) s p = elim (Bool-cases (ltb 0 (length bytes))) [
    | inl any ↦ rw any p
    | inr none_ ↦ rw none_ p
  ]

  sent-keeps : (r : Option ℕ) (s : Net W) → P s.os → P (take_sent sys r s).world.os
  unfolding take_sent
  sent-keeps none s p = p
  sent-keeps (some n) s p = p

  pub tcp_read-keeps :
      (s : Net W) (len : ℕ) → P s.os → P (transport_read (tcp_bind sys) len 0 s).world.os
  unfolding tcp_bind tcp_read
  tcp_read-keeps s len p = received-keeps _ _ (steady.recv s.tcp.fd len s.os p)

  pub tcp_write-keeps :
      (s : Net W) (bytes : List ℕ) → P s.os → P (transport_write (tcp_bind sys) bytes 0 s).world.os
  unfolding tcp_bind tcp_write
  tcp_write-keeps s bytes p = sent-keeps _ _ (steady.send s.tcp.fd bytes s.os p)
