-- ===== src/Examples/Tcp/Owns.antt =====
-- examples/posix_tcp_transport.c: which descriptors are open while a client connects, exchanges bytes and
-- disconnects.
use aemlib.Base.{
  ℕ, ◌≡◌, refl, ap, sym, subst, ◌∙◌, List, ◌∷◌, Option, none, some, Bool-cases, inl, inr, ◌⊎◌, Bool,
  true, false, ◌==◌, if◌then◌else◌, arith, ltb, length,
}
use aemlib.Status.{status_ok}
use aemlib.Platform.Transport.{is_error}
use aemlib.Examples.Sockets.{Sockets, Poll, Descriptors}
use aemlib.Examples.Tcp.{
  Net, not_now, port_str, begin_connect, with_socket, with_address, tcp_start_connect, close_fd,
  give_up, with_error, with_poll, tcp_poll_connect, tcp_connect, tcp_disconnect, take_received,
  take_sent, tcp_read, tcp_write,
}

module _ {A W : Type 0} (sys : Sockets A W) (opened : W → List ℕ) (base : List ℕ) where
  -- Without a connection: the transport has no descriptor, and none is open but `base`.
  abbrev pub IsDown : Net W → Type 0
  IsDown s = (s.tcp.fd ≡ none) × (s.tcp.connecting ≡ false) × (opened s.os ≡ base)

  -- With one descriptor, which is the only one open above `base`, and `connecting` as given.
  abbrev pub HasDescriptor : Bool → Net W → Type 0
  HasDescriptor c s =
      (fd : ℕ) × (s.tcp.fd ≡ some fd) × (s.tcp.connecting ≡ c) × (opened s.os ≡ fd ∷ base)

  -- How an attempt to connect ends, with `IsFailed` on an error.
  abbrev pub Attempt : (Net W → Type 0) → ℕ × Net W → Type 0
  Attempt IsFailed r =
      ((r.0 ≡ status_ok) × HasDescriptor false r.1)
      ⊎ ((r.0 ≡ not_now) × HasDescriptor true r.1)
      ⊎ ((is_error r.0 ≡ true) × IsFailed r.1)

  -- An attempt that fails may leave the descriptor for another attempt.
  abbrev pub IsRetriable : Net W → Type 0
  IsRetriable s = IsDown s ⊎ HasDescriptor true s

  -- In any phase.
  abbrev pub IsOwner : Net W → Type 0
  IsOwner s = IsRetriable s ⊎ HasDescriptor false s

  -- The calls of the transport, as a client makes them: it connects only when it has no connection.
  pub data Calls : Net W → Net W → Type 0 where
    no_call : (s : Net W) → Calls s s
    then_connect :
        (s s' : Net W)
        → (s'.tcp.connecting ≡ true) ⊎ (s'.tcp.fd ≡ none)
        → Calls s s'
        → Calls s (tcp_connect sys s').1
    then_disconnect : (s s' : Net W) → Calls s s' → Calls s (tcp_disconnect sys s').1
    then_read : (s s' : Net W) (len : ℕ) → Calls s s' → Calls s (tcp_read sys s' len).world
    then_write :
        (s s' : Net W) (bytes : List ℕ) → Calls s s' → Calls s (tcp_write sys s' bytes).world

  module _ (law : Descriptors sys opened) where
    begin_connect-Attempt :
        (fd : ℕ) (a : A) (s : Net W)
        → s.tcp.fd ≡ none
        → s.tcp.connecting ≡ false
        → opened s.os ≡ fd ∷ base
        → Attempt IsDown (begin_connect sys fd a s)
    unfolding begin_connect
    begin_connect-Attempt fd a s e c o =
        let os : W = sys.freeaddrinfo a (sys.connect fd a s.os).1 in
        let o' : opened os ≡ fd ∷ base =
          law.freeaddrinfo_keeps a _ ∙ law.connect_keeps fd a s.os ∙ o in
        elim (Bool-cases (sys.connect fd a s.os).0) [
          | inl done ↦ rw done (inl (refl, (fd, refl, refl, o')))
          | inr later ↦ rw later (elim (Bool-cases (sys.errno os == sys.einprogress)) [
            | inl going ↦ rw going (inr (inl (refl, (fd, refl, refl, o'))))
            | inr bad ↦ rw bad (inr (inr (refl, (e, c, law.close_closes fd os base o'))))
          ])
        ]

    with_socket-Attempt :
        (a : A) (fd : Option ℕ) (s : Net W)
        → s.tcp.fd ≡ none
        → s.tcp.connecting ≡ false
        → ((k : ℕ) → fd ≡ some k → opened s.os ≡ k ∷ base)
        → (fd ≡ none → opened s.os ≡ base)
        → Attempt IsDown (with_socket sys a fd s)
    unfolding with_socket
    with_socket-Attempt a none s e c o n =
        inr (inr (refl, (e, c, law.freeaddrinfo_keeps a s.os ∙ n refl)))
    with_socket-Attempt a (some fd) s e c o n =
        begin_connect-Attempt fd a _ e c
          (law.setfl_keeps fd _ _ ∙ law.getfl_keeps fd s.os ∙ o fd refl)

    with_address-Attempt :
        (a : Option A) (s : Net W) → IsDown s → Attempt IsDown (with_address sys a s)
    unfolding with_address
    with_address-Attempt none s down = inr (inr (refl, down))
    with_address-Attempt (some a) s (e, c, o) =
        with_socket-Attempt a (sys.socket a s.os).0 _ e c
          (λ fd is. law.socket_opens a s.os fd is ∙ ap (λ l. fd ∷ l) o)
          (λ is. law.socket_fails a s.os is ∙ o)

    tcp_start_connect-Attempt : (s : Net W) → IsDown s → Attempt IsDown (tcp_start_connect sys s)
    unfolding tcp_start_connect
    tcp_start_connect-Attempt s (e, c, o) =
        let r = sys.getaddrinfo s.tcp.host (port_str s.tcp.port) s.os in
        let o' : opened r.2 ≡ base =
          law.getaddrinfo_keeps s.tcp.host (port_str s.tcp.port) s.os ∙ o in
        elim (Bool-cases (r.0 == 0)) [
          | inl found ↦ rw found (with_address-Attempt r.1 _ (e, c, o'))
          | inr lost ↦ rw lost (inr (inr (refl, (e, c, o'))))
        ]

    close_fd-some :
        (fd : Option ℕ) (k : ℕ) (os : W)
        → fd ≡ some k
        → opened os ≡ k ∷ base
        → opened (close_fd sys fd os) ≡ base
    unfolding close_fd
    close_fd-some none k os e o = cc
    close_fd-some (some fd) k os e o = law.close_closes fd os base (ground (arith, o, e))

    give_up-IsDown : {c : Bool} (s : Net W) → HasDescriptor c s → IsDown (give_up sys s)
    unfolding give_up
    give_up-IsDown s (fd, e, c, o) = (refl, refl, close_fd-some s.tcp.fd fd s.os e o)

    with_error-Attempt :
        (err : Option ℕ) (s : Net W) → HasDescriptor true s → Attempt IsDown (with_error sys err s)
    unfolding with_error
    with_error-Attempt none s h = inr (inr (refl, give_up-IsDown s h))
    with_error-Attempt (some err) s h = elim (Bool-cases (err == 0)) [
      | inl fine ↦ rw fine (inl (refl, (h.0, h.1, refl, h.3)))
      | inr bad ↦ rw bad (inr (inr (refl, give_up-IsDown s h)))
    ]

    weaken : (r : ℕ × Net W) → Attempt IsDown r → Attempt IsRetriable r
    weaken r (inl up) = inl up
    weaken r (inr (inl going)) = inr (inl going)
    weaken r (inr (inr (bad, down))) = inr (inr (bad, inl down))

    with_poll-Attempt :
        (rv : Poll) (s : Net W) → HasDescriptor true s → Attempt IsRetriable (with_poll sys rv s)
    unfolding with_poll
    with_poll-Attempt Poll.idle s h = inr (inl (refl, h))
    with_poll-Attempt Poll.failed s h = inr (inr (refl, inr h))
    with_poll-Attempt Poll.ready s (fd, e, c, o) =
        let (err, os) = sys.socket_error s.tcp.fd s.os in
        let s' : Net W = record s { os = os } in
        weaken (with_error sys err s')
          (with_error-Attempt err s' (fd, e, c, law.socket_error_keeps s.tcp.fd s.os ∙ o))

    pub tcp_connect-Attempt : (s : Net W) → IsRetriable s → Attempt IsRetriable (tcp_connect sys s)
    unfolding tcp_connect tcp_poll_connect
    tcp_connect-Attempt s (inl down) =
        subst
          (λ b. Attempt IsRetriable (if b then tcp_poll_connect sys s else tcp_start_connect sys s))
          (sym down.1) (weaken (tcp_start_connect sys s) (tcp_start_connect-Attempt s down))
    tcp_connect-Attempt s (inr (fd, e, c, o)) =
        subst
          (λ b. Attempt IsRetriable (if b then tcp_poll_connect sys s else tcp_start_connect sys s))
          (sym c)
          (with_poll-Attempt (sys.poll s.tcp.fd s.os).0 _
            (fd, e, c, law.poll_keeps s.tcp.fd s.os ∙ o))

    Attempt-IsOwner : (r : ℕ × Net W) → Attempt IsRetriable r → IsOwner r.1
    Attempt-IsOwner r (inl (_, up)) = inr up
    Attempt-IsOwner r (inr (inl (_, going))) = inl (inr going)
    Attempt-IsOwner r (inr (inr (_, failed))) = inl failed

    give_up-IsOwner : (s : Net W) → IsOwner s → IsDown (give_up sys s)
    unfolding give_up close_fd
    give_up-IsOwner s (inl (inl (e, c, o))) = rw e (refl, refl, o)
    give_up-IsOwner s (inl (inr h)) = give_up-IsDown s h
    give_up-IsOwner s (inr h) = give_up-IsDown s h

    same-IsOwner :
        (s : Net W) (os : W) → opened os ≡ opened s.os → IsOwner s → IsOwner (record s { os = os })
    same-IsOwner s os k (inl (inl (e, c, o))) = inl (inl (e, c, k ∙ o))
    same-IsOwner s os k (inl (inr (fd, e, c, o))) = inl (inr (fd, e, c, k ∙ o))
    same-IsOwner s os k (inr (fd, e, c, o)) = inr (fd, e, c, k ∙ o)

    take_received-world : (n : Option (List ℕ)) (s : Net W) → (take_received sys n s).world ≡ s
    unfolding take_received
    take_received-world none s = refl
    take_received-world (some bytes) s = elim (Bool-cases (ltb 0 (length bytes))) [
      | inl e ↦ rw e refl
      | inr e ↦ rw e refl
    ]

    take_sent-world : (n : Option ℕ) (s : Net W) → (take_sent sys n s).world ≡ s
    unfolding take_sent
    take_sent-world none s = refl
    take_sent-world (some n) s = refl

    retriable :
        (s : Net W) → (s.tcp.connecting ≡ true) ⊎ (s.tcp.fd ≡ none) → IsOwner s → IsRetriable s
    retriable s m (inl h) = h
    retriable s (inl t) (inr (fd, e, c, o)) = cc
    retriable s (inr n) (inr (fd, e, c, o)) = cc

    pub Calls-IsOwner : (s s' : Net W) → IsOwner s → Calls s s' → IsOwner s'
    unfolding tcp_disconnect tcp_read tcp_write
    Calls-IsOwner s s' h (Calls.no_call _) = h
    Calls-IsOwner s _ h (Calls.then_connect _ s' may calls) =
        Attempt-IsOwner (tcp_connect sys s')
          (tcp_connect-Attempt s' (retriable s' may (Calls-IsOwner s s' h calls)))
    Calls-IsOwner s _ h (Calls.then_disconnect _ s' calls) =
        inl (inl (give_up-IsOwner s' (Calls-IsOwner s s' h calls)))
    Calls-IsOwner s _ h (Calls.then_read _ s' len calls) =
        let (n, os) = sys.recv s'.tcp.fd len s'.os in
        subst IsOwner (sym (take_received-world n (record s' { os = os })))
          (same-IsOwner s' os (law.recv_keeps s'.tcp.fd len s'.os) (Calls-IsOwner s s' h calls))
    Calls-IsOwner s _ h (Calls.then_write _ s' bytes calls) =
        let (n, os) = sys.send s'.tcp.fd bytes s'.os in
        subst IsOwner (sym (take_sent-world n (record s' { os = os })))
          (same-IsOwner s' os (law.send_keeps s'.tcp.fd bytes s'.os) (Calls-IsOwner s s' h calls))

    -- After any calls of the transport, of which connect is made only without a connection, at most
    -- one descriptor is open beyond those that were open before, and it is the transport's; after
    -- tcp_disconnect there is none.
    pub Calls-disconnect :
        (s s' : Net W) → IsDown s → Calls s s' → IsOwner s' × IsDown (tcp_disconnect sys s').1
    unfolding tcp_disconnect
    Calls-disconnect s s' h calls =
        let owner = Calls-IsOwner s s' (inl (inl h)) calls in (owner, give_up-IsOwner s' owner)
