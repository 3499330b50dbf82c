-- ===== src/Examples/Tcp/Lawful.antt =====
-- examples/posix_tcp_transport.c: the transport that it binds keeps the contract of the library.
use aemlib.Base.{
  ℕ, ◌≤◌, ◌≡◌, ◌≢◌, refl, List, [], ◌++◌, take, length, All, Option, none, some, Bool-cases, inl,
  inr, ltb, ltb→lt, arith, ◌||◌, ◌==◌,
}
use aemlib.Base.Words.{IsByte}
use aemlib.Status.{status_ok}
use aemlib.Platform.Transport.{Transport, Read, IsLawful, IsSink, transport_read, transport_write}
use aemlib.Examples.Sockets.{Sockets, IsHonest, IsStream}
use aemlib.Examples.Tcp.{
  Net, peer_closed, failure, take_received, take_sent, tcp_read, tcp_write, tcp_bind,
}

module _ {A W : Type 0} (sys : Sockets A W) where
  failure-ne-ok : (os : W) → failure sys os ≢ status_ok
  unfolding failure
  failure-ne-ok os =
      elim (Bool-cases (sys.errno os == sys.eagain || sys.errno os == sys.ewouldblock)) [
        | inl e ↦ rw e (omega arith)
        | inr e ↦ rw e (omega arith)
      ]

  -- What a read leaves is what recv stored, if that is anything.
  abbrev Fits : ℕ → Read (Net W) → Type 0
  Fits len r = (length r.stored ≤ len) × All IsByte r.stored × (r.out_len ≤ length r.stored)

  take_received-Fits :
      (n : Option (List ℕ)) (s : Net W) (len : ℕ)
      → ((bytes : List ℕ) → n ≡ some bytes → (length bytes ≤ len) × All IsByte bytes)
      → Fits len (take_received sys n s)
  unfolding take_received
  take_received-Fits none s len h = (omega arith, tt, omega arith)
  take_received-Fits (some bytes) s len h = elim (Bool-cases (ltb 0 (length bytes))) [
    | inl any ↦ rw any ((h bytes refl).0, (h bytes refl).1, omega arith)
    | inr nothing ↦ rw nothing (omega arith, tt, omega arith)
  ]

  take_sent-counts :
      (n : Option ℕ) (s : Net W) (len : ℕ)
      → ((k : ℕ) → n ≡ some k → k ≤ len)
      → (take_sent sys n s).out_len ≤ len
  unfolding take_sent
  take_sent-counts none s len h = omega arith
  take_sent-counts (some n) s len h = h n refl

  tcp_read-Fits : (honest : IsHonest sys) (s : Net W) (len : ℕ) → Fits len (tcp_read sys s len)
  unfolding tcp_read
  tcp_read-Fits honest s len = take_received-Fits (sys.recv s.tcp.fd len s.os).0 _ len (λ bytes e.
      (honest.recv_fits s.tcp.fd len s.os bytes e, honest.recv_bytes s.tcp.fd len s.os bytes e))

  -- What a read and a write that are OK say is what recv and send did: a read stored what recv stored, at least
  -- a byte, and counted all of it, and a write counted what send took. The end of the stream is CLOSED.
  pub record IsExact (t : Transport (Net W)) : Type 0 where
    pub reads :
        (s : Net W) (len : ℕ)
        → (transport_read t len 0 s).status ≡ status_ok
        → ((sys.recv s.tcp.fd len s.os).0 ≡ some (transport_read t len 0 s).stored)
          × ((transport_read t len 0 s).out_len ≡ length (transport_read t len 0 s).stored)
          × (1 ≤ (transport_read t len 0 s).out_len)
    pub ends :
        (s : Net W) (len : ℕ)
        → (sys.recv s.tcp.fd len s.os).0 ≡ some []
        → (transport_read t len 0 s).status ≡ peer_closed
    pub writes :
        (s : Net W) (bytes : List ℕ)
        → (transport_write t bytes 0 s).status ≡ status_ok
        → (sys.send s.tcp.fd bytes s.os).0 ≡ some (transport_write t bytes 0 s).out_len

  take_received-exact :
      (n : Option (List ℕ)) (s : Net W)
      → (take_received sys n s).status ≡ status_ok
      → (n ≡ some (take_received sys n s).stored)
        × ((take_received sys n s).out_len ≡ length (take_received sys n s).stored)
        × (1 ≤ (take_received sys n s).out_len)
  unfolding take_received
  take_received-exact none s = λ ok. absurd (failure-ne-ok s.os ok)
  take_received-exact (some bytes) s = elim (Bool-cases (ltb 0 (length bytes))) [
    | inl any ↦ rw any (λ ok. (refl, refl, ltb→lt 0 (length bytes) any))
    | inr nothing ↦ rw nothing (λ ok. absurd (omega (arith, ok)))
  ]

  take_received-ends :
      (n : Option (List ℕ)) (s : Net W) → n ≡ some [] → (take_received sys n s).status ≡ peer_closed
  unfolding take_received
  take_received-ends n s e = rw e refl

  take_sent-exact :
      (n : Option ℕ) (s : Net W)
      → (take_sent sys n s).status ≡ status_ok
      → n ≡ some (take_sent sys n s).out_len
  unfolding take_sent
  take_sent-exact none s ok = absurd (failure-ne-ok s.os ok)
  take_sent-exact (some n) s ok = refl

  -- With recv and send as they are documented, the transport of aemlib_posix_tcp_bind keeps the
  -- contract that the library relies on: a read stores bytes, no more than were asked for, and a
  -- write counts no more than it was given. A read that is OK stores exactly what recv stored, at
  -- least one byte, and counts all of it; the end of the stream is CLOSED; and a write that is OK
  -- counts exactly what send took.
  pub tcp_bind-IsLawful : IsHonest sys → IsLawful (tcp_bind sys) × IsExact (tcp_bind sys)
  unfolding tcp_bind tcp_read tcp_write
  tcp_bind-IsLawful honest = (
    record {
      read_fits = λ s len. (tcp_read-Fits honest s len).0;
      read_bytes = λ s len. (tcp_read-Fits honest s len).1;
      read_counts = λ s len e. (tcp_read-Fits honest s len).2;
      write_counts = λ s bytes e.
          take_sent-counts (sys.send s.tcp.fd bytes s.os).0 _ (length bytes)
            (honest.send_fits s.tcp.fd bytes s.os);
    },
    record {
      reads = λ s len. take_received-exact (sys.recv s.tcp.fd len s.os).0 _;
      ends = λ s len. take_received-ends (sys.recv s.tcp.fd len s.os).0 _;
      writes = λ s bytes. take_sent-exact (sys.send s.tcp.fd bytes s.os).0 _;
    },
  )

  take_sent-Sink :
      (wire : W → List ℕ) (n : Option ℕ) (s : Net W) (bytes old : List ℕ)
      → ((k : ℕ) → n ≡ some k → wire s.os ≡ old ++ take k bytes)
      → (n ≡ none → wire s.os ≡ old)
      → ((take_sent sys n s).status ≡ status_ok
          → wire (take_sent sys n s).world.os ≡ old ++ take (take_sent sys n s).out_len bytes)
        × ((take_sent sys n s).status ≢ status_ok → wire (take_sent sys n s).world.os ≡ old)
  unfolding take_sent
  take_sent-Sink wire none s bytes old took kept =
      (λ ok. absurd (failure-ne-ok s.os ok), λ bad. kept refl)
  take_sent-Sink wire (some n) s bytes old took kept = (λ ok. took n refl, λ bad. absurd (bad refl))

  -- If send appends the bytes that it takes to a stream, and none when it fails, the transport of
  -- aemlib_posix_tcp_bind is the sink that the theorems on the stream of bytes to the broker ask
  -- for: a write that is OK appends exactly the bytes that it counts, and any other write appends
  -- none.
  pub tcp_bind-IsSink :
      (wire : W → List ℕ) → IsStream sys wire → IsSink (tcp_bind sys) (λ s. wire s.os)
  unfolding tcp_bind tcp_write
  tcp_bind-IsSink wire stream = record {
    accepted = λ s bytes.
        (take_sent-Sink wire (sys.send s.tcp.fd bytes s.os).0 _ bytes (wire s.os)
          (stream.takes s.tcp.fd bytes s.os) (stream.fails s.tcp.fd bytes s.os)).0;
    refused = λ s bytes.
        (take_sent-Sink wire (sys.send s.tcp.fd bytes s.os).0 _ bytes (wire s.os)
          (stream.takes s.tcp.fd bytes s.os) (stream.fails s.tcp.fd bytes s.os)).1;
  }
