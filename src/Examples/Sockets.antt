-- ===== src/Examples/Sockets.antt =====
-- The functions of POSIX that examples/posix_tcp_transport.c calls, which are parameters of the model, and
-- what their manual pages promise.
use aemlib.Base.{ℕ, ◌≤◌, ◌≡◌, List, ◌∷◌, ◌++◌, take, length, All, Option, none, some, Bool, true}
use aemlib.Base.Words.{IsByte}

-- The result of poll: positive, 0, or negative.
pub data Poll : Type 0 where
  ready idle failed : Poll

-- `A` is `struct addrinfo *`, and `W` the system. A descriptor that is -1, and a count that is negative, are
-- `none`; a result that only says whether a call failed is a Boolean.
pub record Sockets (A W : Type 0) : Type 0 where
  pub getaddrinfo : List ℕ → List ℕ → W → ℕ × Option A × W
  pub freeaddrinfo : A → W → W
  pub socket : A → W → Option ℕ × W
  pub fcntl_getfl : ℕ → W → ℕ × W
  pub fcntl_setfl : ℕ → ℕ → W → W
  pub connect : ℕ → A → W → Bool × W
  pub poll : Option ℕ → W → Poll × W
  pub socket_error : Option ℕ → W → Option ℕ × W
  pub close : ℕ → W → W
  pub recv : Option ℕ → ℕ → W → Option (List ℕ) × W
  pub send : Option ℕ → List ℕ → W → Option ℕ × W
  pub errno : W → ℕ
  pub o_nonblock : ℕ
  pub einprogress : ℕ
  pub eagain : ℕ
  pub ewouldblock : ℕ

module _ {A W : Type 0} where
  -- recv stores bytes, no more than it was asked for; send takes no more than it was given.
  pub record IsHonest (sys : Sockets A W) : Type 0 where
    pub recv_fits :
        (fd : Option ℕ) (len : ℕ) (w : W) (bytes : List ℕ)
        → (sys.recv fd len w).0 ≡ some bytes
        → length bytes ≤ len
    pub recv_bytes :
        (fd : Option ℕ) (len : ℕ) (w : W) (bytes : List ℕ)
        → (sys.recv fd len w).0 ≡ some bytes
        → All IsByte bytes
    pub send_fits :
        (fd : Option ℕ) (bytes : List ℕ) (w : W) (n : ℕ)
        → (sys.send fd bytes w).0 ≡ some n
        → n ≤ length bytes

  -- The descriptors that are open: socket opens one, close closes it, and no other call does either.
  pub record Descriptors (sys : Sockets A W) (opened : W → List ℕ) : Type 0 where
    pub socket_opens :
        (a : A) (w : W) (fd : ℕ)
        → (sys.socket a w).0 ≡ some fd
        → opened (sys.socket a w).1 ≡ fd ∷ opened w
    pub socket_fails :
        (a : A) (w : W) → (sys.socket a w).0 ≡ none → opened (sys.socket a w).1 ≡ opened w
    pub close_closes :
        (fd : ℕ) (w : W) (rest : List ℕ) → opened w ≡ fd ∷ rest → opened (sys.close fd w) ≡ rest
    pub getaddrinfo_keeps :
        (host port : List ℕ) (w : W) → opened (sys.getaddrinfo host port w).2 ≡ opened w
    pub freeaddrinfo_keeps : (a : A) (w : W) → opened (sys.freeaddrinfo a w) ≡ opened w
    pub getfl_keeps : (fd : ℕ) (w : W) → opened (sys.fcntl_getfl fd w).1 ≡ opened w
    pub setfl_keeps : (fd flags : ℕ) (w : W) → opened (sys.fcntl_setfl fd flags w) ≡ opened w
    pub connect_keeps : (fd : ℕ) (a : A) (w : W) → opened (sys.connect fd a w).1 ≡ opened w
    pub poll_keeps : (fd : Option ℕ) (w : W) → opened (sys.poll fd w).1 ≡ opened w
    pub socket_error_keeps : (fd : Option ℕ) (w : W) → opened (sys.socket_error fd w).1 ≡ opened w
    pub recv_keeps : (fd : Option ℕ) (len : ℕ) (w : W) → opened (sys.recv fd len w).1 ≡ opened w
    pub send_keeps :
        (fd : Option ℕ) (bytes : List ℕ) (w : W) → opened (sys.send fd bytes w).1 ≡ opened w

  -- `wire` is the stream of bytes to the peer: send appends the bytes that it takes.
  pub record IsStream (sys : Sockets A W) (wire : W → List ℕ) : Type 0 where
    pub takes :
        (fd : Option ℕ) (bytes : List ℕ) (w : W) (n : ℕ)
        → (sys.send fd bytes w).0 ≡ some n
        → wire (sys.send fd bytes w).1 ≡ wire w ++ take n bytes
    pub fails :
        (fd : Option ℕ) (bytes : List ℕ) (w : W)
        → (sys.send fd bytes w).0 ≡ none
        → wire (sys.send fd bytes w).1 ≡ wire w

  -- Which descriptors are connected: connect connects when it returns 0, and a connection that it began is
  -- made once poll finds the descriptor writable and SO_ERROR is 0, which a pending connection can also be.
  pub record IsLinking (sys : Sockets A W) (linked : ℕ → W → Type 0) : Type 0 where
    pub connects :
        (fd : ℕ) (a : A) (w : W) → (sys.connect fd a w).0 ≡ true → linked fd (sys.connect fd a w).1
    pub completes :
        (fd : ℕ) (w : W)
        → (sys.poll (some fd) w).0 ≡ Poll.ready
        → (sys.socket_error (some fd) (sys.poll (some fd) w).1).0 ≡ some 0
        → linked fd (sys.socket_error (some fd) (sys.poll (some fd) w).1).1
    pub freeaddrinfo_links :
        (fd : ℕ) (a : A) (w : W) → linked fd w → linked fd (sys.freeaddrinfo a w)
