-- ===== src/Examples/Tcp/Links.antt =====
-- examples/posix_tcp_transport.c: tcp_connect says OK only of a descriptor that is connected.
use aemlib.Base.{ℕ, ◌≡◌, some, false}
use aemlib.Status.{status_ok}
use aemlib.Examples.Sockets.{Sockets}
use aemlib.Examples.Tcp.{Net}

module _ {A W : Type 0} (sys : Sockets A W) (linked : ℕ → W → Type 0) where
  -- The transport has a descriptor that is connected, and is done with connecting.
  abbrev pub IsLinked : Net W → Type 0
  IsLinked s = (fd : ℕ) × (s.tcp.fd ≡ some fd) × (s.tcp.connecting ≡ false) × linked fd s.os

  abbrev pub OkLinked : ℕ × Net W → Type 0
  OkLinked r = r.0 ≡ status_ok → IsLinked r.1
