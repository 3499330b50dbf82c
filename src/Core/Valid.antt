-- ===== src/Core/Valid.antt =====
-- The invariant of a client and of the interfaces that it was given.
use aemlib.Base.{
  ℕ, ◌^◌, ◌≤◌, ◌<◌, ◌≡◌, Option, some, length, All, Bool-cases, inl, inr, ◌==◌, arith, List,
}
use aemlib.Base.Words.{IsByte}
use aemlib.Status.{status_ok}
use aemlib.Status.Outcome.{Outcome, returned, fault, Ends, accessing, ◌>>=◌}
use aemlib.Platform.Transport.{IsLawful}
use aemlib.Core.State.{Client, Sys}

-- The buffers are as large as the client was told, and no object takes half of the address space; what
-- is pending and what is received lies inside them; received memory is bytes; packet identifiers are
-- the nonzero uint16_t; and the transport keeps its contract.
pub record Good {W : Type 0} (s : Sys W) : Type 0 where
  pub tx_memory : s.client.tx_buffer_size ≤ length s.client.tx_buffer
  pub rx_memory : s.client.rx_buffer_size ≤ length s.client.rx_buffer
  pub tx_small : length s.client.tx_buffer < 2 ^ 62
  pub rx_small : length s.client.rx_buffer < 2 ^ 62
  pub pending_in : s.client.tx_pending_len ≤ s.client.tx_buffer_size
  pub received_in : s.client.rx_len ≤ s.client.rx_buffer_size
  pub rx_bytes : All IsByte s.client.rx_buffer
  pub id_positive : 1 ≤ s.client.packet_id
  pub id_small : s.client.packet_id < 2 ^ 16
  pub law : IsLawful s.client.transport

-- A call that does not fault, and keeps the invariant whatever it returns.
abbrev pub Safe : {W : Type 0} → Outcome (Sys W) → Type 0
Safe r = Ends (λ st s. Good s) r

module _ {W : Type 0} where
  pub Safe-bind :
      (m : Outcome (Sys W)) (k : Sys W → Outcome (Sys W))
      → Safe m
      → ((s : Sys W) → Good s → Safe (k s))
      → Safe (m >>= k)
  Safe-bind (returned st s) k g f = elim (Bool-cases (st == status_ok)) [
    | inl e ↦ rw e (f s g)
    | inr e ↦ rw e g
  ]
  Safe-bind fault k g f = g

  pub Safe-accessing :
      {A : Type 0} (o : Option A) (k : A → Outcome (Sys W)) (a : A)
      → o ≡ some a
      → Safe (k a)
      → Safe (accessing o k)
  Safe-accessing o k a e g = rw e g

  -- The receive buffer is rewritten, within its size.
  pub Good-receive :
      (s : Sys W) (rx : List ℕ) (n : ℕ) (w : W)
      → Good s
      → length rx ≡ length s.client.rx_buffer
      → All IsByte rx
      → n ≤ s.client.rx_buffer_size
      → Good (record { client = record s.client { rx_buffer = rx; rx_len = n }; world = w })
  Good-receive s rx n w g same bytes h = record {
    tx_memory = g.tx_memory;
    rx_memory = omega arith;
    tx_small = g.tx_small;
    rx_small = omega arith;
    pending_in = g.pending_in;
    received_in = h;
    rx_bytes = bytes;
    id_positive = g.id_positive;
    id_small = g.id_small;
    law = g.law;
  }

  -- The transmit buffer is rewritten, and `n` bytes of it are pending.
  pub Good-transmit :
      (s : Sys W) (tx : List ℕ) (n : ℕ) (w : W)
      → Good s
      → length tx ≡ length s.client.tx_buffer
      → n ≤ s.client.tx_buffer_size
      → Good (record { client = record s.client { tx_buffer = tx; tx_pending_len = n }; world = w })
  Good-transmit s tx n w g same h = record {
    tx_memory = omega arith;
    rx_memory = g.rx_memory;
    tx_small = omega arith;
    rx_small = g.rx_small;
    pending_in = h;
    received_in = g.received_in;
    rx_bytes = g.rx_bytes;
    id_positive = g.id_positive;
    id_small = g.id_small;
    law = g.law;
  }

  -- The interfaces' world moves on.
  pub Good-world : (s : Sys W) (w : W) → Good s → Good (record s { world = w })
  Good-world s w g = assumption

  -- A call that leaves the client as it is.
  abbrev pub Leaves : Client W → Outcome (Sys W) → Type 0
  Leaves c r = Ends (λ st s. Good s × (s.client ≡ c)) r

  pub Leaves-bind :
      (c : Client W) (m : Outcome (Sys W)) (k : Sys W → Outcome (Sys W))
      → Leaves c m
      → ((s : Sys W) → Good s → s.client ≡ c → Safe (k s))
      → Safe (m >>= k)
  Leaves-bind c (returned st s) k g f = elim (Bool-cases (st == status_ok)) [
    | inl e ↦ rw e (f s g.0 g.1)
    | inr e ↦ rw e g.0
  ]
  Leaves-bind c fault k g f = g

  pub Leaves-accessing :
      {A : Type 0} (c : Client W) (o : Option A) (k : A → Outcome (Sys W)) (a : A)
      → o ≡ some a
      → Leaves c (k a)
      → Leaves c (accessing o k)
  Leaves-accessing c o k a e g = rw e g
