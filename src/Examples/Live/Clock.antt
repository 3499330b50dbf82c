-- ===== src/Examples/Live/Clock.antt =====
-- examples/mqtt_broker_demo.c: its clock, which goes on whatever the program does.
use aemlib.Base.{
  ℕ, ◌+◌, ◌*◌, ◌/◌, ◌^◌, ◌≤◌, ◌<◌, ◌≡◌, refl, some_inj, subst, List, arith, Bool-cases, inl, inr,
  ◌==◌,
}
use aemlib.Status.{status_ok}
use aemlib.Status.Outcome.{Outcome, returned, fault, Ends, Ends-and}
use aemlib.Core.State.{Sys}
use aemlib.Core.Valid.{Good}
use aemlib.Client.Api.Reach.{Call, Permitted, perform, perform-Safe}
use aemlib.Client.Api.Outside.{Respected, Respects, perform-Respects}
use aemlib.Examples.Broker.{Run, done}
use aemlib.Examples.Demo.{checked, regardless}
use aemlib.Examples.Sockets.{Sockets}
use aemlib.Examples.Tcp.Keeps.{
  IsSteady, tcp_connect-keeps, tcp_disconnect-keeps, tcp_read-keeps, tcp_write-keeps,
}
use aemlib.Examples.Live.{Posix, World, real_time_now, transport, config}

-- The program ends with an exit code: it makes no access out of bounds and does not run on.
abbrev pub Exits : Run ℕ → Type 0
Exits r = (code : ℕ) × (r ≡ done code)

pub checked-Exits :
    {W : Type 0} (P : Sys W → Type 0) (r : Outcome (Sys W)) (k : Sys W → Run ℕ)
    → Ends (λ st s. P s) r
    → ((s : Sys W) → P s → Exits (k s))
    → Exits (checked r k)
checked-Exits P (returned st s) k p go = elim (Bool-cases (st == status_ok)) [
  | inl fine ↦ rw fine (go s p)
  | inr bad ↦ rw bad (1, refl)
]
checked-Exits P fault k p go = absurd p

pub regardless-Exits :
    {W : Type 0} (P : Sys W → Type 0) (r : Outcome (Sys W)) (k : Sys W → Run ℕ)
    → Ends (λ st s. P s) r
    → ((s : Sys W) → P s → Exits (k s))
    → Exits (regardless r k)
regardless-Exits P (returned st s) k p go = go s p
regardless-Exits P fault k p go = absurd p

module _ {A W : Type 0} where
  -- `time` is the clock in milliseconds, in a uint64_t: clock_gettime reads it, nothing turns it back, and
  -- usleep waits at least as long as it is asked to unless the clock runs out.
  pub record IsClock (sockets : Sockets A W) (posix : Posix W) (time : W → ℕ) : Type 0 where
    pub bounded : (w : W) → time w < 2 ^ 64
    pub reads :
        (w : W) → let (sec, nsec, _) = posix.clock_gettime w in sec * 1000 + nsec / 1000000 ≡ time w
    pub goes_on : (w : W) → time w ≤ time (posix.clock_gettime w).2
    pub waits :
        (us : ℕ) (w : W)
        → time w + us / 1000 < 2 ^ 64
        → time w + us / 1000 ≤ time (posix.usleep us w)
    pub sleeps : (us : ℕ) (w : W) → time w ≤ time (posix.usleep us w)
    pub steady : (t : ℕ) → IsSteady sockets (λ w. t ≤ time w)

module _ {A W : Type 0} (sockets : Sockets A W) (posix : Posix W) (time : W → ℕ) where
  abbrev pub Past : ℕ → World W → Type 0
  Past t w = t ≤ time w.net.os

  -- A client in the invariant, whose functions do not turn time back, at this time or later.
  abbrev pub From : ℕ → Sys (World W) → Type 0
  From t s = Good s × Respects Past t s

  pub keeps :
      (t : ℕ) (c : Call) (s : Sys (World W))
      → Permitted c
      → From t s
      → Ends (λ st s. From t s) (perform c s)
  keeps t c s short (g, r) =
      Ends-and (λ st s. Good s) (λ st s. Respects Past t s) (perform c s) (perform-Safe c s g short)
        (perform-Respects Past t c s r)

  module _ (clock : IsClock sockets posix time) where
    pub later : (t : ℕ) (w : World W) → Past t w → Past t (real_time_now sockets posix w).1
    unfolding real_time_now
    later t w p = omega (arith, p, clock.goes_on w.net.os)

    pub told : (w : World W) → (real_time_now sockets posix w).0 ≡ time w.net.os
    unfolding real_time_now
    told w = omega (arith, clock.reads w.net.os, clock.bounded w.net.os)

    -- The functions that the program gives to aemlib_init.
    pub ours :
        (tx_buf rx_buf : List ℕ) (t : ℕ)
        → let cfg = config sockets posix tx_buf rx_buf in
          Respected (Past t) cfg.transport cfg.time cfg.on_message
    unfolding config transport
    ours tx_buf rx_buf t =
        let steady = clock.steady t in
        let P : W → Type 0 = λ os. t ≤ time os in
        record {
          connects = λ w p. tcp_connect-keeps sockets P steady w.net p;
          disconnects = λ w p. tcp_disconnect-keeps sockets P steady w.net p;
          reads = λ w len p. tcp_read-keeps sockets P steady w.net len p;
          writes = λ w bytes p. tcp_write-keeps sockets P steady w.net bytes p;
          tells = λ w p. later t w p;
          calls = λ f w m e p. subst (λ f. Past t (f w m)) (some_inj e) p;
        }
