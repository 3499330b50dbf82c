-- ===== src/Platform/Virtual/Bind.antt =====
-- aemlib_virtual_transport_bind of platform/virtual_transport.c: an endpoint of a pair as a transport.
use aemlib.Base.{ℕ, List, [], length, Option, none, some}
use aemlib.Status.Outcome.{Outcome, returned, fault}
use aemlib.Platform.Transport.{Transport, Read, Written}
use aemlib.Platform.Virtual.{Side, Wire, closed, vt_connect, vt_disconnect, vt_read, vt_write}

-- The pair is a part of the world, behind the `ctx` of its transports. A call that faults leaves `none` there,
-- and later calls do nothing.
module _ {W : Type 0} (get : W → Option Wire) (put : Option Wire → W → W) where
  after_call : Outcome Wire → W → ℕ × W
  after_call (returned st p) w = (st, put (some p) w)
  after_call fault w = (closed, put none w)

  after_read : Outcome (Wire × List ℕ) → W → Read W
  after_read (returned st (p, bytes)) w = record {
    status = st;
    stored = bytes;
    out_len = length bytes;
    world = put (some p) w;
  }
  after_read fault w = record { status = closed; stored = []; out_len = 0; world = put none w }

  after_write : Outcome (Wire × ℕ) → W → Written W
  after_write (returned st (p, n)) w = record { status = st; out_len = n; world = put (some p) w }
  after_write fault w = record { status = closed; out_len = 0; world = put none w }

  -- A call on the pair, if it is still there.
  on_pair : {A : Type 0} → (Wire → Outcome A) → W → Outcome A
  on_pair f w = elim (get w) [ none ↦ fault | some p ↦ f p ]

  -- aemlib_virtual_transport_bind
  unfoldable pub vt_bind : Side → Transport W
  unfolding after_call after_read after_write on_pair
  vt_bind side = record {
    connect = some (λ w. after_call (on_pair (vt_connect side) w) w);
    disconnect = some (λ w. after_call (on_pair (vt_disconnect side) w) w);
    read = some (λ w len. after_read (on_pair (λ p. vt_read side p len) w) w);
    write = some (λ w bytes. after_write (on_pair (λ p. vt_write side p bytes) w) w);
  }
