-- ===== src/Client/Api/Outside.antt =====
-- What the calls of the API of core/client.c do to everything outside the library.
use aemlib.Base.{ℕ, ◌≡◌, List, Option, some}
use aemlib.Platform.Transport.{
  Transport, transport_connect, transport_disconnect, transport_read, transport_write,
}
use aemlib.Platform.Time.{Time, time_now}
use aemlib.Proto.Decode.{Message}
use aemlib.Core.State.{Sys, Callback}
use aemlib.Core.Stable.{IsKept, Keeps}
use aemlib.Client.Api.Reach.{Call, perform}
use aemlib.Client.Api.Frame.{perform-Keeps}

module _ {W : Type 0} where
  -- A property of the world that the functions given to aemlib_init keep: those of the transport, the
  -- clock and the message callback.
  pub record Respected (P : W → Type 0) (t : Transport W) (time : Time W)
      (on_message : Option (Callback W)) : Type 0 where
    pub connects : (w : W) → P w → P (transport_connect t w).1
    pub disconnects : (w : W) → P w → P (transport_disconnect t w).1
    pub reads : (w : W) (len : ℕ) → P w → P (transport_read t len 0 w).world
    pub writes : (w : W) (bytes : List ℕ) → P w → P (transport_write t bytes 0 w).world
    pub tells : (w : W) → P w → P (time_now time w).1
    pub calls : (f : Callback W) (w : W) (m : Message) → on_message ≡ some f → P w → P (f w m)

module _ {W I : Type 0} (P : I → W → Type 0) where
  -- The functions of the client keep each of the properties, and this one holds.
  abbrev pub Respects : I → Sys W → Type 0
  Respects i s =
      ((i : I) → Respected (P i) s.client.transport s.client.time s.client.on_message) × P i s.world

  Respects-IsKept : (i : I) → IsKept (Respects i)
  Respects-IsKept i = record {
    stable = record {
      buffers = λ s tx rx pending len j. j;
      notes = λ s now sent j. j;
      reads = λ s len (r, p). (r, (r i).reads s.world len p);
      writes = λ s bytes (r, p). (r, (r i).writes s.world bytes p);
      tells = λ s (r, p). (r, (r i).tells s.world p);
      delivers = λ s f m e (r, p). (r, (r i).calls f s.world m e p);
    };
    turns = λ s state id j. j;
    connects = λ s (r, p). (r, (r i).connects s.world p);
    disconnects = λ s (r, p). (r, (r i).disconnects s.world p);
  }

  -- A call changes the world only by the functions that the client was given.
  pub perform-Respects :
      (i : I) (c : Call) (s : Sys W) → Respects i s → Keeps (Respects i) (perform c s)
  perform-Respects i c s j = perform-Keeps (Respects i) (Respects-IsKept i) c s j
