-- ===== src/Core/Stable.antt =====
-- Properties of a client and its world, by the steps of core/core.c and core/client.c that keep them.
use aemlib.Base.{ℕ, ◌≡◌, List, Bool, some}
use aemlib.Status.Outcome.{Outcome, ◌>>=◌, Whenever, Whenever-bind}
use aemlib.Platform.Transport.{
  transport_connect, transport_disconnect, transport_read, transport_write,
}
use aemlib.Platform.Time.{time_now}
use aemlib.Proto.Decode.{Message}
use aemlib.Core.State.{Sys, Callback, State}

module _ {W : Type 0} where
  -- A property that no buffer, no note in the client and no call of the interfaces can break.
  pub record IsStable (J : Sys W → Type 0) : Type 0 where
    pub buffers :
        (s : Sys W) (tx rx : List ℕ) (pending len : ℕ)
        → J s
        → J (record s {
          client = record s.client {
            tx_buffer = tx;
            tx_pending_len = pending;
            rx_buffer = rx;
            rx_len = len;
          };
        })
    pub notes :
        (s : Sys W) (now : ℕ) (sent : Bool)
        → J s
        → J (record s { client = record s.client { last_activity_ms = now; connect_sent = sent } })
    pub reads :
        (s : Sys W) (len : ℕ)
        → J s
        → J (record s { world = (transport_read s.client.transport len 0 s.world).world })
    pub writes :
        (s : Sys W) (bytes : List ℕ)
        → J s
        → J (record s { world = (transport_write s.client.transport bytes 0 s.world).world })
    pub tells : (s : Sys W) → J s → J (record s { world = (time_now s.client.time s.world).1 })
    pub delivers :
        (s : Sys W) (f : Callback W) (m : Message)
        → s.client.on_message ≡ some f
        → J s
        → J (record s { world = f s.world m })

  abbrev pub Keeps : (Sys W → Type 0) → Outcome (Sys W) → Type 0
  Keeps J r = Whenever (λ st s. J s) r

  pub Keeps-bind :
      (J : Sys W → Type 0) (m : Outcome (Sys W)) (k : Sys W → Outcome (Sys W))
      → Keeps J m
      → ((s : Sys W) → J s → Keeps J (k s))
      → Keeps J (m >>= k)
  Keeps-bind J m k h f = Whenever-bind (λ st s. J s) (λ st s. J s) m k h (λ st s bad j. j) f

  -- A property that no step of the library can break.
  pub record IsKept (J : Sys W → Type 0) : Type 0 where
    pub stable : IsStable J
    pub turns :
        (s : Sys W) (state : State) (id : ℕ)
        → J s
        → J (record s { client = record s.client { state = state; packet_id = id } })
    pub connects :
        (s : Sys W)
        → J s
        → J (record s { world = (transport_connect s.client.transport s.world).1 })
    pub disconnects :
        (s : Sys W)
        → J s
        → J (record s { world = (transport_disconnect s.client.transport s.world).1 })
