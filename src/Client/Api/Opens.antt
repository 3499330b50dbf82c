-- ===== src/Client/Api/Opens.antt =====
-- aemlib_poll of core/client.c, when the connection of the transport has come about.
use aemlib.Base.{ℕ, ◌≡◌, refl, ap, ◌∙◌, List, [], ◌++◌, if◌then◌else◌, true, false, ◌==◌, ==_iff}
use aemlib.Status.{status_ok}
use aemlib.Status.Outcome.{returned, ◌>>=◌, Ends-map, Ends-returned}
use aemlib.Platform.Transport.{IsSink, transport_connect}
use aemlib.Platform.Time.{time_now}
use aemlib.Core.State.{Sys, State}
use aemlib.Core.Valid.{Good}
use aemlib.Core.Machine.{core_poll, poll_in, handle_connecting}
use aemlib.Core.Machine.Safety.{core_poll-Safe}
use aemlib.Client.Io.{client_flush_pending}
use aemlib.Client.Io.Stream.{handed, pending}
use aemlib.Client.Api.{poll, poll_io, send_connect_once}
use aemlib.Client.Api.Polls.{Noted, connect_packet, send_connect_once-Sends}

module _ {W : Type 0} where
  -- The system when the core has noticed that the transport is connected.
  abbrev reached : Sys W → Sys W
  reached s =
      let (now, w) = time_now s.client.time (transport_connect s.client.transport s.world).1 in
      record {
        client = record s.client { state = State.mqtt_connect_sent; last_activity_ms = now };
        world = w;
      }

  flush_clear :
      (s : Sys W) → s.client.tx_pending_len ≡ 0 → client_flush_pending s ≡ returned status_ok s
  unfolding client_flush_pending
  flush_clear s clear = rw ((==_iff s.client.tx_pending_len 0).1 clear) refl

  core_reaches :
      (s : Sys W)
      → s.client.state ≡ State.connecting
      → (transport_connect s.client.transport s.world).0 ≡ status_ok
      → core_poll s ≡ returned status_ok (reached s)
  unfolding core_poll poll_in handle_connecting
  core_reaches s at made =
      ap (λ a. poll_in a s) at
      ∙ rw ((==_iff (transport_connect s.client.transport s.world).0 status_ok).1 made) refl

  poll_reaches :
      (s : Sys W)
      → s.client.tx_pending_len ≡ 0
      → s.client.state ≡ State.connecting
      → (transport_connect s.client.transport s.world).0 ≡ status_ok
      → poll s ≡ send_connect_once (reached s)
  unfolding poll poll_io
  poll_reaches s clear at made =
      ap (λ r. r >>= λ s. core_poll s >>= λ s. poll_io s.client.state s) (flush_clear s clear)
      ∙ ap (λ r. r >>= λ s. poll_io s.client.state s) (core_reaches s at made)

module _ {W : Type 0} (wire : W → List ℕ) where
  -- On a client in the invariant and in the state CONNECTING, with nothing pending and no CONNECT
  -- sent, when the transport's connect returns OK, aemlib_poll appends one CONNECT packet of MQTT
  -- 3.1.1, with an empty client identifier and the keepalive interval in seconds modulo 2 ^ 16, to
  -- the stream of bytes to the broker if it returns OK, and nothing otherwise; when it returns OK
  -- it has noted that CONNECT was sent. It is assumed that connecting and asking for the time send
  -- nothing themselves.
  pub poll-opens :
      (s : Sys W)
      → Good s
      → IsSink s.client.transport wire
      → s.client.state ≡ State.connecting
      → s.client.tx_pending_len ≡ 0
      → s.client.connect_sent ≡ false
      → (transport_connect s.client.transport s.world).0 ≡ status_ok
      → wire (transport_connect s.client.transport s.world).1 ≡ wire s.world
      → ((w : W) → wire (time_now s.client.time w).1 ≡ wire w)
      → Noted wire (connect_packet wire s) (λ s'. s'.client.connect_sent ≡ true) s (poll s)
  poll-opens s g sink at clear fresh made calm quiet =
      let p = connect_packet wire s in
      let same : handed wire (reached s) ≡ handed wire s =
        ap (λ l. l ++ pending s.client)
          (quiet (transport_connect s.client.transport s.world).1 ∙ calm) in
      let g' : Good (reached s) =
        Ends-returned (λ st s. Good s) (core_poll s) status_ok (reached s) (core_poll-Safe s g)
          (core_reaches s at made) in
      rw (poll_reaches s clear at made) (
        Ends-map
          (λ st t.
            (handed wire t
              ≡ handed wire (reached s)
                ++ (if st == status_ok then (if s.client.connect_sent then [] else p) else []))
            × (st ≡ status_ok → t.client.connect_sent ≡ true))
          (λ st t.
            (handed wire t ≡ handed wire s ++ (if st == status_ok then p else []))
            × (st ≡ status_ok → t.client.connect_sent ≡ true))
          (send_connect_once (reached s))
          (λ st t (e, note). (
            e
                ∙ ap
                    (λ l.
                      l
                      ++ (if st == status_ok
                          then (if s.client.connect_sent then [] else p)
                          else []))
                    same
                ∙ ap (λ b. handed wire s ++ (if st == status_ok then (if b then [] else p) else []))
                    fresh,
            note,
          ))
          (send_connect_once-Sends wire (reached s) g' sink clear))
