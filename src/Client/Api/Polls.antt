-- ===== src/Client/Api/Polls.antt =====
-- What the I/O of aemlib_poll, in core/client.c, puts into the stream of bytes to the broker: the PINGREQ of
-- the keepalive, and the CONNECT of a connection.
use aemlib.Base.{
  ℕ, ◌/◌, ◌%◌, ◌^◌, ◌≡◌, refl, ap, sym, ◌∙◌, List, [], ◌++◌, append-nil, Bool-cases, inl, inr, ◌==◌,
  leb, Bool, true, false, if◌then◌else◌,
}
use aemlib.Base.Words.{sub_size}
use aemlib.Status.{status_ok}
use aemlib.Status.Outcome.{Outcome, returned, ◌>>=◌, Ends, Ends-bind, Ends-map}
use aemlib.Platform.Transport.{IsSink}
use aemlib.Platform.Time.{time_now}
use aemlib.Proto.Encode.Finish.{packet}
use aemlib.Proto.Encode.Packets.Short.{connect_content}
use aemlib.Core.State.{Sys}
use aemlib.Core.Valid.{Good, Good-world}
use aemlib.Client.Io.{client_send_ping, client_send_connect}
use aemlib.Client.Io.Packets.{Sends}
use aemlib.Client.Io.Stream.{handed, pending}
use aemlib.Client.Api.{keep_alive, send_connect_once}
use aemlib.Client.Io.Control.{pingreq, client_send_ping-Sends, client_send_connect-Sends}

module _ {W : Type 0} (wire : W → List ℕ) where
  rebase :
      (bytes : List ℕ) (s s' : Sys W) (m : Outcome (Sys W))
      → handed wire s ≡ handed wire s'
      → Sends wire bytes s m
      → Sends wire bytes s' m
  rebase bytes s s' m same h =
      Ends-map (λ st t. handed wire t ≡ handed wire s ++ (if st == status_ok then bytes else []))
        (λ st t. handed wire t ≡ handed wire s' ++ (if st == status_ok then bytes else [])) m
        (λ st t e. e ∙ ap (λ l. l ++ (if st == status_ok then bytes else [])) same) h

  -- A send, and then a note in the client that it was made.
  abbrev pub Noted : List ℕ → (Sys W → Type 0) → Sys W → Outcome (Sys W) → Type 0
  Noted bytes Note s r =
      Ends
        (λ st s'.
          (handed wire s' ≡ handed wire s ++ (if st == status_ok then bytes else []))
          × (st ≡ status_ok → Note s'))
        r

  send-Noted :
      (bytes : List ℕ) (Note : Sys W → Type 0) (f : Sys W → Sys W) (s : Sys W) (m : Outcome (Sys W))
      → ((t : Sys W) → handed wire (f t) ≡ handed wire t)
      → ((t : Sys W) → Note (f t))
      → Sends wire bytes s m
      → Noted bytes Note s (m >>= λ t. returned status_ok (f t))
  send-Noted bytes Note f s m same note sends =
      Ends-bind (λ st t. handed wire t ≡ handed wire s ++ (if st == status_ok then bytes else []))
        (λ st t.
          (handed wire t ≡ handed wire s ++ (if st == status_ok then bytes else []))
          × (st ≡ status_ok → Note t))
        m (λ t. returned status_ok (f t)) sends (λ st t bad h. (h, λ ok. absurd (bad ok)))
        (λ t h. (same t ∙ h, λ ok. note t))

  -- On a client in the invariant with nothing pending, the keepalive of aemlib_poll appends one
  -- PINGREQ packet to the stream of bytes to the broker exactly when the keepalive interval has
  -- passed since the last activity and it returns OK, and then notes the time as the last activity;
  -- otherwise it appends nothing, and while the interval has not passed the last activity stays.
  pub keep_alive-Sends :
      (s : Sys W)
      → Good s
      → IsSink s.client.transport wire
      → s.client.tx_pending_len ≡ 0
      → ((w : W) → wire (time_now s.client.time w).1 ≡ wire w)
      → let now = (time_now s.client.time s.world).0 in
        let due = leb s.client.keepalive_interval_ms (sub_size now s.client.last_activity_ms) in
        Noted
          (if due then pingreq else [])
          (λ s'. s'.client.last_activity_ms ≡ (if due then now else s.client.last_activity_ms))
          s
          (keep_alive s)
  unfolding keep_alive
  keep_alive-Sends s g sink clear quiet =
      let (now, w) = time_now s.client.time s.world in
      let due = leb s.client.keepalive_interval_ms (sub_size now s.client.last_activity_ms) in
      let s1 : Sys W = record s { world = w } in
      let same : handed wire s1 ≡ handed wire s = ap (λ l. l ++ pending s.client) (quiet s.world) in
      elim (Bool-cases due) [
        | inl late ↦ rw late (
            send-Noted pingreq (λ t. t.client.last_activity_ms ≡ now)
              (λ t. record t { client = record t.client { last_activity_ms = now } }) s
              (client_send_ping s1) (λ t. refl) (λ t. refl)
              (rebase pingreq s1 s (client_send_ping s1) same
                (client_send_ping-Sends wire s1 (Good-world s w g) sink clear)))
        | inr early ↦ rw early (same ∙ sym (append-nil _), λ ok. refl)
      ]

  -- The CONNECT with the keepalive in seconds, cut to 16 bits.
  abbrev pub connect_packet : Sys W → List ℕ
  connect_packet s =
      packet 0x10 (connect_content [] (s.client.keepalive_interval_ms / 1000 % 2 ^ 16))

  once :
      (sent : Bool) (s : Sys W)
      → s.client.connect_sent ≡ sent
      → Good s
      → IsSink s.client.transport wire
      → s.client.tx_pending_len ≡ 0
      → Noted
          (if sent then [] else connect_packet s)
          (λ s'. s'.client.connect_sent ≡ true)
          s
          (elim sent as (λ b. Outcome (Sys W)) [
            | true ↦ returned status_ok s
            | false ↦ client_send_connect s >>= λ s.
                returned status_ok (record s { client = record s.client { connect_sent = true } })
          ])
  once true s e g sink clear = (sym (append-nil _), λ ok. e)
  once false s e g sink clear =
      send-Noted (connect_packet s) (λ t. t.client.connect_sent ≡ true)
        (λ t. record t { client = record t.client { connect_sent = true } }) s
        (client_send_connect s) (λ t. refl) (λ t. refl)
        (client_send_connect-Sends wire s g sink clear)

  pub send_connect_once-Sends :
      (s : Sys W)
      → Good s
      → IsSink s.client.transport wire
      → s.client.tx_pending_len ≡ 0
      → Noted
          (if s.client.connect_sent then [] else connect_packet s)
          (λ s'. s'.client.connect_sent ≡ true)
          s
          (send_connect_once s)
  unfolding send_connect_once
  send_connect_once-Sends s g sink clear = once s.client.connect_sent s refl g sink clear
