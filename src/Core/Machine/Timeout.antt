-- ===== src/Core/Machine/Timeout.antt =====
-- handle_state_mqtt_connect_sent of core/core.c, when no CONNACK comes.
use aemlib.Base.{
  ℕ, zero, suc, ◌+◌, ◌-◌, ◌%◌, ◌^◌, ◌≤◌, ◌<◌, ◌≡◌, ◌⊎◌, refl, ap, sym, subst, ◌∙◌, List, [], length,
  some, Bool-cases, inl, inr, ◌==◌, ltb-false, leb, le→leb, lt_of_leb, Bool, true, false, arith,
  if◌then◌else◌,
}
use aemlib.Base.Words.{add_size, sub_size, size_mod}
use aemlib.Base.Memory.{memcpy}
use aemlib.Status.{status_ok, status_code, code_value, Code}
use aemlib.Status.Outcome.{Outcome, returned, ◌>>=◌, accessing}
use aemlib.Platform.Transport.{Transport, transport_read, is_error}
use aemlib.Platform.Time.{Time, time_now}
use aemlib.Core.State.{Sys, State}
use aemlib.Core.Machine.Inbox.{read_of}
use aemlib.Core.Machine.{
  core_poll, poll_in, handle_connect_sent, receive, await_connack, check_timeout, drop_connection,
  timed_out,
}

-- A peer that sends nothing, and a clock in milliseconds that moves on with every question for the time, by less
-- than 50 days. The time that is told wraps at 64 bits.
pub record IsSilent {W : Type 0} (t : Transport W) (tm : Time W) (clock : W → ℕ) : Type 0 where
  pub nothing : (w : W) (len : ℕ) → (transport_read t len 0 w).stored ≡ []
  pub counts :
      (w : W) (len : ℕ)
      → (if status_code (transport_read t len 0 w).status == code_value Code.would_block
          then 0
          else (transport_read t len 0 w).out_len)
        ≡ 0
  pub fine : (w : W) (len : ℕ) → is_error (transport_read t len 0 w).status ≡ false
  pub read_later :
      (w : W) (len : ℕ)
      → (clock w ≤ clock (transport_read t len 0 w).world)
        × (clock (transport_read t len 0 w).world ≤ clock w + 2 ^ 32)
  pub tells : (w : W) → (time_now tm w).0 ≡ clock w % size_mod
  pub ticks :
      (w : W)
      → (clock w + 1 ≤ clock (time_now tm w).1) × (clock (time_now tm w).1 ≤ clock w + 2 ^ 32)

copy_nothing : (buf src : List ℕ) (off : ℕ) → off ≡ 0 → src ≡ [] → memcpy buf off src ≡ some buf
unfolding memcpy
copy_nothing buf src off e f = rw (e, f, le→leb 0 (length buf) (omega arith)) refl

module _ {W : Type 0} where
  -- A number of polls, one after the other, until one is not OK.
  pub core_polls : ℕ → Sys W → Outcome (Sys W)
  core_polls zero s = returned status_ok s
  core_polls (suc n) s = core_poll s >>= core_polls n

  -- The client that waits for the CONNACK, and has received nothing.
  abbrev pub Waits : Transport W → Time W → ℕ → Sys W → Type 0
  Waits t tm last s =
      (s.client.state ≡ State.mqtt_connect_sent)
      × (s.client.rx_len ≡ 0)
      × (s.client.transport ≡ t)
      × (s.client.time ≡ tm)
      × (s.client.last_activity_ms ≡ last % size_mod)

  on_time-step :
      (s : Sys W) (b : Bool)
      → leb 5000 (sub_size (time_now s.client.time s.world).0 s.client.last_activity_ms) ≡ b
      → check_timeout s ≡ (
          let s1 : Sys W = record s { world = (time_now s.client.time s.world).1 } in
          if b then drop_connection timed_out s1 else returned status_ok s1)
  unfolding check_timeout
  on_time-step s b e = rw e refl

  -- The client after a read that stored nothing, or that is not counted.
  abbrev after_read : Sys W → List ℕ → Sys W
  after_read s rx =
      let r = read_of s in
      let read = if status_code r.status == code_value Code.would_block then 0 else r.out_len in
      record {
        client = record s.client { rx_buffer = rx; rx_len = add_size s.client.rx_len read };
        world = r.world;
      }

  read-step :
      (s : Sys W) (rx : List ℕ)
      → memcpy s.client.rx_buffer s.client.rx_len (read_of s).stored ≡ some rx
      → is_error (read_of s).status ≡ false
      → handle_connect_sent s ≡ await_connack (after_read s rx)
  unfolding handle_connect_sent receive
  read-step s rx copied fine = rw (copied, accessing, fine) refl

  await_empty : (s : Sys W) → s.client.rx_len ≡ 0 → await_connack s ≡ check_timeout s
  unfolding await_connack
  await_empty s e = rw (ltb-false 0 s.client.rx_len (omega arith)) refl

  quiet_of :
      (t : Transport W) (tm : Time W) (clock : W → ℕ) (last : ℕ) (s : Sys W)
      → IsSilent t tm clock
      → Waits t tm last s
      → IsSilent s.client.transport s.client.time clock
  quiet_of t tm clock last s quiet (at, none_here, is_t, is_tm, is_last) =
      subst (λ t. IsSilent t s.client.time clock) (sym is_t)
        (subst (λ tm. IsSilent t tm clock) (sym is_tm) quiet)

  -- A poll that reads nothing looks at the clock.
  poll-check :
      (t : Transport W) (tm : Time W) (clock : W → ℕ) (last : ℕ) (s : Sys W)
      → IsSilent t tm clock
      → Waits t tm last s
      → (s1 : Sys W) × (core_poll s ≡ check_timeout s1)
        × (Waits t tm last s1)
        × (clock s.world ≤ clock s1.world)
        × (clock s1.world ≤ clock s.world + 2 ^ 32)
  unfolding core_poll poll_in
  poll-check t tm clock last s quiet (at, none_here, is_t, is_tm, is_last) =
      let quiet' = quiet_of t tm clock last s quiet (at, none_here, is_t, is_tm, is_last) in
      let len : ℕ = sub_size s.client.rx_buffer_size s.client.rx_len in
      let s1 : Sys W = after_read s s.client.rx_buffer in
      let still : s1.client.rx_len ≡ 0 = omega (arith, quiet'.counts s.world len, none_here) in
      (
        s1,
        ap (λ st. poll_in st s) at
            ∙ read-step s s.client.rx_buffer
                (copy_nothing s.client.rx_buffer _ s.client.rx_len none_here
                  (quiet'.nothing s.world len))
                (quiet'.fine s.world len)
            ∙ await_empty s1 still,
        (at, still, is_t, is_tm, is_last),
        (quiet'.read_later s.world len).0,
        (quiet'.read_later s.world len).1,
      )

  -- The time since the connection was opened.
  elapsed :
      (t : Transport W) (tm : Time W) (clock : W → ℕ) (last : ℕ) (s : Sys W)
      → IsSilent t tm clock
      → Waits t tm last s
      → last ≤ clock s.world
      → clock s.world < last + 2 ^ 35
      → sub_size (time_now s.client.time s.world).0 s.client.last_activity_ms ≡ clock s.world - last
  elapsed t tm clock last s quiet w past soon =
      let quiet' = quiet_of t tm clock last s quiet w in omega (arith, quiet'.tells s.world, w.4)

  -- A poll times out, or it is too early and the client waits on.
  poll_cases :
      (t : Transport W) (tm : Time W) (clock : W → ℕ) (last : ℕ) (s : Sys W)
      → IsSilent t tm clock
      → Waits t tm last s
      → last ≤ clock s.world
      → clock s.world < last + 2 ^ 34
      → ((s' : Sys W) × (core_poll s ≡ returned timed_out s')
          × (s'.client.state ≡ State.disconnected))
        ⊎ ((s' : Sys W) × (core_poll s ≡ returned status_ok s')
            × (Waits t tm last s')
            × (clock s.world + 1 ≤ clock s'.world)
            × (clock s'.world < last + 2 ^ 34)
            × (clock s.world < last + 5000))
  unfolding drop_connection
  poll_cases t tm clock last s quiet w past soon =
      let (s1, e, w1, later, soon1) = poll-check t tm clock last s quiet w in
      let quiet1 = quiet_of t tm clock last s1 quiet w1 in
      let time = elapsed t tm clock last s1 quiet w1 (omega arith) (omega (arith, soon, soon1)) in
      let passed : ℕ = sub_size (time_now s1.client.time s1.world).0 s1.client.last_activity_ms in
      elim (Bool-cases (leb 5000 passed)) [
        | inl late ↦ inl (_, e ∙ on_time-step s1 true late, refl)
        | inr early ↦ inr (
          _,
          e ∙ on_time-step s1 false early,
          w1,
          omega (arith, later, quiet1.ticks s1.world),
          omega (arith, quiet1.ticks s1.world, time, later, lt_of_leb 5000 passed early),
          omega (arith, later, time, past, lt_of_leb 5000 passed early),
        )
      ]

  -- A client that waits for the CONNACK of a peer that sends nothing, with a clock that moves on
  -- with every question for the time, by less than 50 days, and that may wrap at 64 bits, does not
  -- wait forever: within one poll more than the milliseconds that are left of the five seconds,
  -- aemlib_core_poll returns TIMEOUT and the client is DISCONNECTED.
  pub core_polls-times_out :
      (t : Transport W) (tm : Time W) (clock : W → ℕ) (last n : ℕ) (s : Sys W)
      → IsSilent t tm clock
      → Waits t tm last s
      → last ≤ clock s.world
      → clock s.world < last + 2 ^ 34
      → last + 5000 ≤ clock s.world + n
      → (s' : Sys W) × (core_polls (suc n) s ≡ returned timed_out s')
        × (s'.client.state ≡ State.disconnected)
  unfolding core_polls
  core_polls-times_out t tm clock last zero s quiet w past soon enough =
      elim (poll_cases t tm clock last s quiet w past soon) [
        | inl (s', e, down) ↦ (s', rw e refl, down)
        | inr (s', e, w', later, soon', early) ↦ absurd (omega arith)
      ]
  core_polls-times_out t tm clock last (suc n) s quiet w past soon enough =
      elim (poll_cases t tm clock last s quiet w past soon) [
        | inl (s', e, down) ↦ (s', rw e refl, down)
        | inr (s', e, w', later, soon', early) ↦
            let (s2, e2, down) =
              core_polls-times_out t tm clock last n s' quiet w' (omega arith) soon'
                (omega arith) in
            (s2, rw e e2, down)
      ]
