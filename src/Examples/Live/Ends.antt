-- ===== src/Examples/Live/Ends.antt =====
-- examples/mqtt_broker_demo.c: its loop ends.
use aemlib.Base.{
  refl, length, ℕ, zero, suc, ◌+◌, ◌*◌, ◌-◌, ◌^◌, ◌≤◌, ◌<◌, ◌≡◌, List, arith, Bool-cases, inl, inr,
  ◌&&◌, not, ltb, ltb→lt, le_of_ltb,
}
use aemlib.Base.Words.{sub_size}
use aemlib.Core.State.{Sys}
use aemlib.Core.Valid.{Good-world}
use aemlib.Client.Api.{disconnect, poll, publish, subscribe}
use aemlib.Client.Api.Reach.{Call}
use aemlib.Examples.Broker.{Run}
use aemlib.Examples.Demo.{is_connected}
use aemlib.Examples.Sockets.{Sockets}
use aemlib.Examples.Live.Clock.{
  Exits, checked-Exits, regardless-Exits, IsClock, Past, From, keeps, later, told,
}
use aemlib.Examples.Live.{
  Posix, World, Main, real_time_now, subscribe_once, publish_once, finish, pause, after_poll,
  main_loop, live_payload,
}

module _ {A W : Type 0} (sockets : Sockets A W) (posix : Posix W) (time : W → ℕ) where
  abbrev Next : ℕ → (Main W → Run ℕ) → Type 0
  Next t k = (m : Main W) → From sockets posix time t m.sys → Exits (k m)

  finish-Exits : (t : ℕ) → Next t (finish sockets posix)
  unfolding finish
  finish-Exits t m j =
      regardless-Exits (From sockets posix time t) (disconnect m.sys) _
        (keeps sockets posix time t Call.disconnect_call m.sys tt j)
        λ s j.
          regardless-Exits (From sockets posix time t) (poll s) _
            (keeps sockets posix time t Call.poll_call s tt j) λ s j. (_, refl)

  module _ (clock : IsClock sockets posix time) where
    subscribe_once-Exits :
        (topic : List ℕ)
        → length topic ≤ 127
        → (t : ℕ) (k : Main W → Run ℕ) → Next t k
        → Next t (λ m. subscribe_once sockets posix topic m k)
    unfolding subscribe_once
    subscribe_once-Exits topic short t k go m j =
        elim (Bool-cases (is_connected m.sys.client.state && not m.subscribed)) [
          | inr not_now ↦ rw not_now (go m j)
          | inl now_ ↦ rw now_ (
              regardless-Exits (From sockets posix time t) (subscribe topic 0 m.sys) _
                (keeps sockets posix time t (Call.subscribe_call topic 0) m.sys
                  (omega (arith, short)) j)
                λ s (g, (r, p)).
                  go _ (Good-world s _ g, (r, later sockets posix time clock t s.world p)))
        ]

    publish_once-Exits :
        (topic : List ℕ)
        → length topic ≤ 127
        → (t : ℕ) (k : Main W → Run ℕ) → Next t k
        → Next t (λ m. publish_once sockets posix topic m k)
    unfolding publish_once
    publish_once-Exits topic short t k go m (g, (r, p)) =
        let (now, w) = real_time_now sockets posix m.sys.world in
        let s : Sys (World W) = record m.sys { world = w } in
        let j : From sockets posix time t s =
          (Good-world m.sys w g, (r, later sockets posix time clock t m.sys.world p)) in
        elim (Bool-cases (m.subscribed && not m.published)) [
          | inr not_now ↦ rw not_now (go m (g, (r, p)))
          | inl now_ ↦ rw now_ (elim (Bool-cases (ltb 500 (sub_size now m.subscribe_time))) [
            | inr wait ↦ rw wait (go _ j)
            | inl due ↦ rw due (
                regardless-Exits (From sockets posix time t) (publish topic live_payload 0 s) _
                  (keeps sockets posix time t (Call.publish_call topic live_payload 0) s
                    (omega (arith, short)) j)
                  λ s j. go _ j)
          ])
        ]

    after_poll-Exits :
        (topic : List ℕ)
        → length topic ≤ 127
        → (t : ℕ) (again : Main W → Run ℕ) → Next t (λ m. again (pause sockets posix m))
        → Next t (after_poll sockets posix topic again)
    unfolding after_poll
    after_poll-Exits topic short t again go = subscribe_once-Exits topic short t _ (
        publish_once-Exits topic short t _ λ m j. elim (Bool-cases m.sys.world.received) [
          | inl now_ ↦ simp (now_) (finish-Exits t m j)
          | inr not_now ↦ simp (not_now) (go m j)
        ])

    -- A pause of 20 ms brings the end of the 15 s nearer by a round.
    pause-nearer :
        (rounds start t : ℕ) (m : Main W)
        → start ≤ t
        → start + 15000 ≤ t + 20 * suc rounds
        → start + 15020 < 2 ^ 64
        → Past sockets posix time t m.sys.world
        → let w = (pause sockets posix m).sys.world in
          Past sockets posix time start w × (start + 15000 ≤ time w.net.os + 20 * rounds)
    unfolding pause
    pause-nearer rounds start t m at h far p =
        let os = m.sys.world.net.os in
        let slept = clock.sleeps 20000 os in
        (
          omega (arith, at, p, slept),
          elim (Bool-cases (ltb (time os + 20) (2 ^ 64))) [
            | inl ample ↦
                omega (arith, at, h, p, clock.waits 20000 os (ltb→lt (time os + 20) (2 ^ 64) ample))
            | inr out ↦ omega (arith, far, slept, le_of_ltb (time os + 20) (2 ^ 64) out)
          ],
        )

    -- The loop ends if it does after each poll that is made before the 15 s are over.
    main_loop-once :
        (rounds : ℕ) (topic : List ℕ) (start : ℕ) (m : Main W)
        → From sockets posix time start m.sys
        → start + 15020 < 2 ^ 64
        → (time m.sys.world.net.os < start + 15000
            → Next
                (time m.sys.world.net.os)
                (after_poll sockets posix topic (main_loop sockets posix rounds topic start)))
        → Exits (main_loop sockets posix (suc rounds) topic start m)
    unfolding main_loop
    main_loop-once rounds topic start m (g, (r, p)) far go =
        let w = m.sys.world in
        let t = time w.net.os in
        let (now, w1) = real_time_now sockets posix w in
        let s : Sys (World W) = record m.sys { world = w1 } in
        let j : From sockets posix time t s =
          (Good-world m.sys w1 g, (r, later sockets posix time clock t w (omega arith))) in
        let exact : sub_size now start ≡ t - start =
          omega (arith, told sockets posix time clock w, clock.bounded w.net.os, p, far) in
        elim (Bool-cases (ltb (sub_size now start) 15000)) [
          | inr over ↦ rw over (finish-Exits t _ j)
          | inl early ↦ rw early (
              checked-Exits (From sockets posix time t) (poll s) _
                (keeps sockets posix time t Call.poll_call s tt j)
                λ s j. go (omega (arith, exact, p, ltb→lt (sub_size now start) 15000 early)) _ j)
        ]

    pub main_loop-Exits :
        (rounds : ℕ) (topic : List ℕ)
        → length topic ≤ 127
        → (start : ℕ) (m : Main W) → From sockets posix time start m.sys
        → start + 15000 ≤ time m.sys.world.net.os + 20 * rounds
        → start + 15020 < 2 ^ 64
        → Exits (main_loop sockets posix (suc rounds) topic start m)
    unfolding pause
    main_loop-Exits zero topic short start m j h far =
        main_loop-once zero topic start m j far (λ early. absurd (omega arith))
    main_loop-Exits (suc rounds) topic short start m j h far =
        let t = time m.sys.world.net.os in
        main_loop-once (suc rounds) topic start m j far (λ early.
          after_poll-Exits topic short t _ (λ m' (g, (r, p)).
            let (at, h') = pause-nearer rounds start t m' j.1.1 h far p in
            main_loop-Exits rounds topic short start (pause sockets posix m')
              (Good-world m'.sys _ g, (r, at)) h' far))
