-- ===== src/Examples/Live/Exit.antt =====
-- examples/mqtt_broker_demo.c: the program ends.
use aemlib.Base.{
  refl, false, length, take, ◌++◌, length-take, All, ℕ, ◌+◌, ◌*◌, ◌/◌, ◌^◌, ◌≤◌, ◌<◌, ◌≡◌, List,
  arith,
}
use aemlib.Base.Words.{IsByte}
use aemlib.Base.Text.{codes}
use aemlib.Status.{status_ok}
use aemlib.Status.Outcome.{Ends-returned}
use aemlib.Core.State.{Config, Sys, State}
use aemlib.Core.Valid.{Good, Good-world}
use aemlib.Core.Config.{
  Provided, core_init-Good, core_init, init_with, validate_config, apply_config,
}
use aemlib.Core.Machine.{core_connect, connect_in}
use aemlib.Platform.Transport.{transport_validate}
use aemlib.Platform.Time.{time_validate}
use aemlib.Client.Api.{zeroed, init, connect}
use aemlib.Client.Api.Safety.{connect-Safe}
use aemlib.Examples.Sockets.{Sockets, IsHonest}
use aemlib.Examples.Tcp.Lawful.{tcp_bind-IsLawful}
use aemlib.Examples.Tcp.{Net, tcp_init, decimal}
use aemlib.Examples.Live.Clock.{Exits, IsClock, ours}
use aemlib.Examples.Live.{
  Posix, World, real_time_now, transport, config, main, broker_host, own_topic,
}
use aemlib.Examples.Live.Ends.{main_loop-Exits}

take-short : (n : ℕ) (text : List ℕ) → length (take n text) ≤ n
take-short n text = omega (arith, length-take n text)

module _ {A W : Type 0} (sockets : Sockets A W) (posix : Posix W) (time : W → ℕ) where
  own_topic-short : (pid now : ℕ) → length (own_topic sockets posix pid now) ≤ 127
  own_topic-short pid now =
      take-short 127 (codes "aemlib/demo/" ++ decimal 10 pid ++ codes "/" ++ decimal 20 now)

  module _ (clock : IsClock sockets posix time) where
    provided :
        (tx_buf rx_buf : List ℕ)
        → length tx_buf ≡ 512
        → length rx_buf ≡ 512
        → All IsByte rx_buf
        → IsHonest sockets
        → Provided (config sockets posix tx_buf rx_buf)
    unfolding config transport
    provided tx_buf rx_buf tx rx bytes honest =
        let law = (tcp_bind-IsLawful sockets honest).0 in
        record {
          tx_room = omega (arith, tx);
          rx_room = omega (arith, rx);
          tx_small = omega (arith, tx);
          rx_small = omega (arith, rx);
          rx_bytes = bytes;
          law = record {
            read_fits = λ w. law.read_fits w.net;
            read_bytes = λ w. law.read_bytes w.net;
            read_counts = λ w. law.read_counts w.net;
            write_counts = λ w. law.write_counts w.net;
          };
        }

    -- The program mqtt_broker_demo ends with an exit code: its loop is over within 752 rounds and
    -- no access of the library is out of bounds, whatever the broker sends. It is assumed that its
    -- two buffers have 512 bytes, that recv and send are as documented, that no function of POSIX
    -- turns the clock in milliseconds back, that usleep waits at least as long as it is asked to
    -- unless the clock runs out, and that the clock is more than 15.02 s away from 2 ^ 64 ms when
    -- the loop starts.
    pub main-Exits :
        (tx_buf rx_buf : List ℕ) (os : W)
        → length tx_buf ≡ 512
        → length rx_buf ≡ 512
        → All IsByte rx_buf
        → IsHonest sockets
        → time (posix.clock_gettime (posix.clock_gettime os).2).2 + 15020 < 2 ^ 64
        → Exits (main sockets posix 752 tx_buf rx_buf os)
    unfolding main init core_init init_with validate_config apply_config transport_validate
        time_validate config connect core_connect connect_in transport real_time_now
    main-Exits tx_buf rx_buf os tx rx bytes honest far =
        let os2 : W = (posix.clock_gettime (posix.clock_gettime os).2).2 in
        let now : (posix.clock_gettime os2).0 * 1000 + (posix.clock_gettime os2).1 / 1000000
            ≡ time os2 =
          clock.reads os2 in
        let cfg : Config (World W) = config sockets posix tx_buf rx_buf in
        let net : Net W = record { tcp = tcp_init broker_host 1883; os = os } in
        let (started, w1) = real_time_now sockets posix (record { net = net; received = false }) in
        let (at, w2) = real_time_now sockets posix w1 in
        let s1 : Sys (World W) = record {
          client = record (apply_config zeroed cfg) { packet_id = 1; last_activity_ms = at };
          world = w2;
        } in
        let s2 : Sys (World W) = record s1 {
          client = record s1.client { state = State.connecting; connect_sent = false };
        } in
        let g1 : Good s1 =
          Ends-returned (λ st s. st ≡ status_ok → Good s) _ status_ok s1
            (core_init-Good cfg (record { client = zeroed; world = w1 }) refl refl
              (provided tx_buf rx_buf tx rx bytes honest))
            refl refl in
        main_loop-Exits sockets posix time clock 751
          (own_topic sockets posix (posix.getpid os) started)
          (own_topic-short (posix.getpid os) started) _ _
          (
            Good-world s2 _ (
                Ends-returned (λ st s. Good s) (connect s1) status_ok s2 (connect-Safe s1 g1) refl),
            (
              ours sockets posix time clock tx_buf rx_buf,
              omega (arith, now, clock.bounded os2, clock.goes_on os2),
            ),
          )
          (omega (arith, now, clock.bounded os2, clock.goes_on os2)) (omega (arith, now, far))
