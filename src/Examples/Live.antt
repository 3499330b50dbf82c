-- ===== src/Examples/Live.antt =====
-- examples/mqtt_broker_demo.c: a client over a TCP socket, which waits for its own message to come back.
pub mod Clock
pub mod Ends
pub mod Exit
pub mod Tests
use aemlib.Base.{
  ℕ, zero, suc, ◌+◌, ◌*◌, ◌/◌, ◌%◌, ◌^◌, List, [], ◌∷◌, ◌++◌, take, Option, none, some, Bool, true,
  false, not, ◌&&◌, ltb, if◌then◌else◌,
}
use aemlib.Base.Words.{sub_size}
use aemlib.Base.Text.{codes}
use aemlib.Platform.Transport.{
  Transport, Read, Written, transport_connect, transport_disconnect, transport_read,
  transport_write,
}
use aemlib.Core.State.{Config, Sys}
use aemlib.Client.Api.{zeroed, init, connect, disconnect, publish, subscribe, poll}
use aemlib.Examples.Broker.{Run, done, out_of_bounds, out_of_fuel}
use aemlib.Examples.Demo.{checked, regardless, is_connected}
use aemlib.Examples.Sockets.{Sockets}
use aemlib.Examples.Tcp.{Net, tcp_init, tcp_bind, decimal}

-- The functions of POSIX that the program calls besides those of its transport. CLOCK_MONOTONIC is read in
-- seconds and nanoseconds.
pub record Posix (W : Type 0) : Type 0 where
  pub clock_gettime : W → ℕ × ℕ × W
  pub getpid : W → ℕ
  pub usleep : ℕ → W → W

-- The transport's struct and the system, and `g_received`.
pub record World (W : Type 0) : Type 0 where
  pub net : Net W
  pub received : Bool

abbrev pub broker_host : List ℕ
broker_host = codes "test.mosquitto.org"

abbrev pub live_payload : List ℕ
live_payload = codes "hello from aemlib over real TCP"

abbrev pub overall_timeout_ms : ℕ
overall_timeout_ms = 15000

-- The variables of the loop.
pub record Main (W : Type 0) : Type 0 where
  pub sys : Sys (World W)
  pub subscribed : Bool
  pub published : Bool
  pub subscribe_time : ℕ

module _ {A W : Type 0} (sockets : Sockets A W) (posix : Posix W) where
  -- real_time_now
  unfoldable pub real_time_now : World W → ℕ × World W
  real_time_now w =
      let (sec, nsec, os) = posix.clock_gettime w.net.os in
      let ms = (sec * 1000 + nsec / 1000000) % 2 ^ 64 in
      (ms, record w { net = record w.net { os = os } })

  -- `transport`, whose context is the struct in the program's world.
  unfoldable pub transport : Transport (World W)
  transport =
      let t = tcp_bind sockets in
      record {
        connect =
            some (λ w. let (st, net) = transport_connect t w.net in (st, record w { net = net }));
        disconnect =
            some
              (λ w. let (st, net) = transport_disconnect t w.net in (st, record w { net = net }));
        read = some (λ w len.
            let r = transport_read t len 0 w.net in
            record {
              status = r.status;
              stored = r.stored;
              out_len = r.out_len;
              world = record w { net = r.world };
            });
        write = some (λ w bytes.
            let r = transport_write t bytes 0 w.net in
            record { status = r.status; out_len = r.out_len; world = record w { net = r.world } });
      }

  -- `config`, with the memories of the two buffers. What on_message prints is left out.
  unfoldable pub config : List ℕ → List ℕ → Config (World W)
  config tx_buf rx_buf = record {
    tx_buffer = some tx_buf;
    tx_buffer_size = 512;
    rx_buffer = some rx_buf;
    rx_buffer_size = 512;
    transport = transport;
    time = record { now_ms = some real_time_now };
    storage = record { write_record = none; read_record = none; delete_record = none };
    keepalive_interval_ms = 60000;
    on_message = some (λ w m. record w { received = true });
  }

  -- `topic`, whose 128 bytes hold 127 characters: a pid_t has at most 10 digits, and a uint64_t 20.
  abbrev pub own_topic : ℕ → ℕ → List ℕ
  own_topic pid now =
      take 127 (codes "aemlib/demo/" ++ decimal 10 pid ++ codes "/" ++ decimal 20 now)

  unfoldable pub subscribe_once : List ℕ → Main W → (Main W → Run ℕ) → Run ℕ
  subscribe_once topic m k =
      if is_connected m.sys.client.state && not m.subscribed
      then regardless (subscribe topic 0 m.sys) (λ s.
        let (now, w) = real_time_now s.world in
        k (record m { sys = record s { world = w }; subscribed = true; subscribe_time = now }))
      else k m

  -- The message is sent half a second after the subscription.
  unfoldable pub publish_once : List ℕ → Main W → (Main W → Run ℕ) → Run ℕ
  publish_once topic m k =
      if m.subscribed && not m.published
      then (let (now, w) = real_time_now m.sys.world in
          let s : Sys (World W) = record m.sys { world = w } in
          if ltb 500 (sub_size now m.subscribe_time)
          then regardless (publish topic live_payload 0 s)
              (λ s. k (record m { sys = s; published = true }))
          else k (record m { sys = s }))
      else k m

  -- What follows the loop: the exit code of the program.
  unfoldable pub finish : Main W → Run ℕ
  finish m =
      regardless (disconnect m.sys)
        λ s. regardless (poll s) λ s. done (if s.world.received then 0 else 1)

  -- `usleep(20000)`
  unfoldable pub pause : Main W → Main W
  pause m =
      let w = m.sys.world in
      let os = posix.usleep 20000 w.net.os in
      record m { sys = record m.sys { world = record w { net = record w.net { os = os } } } }

  -- The rest of a round of the loop, after its poll.
  unfoldable pub after_poll : List ℕ → (Main W → Run ℕ) → Main W → Run ℕ
  after_poll topic again m =
      subscribe_once topic m
        λ m. publish_once topic m λ m. if m.sys.world.received then finish m else again (pause m)

  -- The loop, with its number of rounds as fuel.
  unfoldable pub main_loop : ℕ → List ℕ → ℕ → Main W → Run ℕ
  main_loop zero topic start m = out_of_fuel
  main_loop (suc fuel) topic start m =
      let again = main_loop fuel topic start in
      let (now, w) = real_time_now m.sys.world in
      let s : Sys (World W) = record m.sys { world = w } in
      if ltb (sub_size now start) overall_timeout_ms
      then checked (poll s) (λ s. after_poll topic again (record m { sys = s }))
      else finish (record m { sys = s })

  -- main, with the memories of its buffers.
  unfoldable pub main : ℕ → List ℕ → List ℕ → W → Run ℕ
  main fuel tx_buf rx_buf os =
      let net : Net W = record { tcp = tcp_init broker_host 1883; os = os } in
      let (now, w) = real_time_now (record { net = net; received = false }) in
      let topic = own_topic (posix.getpid os) now in
      checked (init (some (config tx_buf rx_buf)) (record { client = zeroed; world = w })) λ s.
        checked (connect s) λ s.
          let (start, w) = real_time_now s.world in
          main_loop fuel topic start (record {
            sys = record s { world = w };
            subscribed = false;
            published = false;
            subscribe_time = 0;
          })
