-- ===== src/Examples/Demo.antt =====
-- The main function of examples/pubsub_demo.c: a client and the broker of the example over a pair of virtual
-- transports.
pub mod Tests
use aemlib.Base.{
  ℕ, zero, suc, List, [], Option, none, some, Bool, true, false, not, ◌&&◌, ◌==◌, if◌then◌else◌,
}
use aemlib.Base.Text.{codes}
use aemlib.Status.{status_ok}
use aemlib.Status.Outcome.{Outcome, returned, fault}
use aemlib.Platform.Transport.{Transport, transport_connect}
use aemlib.Platform.Virtual.{Side, Wire, channel_init, pair_init}
use aemlib.Platform.Virtual.Bind.{vt_bind}
use aemlib.Core.State.{Config, Sys, State}
use aemlib.Client.Api.{zeroed, init, connect, disconnect, publish, subscribe, poll}
use aemlib.Examples.Broker.{Broker, Demo, Run, done, out_of_bounds, out_of_fuel, broker_tick}

-- The pair of channels, which a fault ends, and the flag that the callback sets.
pub record World : Type 0 where
  pub wire : Option Wire
  pub received : Bool

abbrev put : Option Wire → World → World
put wire w = record w { wire = wire }

-- `client_transport` and `broker_transport`
pub client_transport : Transport World
client_transport = vt_bind (λ w. w.wire) put Side.side_a

pub broker_transport : Transport World
broker_transport = vt_bind (λ w. w.wire) put Side.side_b

abbrev demo_topic : List ℕ
demo_topic = codes "demo/topic"

abbrev demo_payload : List ℕ
demo_payload = codes "hello from aemlib"

-- `config`, with the memories of the two buffers. stub_time_now tells 0.
pub config : List ℕ → List ℕ → Config World
config tx_buf rx_buf = record {
  tx_buffer = some tx_buf;
  tx_buffer_size = 256;
  rx_buffer = some rx_buf;
  rx_buffer_size = 256;
  transport = client_transport;
  time = record { now_ms = some (λ w. (0, w)) };
  storage = record { write_record = none; read_record = none; delete_record = none };
  keepalive_interval_ms = 60000;
  on_message = some (λ w m. record w { received = true });
}

-- The variables of the loop.
pub record Main : Type 0 where
  pub sys : Sys World
  pub broker : Broker
  pub subscribed : Bool
  pub published : Bool

-- A call whose status is not looked at, and what follows it.
abbrev pub regardless : {A W : Type 0} → Outcome (Sys W) → (Sys W → Run A) → Run A
regardless (returned st s) k = k s
regardless fault k = out_of_bounds

-- A call whose status ends the program with 1, unless it is OK.
abbrev pub checked : {W : Type 0} → Outcome (Sys W) → (Sys W → Run ℕ) → Run ℕ
checked (returned st s) k = if st == status_ok then k s else done 1
checked fault k = out_of_bounds

abbrev pub is_connected : State → Bool
is_connected State.mqtt_connected = true
is_connected _ = false

pub subscribe_once : Main → (Main → Run ℕ) → Run ℕ
subscribe_once m k =
    if is_connected m.sys.client.state && not m.subscribed
    then regardless (subscribe demo_topic 0 m.sys)
        (λ s. k (record m { sys = s; subscribed = true }))
    else k m

pub publish_once : Main → (Main → Run ℕ) → Run ℕ
publish_once m k =
    if m.subscribed && not m.published
    then regardless (publish demo_topic demo_payload 0 m.sys)
        (λ s. k (record m { sys = s; published = true }))
    else k m

pub tick_broker : Main → (Main → Run ℕ) → Run ℕ
tick_broker m k =
    elim (broker_tick broker_transport (record { broker = m.broker; world = m.sys.world })) [
      | done d ↦ k (record m { sys = record m.sys { world = d.world }; broker = d.broker })
      | out_of_bounds ↦ out_of_bounds
      | out_of_fuel ↦ out_of_fuel
    ]

-- What follows the loop: the exit code of the program.
pub finish : Main → Run ℕ
finish m =
    regardless (disconnect m.sys)
      λ s. regardless (poll s) λ s. done (if s.world.received then 0 else 1)

-- The loop, with as many ticks as are left.
pub main_loop : ℕ → Main → Run ℕ
main_loop zero m = finish m
main_loop (suc ticks) m =
    let again = main_loop ticks in
    if m.sys.world.received
    then finish m
    else checked (poll m.sys)
        λ s. tick_broker (record m { sys = s }) λ m. subscribe_once m λ m. publish_once m again

-- main, with the memories of its arrays and the static variables of the broker.
pub main : List ℕ → List ℕ → List ℕ → List ℕ → Broker → Run ℕ
main chan_c2b chan_b2c tx_buf rx_buf broker =
    let wire = pair_init (channel_init chan_c2b 512) (channel_init chan_b2c 512) in
    let (_, w) =
      transport_connect broker_transport (record { wire = some wire; received = false }) in
    checked (init (some (config tx_buf rx_buf)) (record { client = zeroed; world = w })) λ s.
      checked (connect s) λ s.
        main_loop 20 (record { sys = s; broker = broker; subscribed = false; published = false })
