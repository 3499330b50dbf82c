-- ===== src/Client/Tests/Api.antt =====
-- Theorems on the public API of core/client.c at concrete inputs.
use aemlib.Base.{ℕ, ◌≡◌, refl, [], ◌∷◌, ◌++◌, take, arith, ◌==◌, if◌then◌else◌, some, none}
use aemlib.Status.{status_ok}
use aemlib.Status.Outcome.{returned, Ends}
use aemlib.Platform.Transport.{transport_validate}
use aemlib.Platform.Time.{time_validate}
use aemlib.Proto.Encode.Finish.{packet}
use aemlib.Proto.Encode.Packets.{publish_body}
use aemlib.Proto.Encode.Packets.Short.{publish_content, subscribe_content}
use aemlib.Proto.RemainingLength.Encode.{digits}
use aemlib.Core.State.{Config, Sys, State}
use aemlib.Core.Valid.{Good}
use aemlib.Core.Config.{Provided, core_init, init_with, validate_config, apply_config}
use aemlib.Core.Machine.{next_packet_id}
use aemlib.Client.Io.{would_block}
use aemlib.Client.Io.Stream.{handed, pending}
use aemlib.Client.Api.{init, zeroed, publish, subscribe}
use aemlib.Client.Api.Reach.{Call, perform, Reachable, call_returns}
use aemlib.Client.Api.Moves.{Move, perform-Move}
use aemlib.Client.Api.Stream.{publish-Sends, subscribe-Sends, publish-overwrites}
use aemlib.Client.Tests.{
  World, transport, transport-IsLawful, transport-IsSink, clock, buffer, sys, sys-Good, wire,
}

abbrev config : Config World
config = record {
  tx_buffer = some buffer;
  tx_buffer_size = 20;
  rx_buffer = some buffer;
  rx_buffer_size = 20;
  transport = transport;
  time = clock;
  storage = record { write_record = none; read_record = none; delete_record = none };
  keepalive_interval_ms = 30000;
  on_message = none;
}

config-Provided : Provided config
config-Provided = record {
  tx_room = omega arith;
  rx_room = omega arith;
  tx_small = omega arith;
  rx_small = omega arith;
  rx_bytes = omega arith;
  law = transport-IsLawful;
}

abbrev blank : Sys World
blank = record { client = zeroed; world = record { turn = 0; written = []; delivered = [] } }

abbrev ready : Sys World
ready = record {
  client = record (apply_config zeroed config) { packet_id = 1; last_activity_ms = 1000 };
  world = blank.world;
}

ready-Reachable : Reachable ready
unfolding init core_init init_with validate_config apply_config transport_validate time_validate
ready-Reachable = Reachable.initialised config blank ready config-Provided refl

call_returns_example :
    (st : ℕ) × (s' : Sys World) × (perform Call.poll_call ready ≡ returned st s') × Good s'
call_returns_example = call_returns Call.poll_call ready ready-Reachable tt

perform-Move_example :
    Ends
      (λ st s'. Move Call.connect_call State.disconnected s'.client.state)
      (perform Call.connect_call (sys State.disconnected 0 0))
perform-Move_example =
    perform-Move Call.connect_call (sys State.disconnected 0 0)
      (sys-Good State.disconnected 0 0 (omega arith)) tt

publish-Sends_example :
    Ends
      (λ st s'.
        handed wire s'
        ≡ []
          ++ (if st == status_ok then packet 0x30 (publish_content (97 ∷ []) (120 ∷ [])) else []))
      (publish (97 ∷ []) (120 ∷ []) 0 (sys State.mqtt_connected 0 1))
publish-Sends_example =
    publish-Sends wire (97 ∷ []) (120 ∷ []) 0 (sys State.mqtt_connected 0 1)
      (sys-Good State.mqtt_connected 0 1 (omega arith)) transport-IsSink refl (omega arith)
      (omega arith)

subscribe-Sends_example :
    Ends
      (λ st s'.
        handed wire s'
        ≡ []
          ++ (if st == status_ok
              then packet 0x82 (
                  subscribe_content
                    (next_packet_id (sys State.mqtt_connected 0 1).client).packet_id
                    (97 ∷ []))
              else []))
      (subscribe (97 ∷ []) 0 (sys State.mqtt_connected 0 1))
subscribe-Sends_example =
    subscribe-Sends wire (97 ∷ []) 0 (sys State.mqtt_connected 0 1)
      (sys-Good State.mqtt_connected 0 1 (omega arith)) transport-IsSink refl (omega arith)

publish-overwrites_example :
    Ends
      (λ st s'.
        (st ≡ would_block)
        × (s'.world ≡ (sys State.mqtt_connected 3 1).world)
        × (pending s'.client ≡ take 3 (packet 0x30 (publish_body (97 ∷ []) (120 ∷ [])))))
      (publish (97 ∷ []) (120 ∷ []) 0 (sys State.mqtt_connected 3 1))
unfolding packet digits
publish-overwrites_example =
    publish-overwrites (97 ∷ []) (120 ∷ []) (sys State.mqtt_connected 3 1)
      (sys-Good State.mqtt_connected 3 1 (omega arith)) (omega arith) (omega arith) (omega arith)
      (omega arith)
