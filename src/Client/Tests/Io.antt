-- ===== src/Client/Tests/Io.antt =====
-- Theorems on the I/O of core/client.c and on the polls of core/core.c at concrete inputs.
use aemlib.Base.{
  ℕ, ◌≡◌, ◌+◌, ◌≢◌, ◌-◌, ◌%◌, refl, List, [], ◌∷◌, ◌++◌, take, arith, ◌==◌, if◌then◌else◌,
}
use aemlib.Status.{status_ok}
use aemlib.Status.Outcome.{returned, Ends}
use aemlib.Proto.Decode.{Message}
use aemlib.Proto.Encode.Finish.{packet}
use aemlib.Proto.Encode.Packets.{publish_body}
use aemlib.Proto.RemainingLength.Encode.{digits}
use aemlib.Core.State.{Sys, State}
use aemlib.Core.Machine.{core_poll}
use aemlib.Core.Machine.Ids.{after_calls, packet_id-distinct, packet_id-after_calls}
use aemlib.Core.Machine.Inbox.{received}
use aemlib.Core.Machine.Handshake.{core_poll-Decides}
use aemlib.Core.Machine.Steps.{PollStep, core_poll-steps}
use aemlib.Client.Io.{process_packets, client_read, client_send, client_flush_pending}
use aemlib.Client.Io.Stream.{handed, client_send-conserves, client_flush_pending-conserves}
use aemlib.Client.Io.Receive.{IsFrame, IsPartial, Received}
use aemlib.Client.Io.Receive.Rejects.{process_packets-unsupported}
use aemlib.Proto.Decode.{unsupported}
use aemlib.Core.Valid.{Good}
use aemlib.Client.Io.Receive.Loop.{client_read-delivers}
use aemlib.Client.Tests.{
  transport-IsLawful, World, sys, sys-Good, wire, transport-IsSink, first_publish,
}

abbrev message : Message
message = record { topic = 97 ∷ []; payload = 120 ∷ [] }

abbrev begun : List ℕ
begun = 0x30 ∷ 4 ∷ 0 ∷ []

abbrev connected : Sys World
connected = sys State.mqtt_connected 0 1

publish-IsFrame : IsFrame 0x30 (publish_body (97 ∷ []) (120 ∷ [])) (message ∷ [])
publish-IsFrame =
    IsFrame.publish_frame 0x30 (97 ∷ []) (120 ∷ []) (omega arith) (omega arith) (omega arith)
      (omega arith)

begun-IsPartial : IsPartial 20 begun
unfolding packet digits
begun-IsPartial = record {
  first = 0x30;
  body = publish_body (97 ∷ []) (120 ∷ []);
  messages = message ∷ [];
  more = 1 ∷ 97 ∷ 120 ∷ [];
  frame = publish-IsFrame;
  whole = refl;
  missing = omega arith;
  fits = omega arith;
}

one_and_begun : Received 20 (first_publish ++ begun) (message ∷ []) begun
unfolding packet digits
one_and_begun =
    Received.framed 0x30 (publish_body (97 ∷ []) (120 ∷ [])) (message ∷ []) begun [] begun
      publish-IsFrame (Received.partial begun begun-IsPartial)

client_read-delivers_example :
    (s' : Sys World) × (client_read connected ≡ returned status_ok s')
    × (received s'.client ≡ begun)
    × (s'.world ≡ record { turn = 2; written = []; delivered = message ∷ [] })
client_read-delivers_example =
    client_read-delivers connected (message ∷ []) begun
      (sys-Good State.mqtt_connected 0 1 (omega arith)) refl one_and_begun

core_poll-Decides_example :
    (s' : Sys World) × (core_poll (sys State.mqtt_connect_sent 0 0) ≡ returned status_ok s')
    × (s'.client.state ≡ State.mqtt_connected)
    × (received s'.client ≡ [])
core_poll-Decides_example =
    core_poll-Decides (sys State.mqtt_connect_sent 0 0) 0 0 []
      (sys-Good State.mqtt_connect_sent 0 0 (omega arith)) refl refl refl

core_poll-steps_example :
    Ends
      (λ st s'. PollStep State.connecting st s'.client.state)
      (core_poll (sys State.connecting 0 0))
core_poll-steps_example =
    core_poll-steps (sys State.connecting 0 0) (sys-Good State.connecting 0 0 (omega arith))

client_send-conserves_example :
    Ends
      (λ st s'.
        handed wire s' ≡ [] ++ (if st == status_ok then take 7 connected.client.tx_buffer else []))
      (client_send 7 connected)
client_send-conserves_example =
    client_send-conserves wire 7 connected (sys-Good State.mqtt_connected 0 1 (omega arith))
      transport-IsSink (omega arith)

client_flush_pending-conserves_example :
    Ends
      (λ st s'. handed wire s' ≡ take 9 connected.client.tx_buffer)
      (client_flush_pending (sys State.mqtt_connected 9 1))
client_flush_pending-conserves_example =
    client_flush_pending-conserves wire (sys State.mqtt_connected 9 1)
      (sys-Good State.mqtt_connected 9 1 (omega arith)) transport-IsSink

packet_id-distinct_example :
    (after_calls 70007 connected.client).packet_id ≢ (after_calls 70000 connected.client).packet_id
packet_id-distinct_example =
    packet_id-distinct 70000 7 connected.client (omega arith) (omega arith) (omega arith)
      (omega arith)

packet_id-after_calls_example :
    (after_calls 65535 connected.client).packet_id ≡ (1 - 1 + 65535) % 65535 + 1
packet_id-after_calls_example =
    packet_id-after_calls 65535 connected.client (omega arith) (omega arith)

-- A PUBLISH of QoS 1 has been received.
abbrev above_qos_0 : Sys World
above_qos_0 = record connected {
  client = record connected.client {
    rx_buffer = 0x32 ∷ 2 ∷ 0 ∷ 0 ∷ 0 ∷ 0 ∷ [];
    rx_buffer_size = 6;
    rx_len = 4;
  };
}

above_qos_0-Good : Good above_qos_0
above_qos_0-Good = record {
  tx_memory = omega arith;
  rx_memory = omega arith;
  tx_small = omega arith;
  rx_small = omega arith;
  pending_in = omega arith;
  received_in = omega arith;
  rx_bytes = omega arith;
  id_positive = omega arith;
  id_small = omega arith;
  law = transport-IsLawful;
}

above_qos_0-received : received above_qos_0.client ≡ packet 0x32 (0 ∷ 0 ∷ []) ++ []
unfolding packet digits
above_qos_0-received = refl

process_packets-unsupported_example :
    process_packets 5 above_qos_0 ≡ returned unsupported above_qos_0
process_packets-unsupported_example =
    process_packets-unsupported 0x32 (0 ∷ 0 ∷ []) [] 4 above_qos_0 above_qos_0-Good (omega arith)
      (omega arith) (omega arith) (omega arith) above_qos_0-received
