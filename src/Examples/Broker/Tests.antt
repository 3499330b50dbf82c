-- ===== src/Examples/Broker/Tests.antt =====
-- Theorems on the broker of examples/pubsub_demo.c at concrete inputs: a client that subscribes to "a", and
-- sends one message and the beginning of another.
use aemlib.Base.{
  ℕ, zero, suc, ◌≡◌, ◌≢◌, refl, List, [], ◌∷◌, ◌++◌, length, take, replicate, All, All-take,
  length-take, none, some, false, arith,
}
use aemlib.Base.Words.{IsByte}
use aemlib.Status.{status_ok}
use aemlib.Platform.Transport.{Transport, IsLawful}
use aemlib.Proto.Packet.{FixedHeader}
use aemlib.Proto.Header.{validate_mqtt_flags}
use aemlib.Proto.RemainingLength.Encode.{digits}
use aemlib.Proto.Encode.Finish.{packet}
use aemlib.Proto.Encode.Packets.{publish_body, subscribe_body}
use aemlib.Examples.Broker.{Demo, done, out_of_fuel, suback, process_packet, broker_tick}
use aemlib.Examples.Broker.Terminates.{broker_tick-ne-out_of_fuel}
use aemlib.Examples.Broker.Requests.{Serves, Knows, Valid}
use aemlib.Examples.Broker.Waits.{IsBeginning, Dialogue, waiting}
use aemlib.Examples.Broker.Refines.{broker_tick-serves}
use aemlib.Examples.Broker.Overrun.{process_packet-overrun}

abbrev topic : List ℕ
topic = 97 ∷ []

abbrev payload : List ℕ
payload = 120 ∷ []

abbrev subscription : List ℕ
subscription = 0x82 ∷ 6 ∷ 0 ∷ 9 ∷ 0 ∷ 1 ∷ 97 ∷ 0 ∷ []

abbrev message : List ℕ
message = 0x30 ∷ 4 ∷ 0 ∷ 1 ∷ 97 ∷ 120 ∷ []

abbrev begun : List ℕ
begun = 0x30 ∷ 4 ∷ 0 ∷ []

abbrev incoming : List ℕ
incoming = subscription ++ (message ++ begun)

incoming-IsByte : All IsByte incoming
incoming-IsByte = omega arith

-- The world is what was written.
abbrev transport : Transport (List ℕ)
transport = record {
  connect = some (λ w. (status_ok, w));
  disconnect = some (λ w. (status_ok, w));
  read = some (λ w len. record {
    status = status_ok;
    stored = take len incoming;
    out_len = length (take len incoming);
    world = w;
  });
  write =
      some (λ w bytes. record { status = status_ok; out_len = length bytes; world = w ++ bytes });
}

transport-IsLawful : IsLawful transport
transport-IsLawful = record {
  read_fits = λ w len. omega (arith, length-take {A = ℕ} len incoming);
  read_bytes = λ w len. All-take IsByte len incoming incoming-IsByte;
  read_counts = λ w len e. omega arith;
  write_counts = λ w bytes e. omega arith;
}

abbrev demo : List ℕ → Demo (List ℕ)
demo buf = record {
  broker = record {
    topic = replicate 128 0;
    topic_len = 0;
    subscribed = false;
    buf = buf;
    buf_len = 0;
  };
  world = [];
}

abbrev start : Demo (List ℕ)
start = demo (replicate 256 0)

start-Valid : Valid start.broker
start-Valid = record { topic_memory = refl; memory = refl; len_in = omega arith }

begun-IsBeginning : IsBeginning begun
unfolding packet digits validate_mqtt_flags
begun-IsBeginning = record {
  first = 0x30;
  body = publish_body topic payload;
  more = 1 ∷ 97 ∷ 120 ∷ [];
  valid = refl;
  small = omega arith;
  whole = refl;
  missing = omega arith;
}

dialogue : Dialogue incoming none (some topic) (suback 9 ∷ message ∷ []) begun
unfolding packet digits
dialogue =
    Dialogue.served 0x82 (subscribe_body 9 topic) (message ++ begun) none (some topic) (some topic)
      (suback 9 ∷ []) (message ∷ []) begun
      (Serves.subscribe 9 topic none (omega arith) (omega arith))
      (Dialogue.served 0x30 (publish_body topic payload) begun (some topic) (some topic)
        (some topic) (message ∷ []) [] begun
        (Serves.send_back 0x30 topic payload (omega arith) (omega arith) (omega arith)
          (omega arith))
        (Dialogue.unfinished begun (some topic) begun-IsBeginning))

broker_tick-serves_example :
    (s' : Demo (List ℕ)) × (broker_tick transport start ≡ done s')
    × Valid s'.broker
    × Knows s'.broker (some topic)
    × (waiting s'.broker ≡ begun)
    × (s'.world ≡ suback 9 ++ message)
broker_tick-serves_example =
    broker_tick-serves transport start none (some topic) (suback 9 ∷ message ∷ []) begun
      transport-IsLawful start-Valid refl refl dialogue

broker_tick-ne-out_of_fuel_example : broker_tick transport start ≢ out_of_fuel
broker_tick-ne-out_of_fuel_example = broker_tick-ne-out_of_fuel transport start

-- A SUBSCRIBE that announces 512 bytes, in a buffer without a NUL behind it.
abbrev hostile : Demo (List ℕ)
hostile = demo (0x82 ∷ 100 ∷ 0 ∷ 9 ∷ 2 ∷ 0 ∷ replicate 250 65)

abbrev hostile_header : FixedHeader
hostile_header = record { type = 8; flags = 2; remaining_length = 100; header_size = 2 }

no_nul : (n : ℕ) → All (λ b. b ≢ 0) (replicate n 65)
no_nul zero = tt
no_nul (suc n) = (omega arith, no_nul n)

process_packet-overrun_example : process_packet transport hostile_header 102 hostile ≡ none
process_packet-overrun_example =
    process_packet-overrun transport hostile_header 102 hostile 0 9 2 0 refl refl refl refl refl
      (omega arith) (omega arith) (no_nul 250)
