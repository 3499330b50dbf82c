-- ===== src/Client/Tests.antt =====
-- Theorems on core/core.c and core/client.c at concrete inputs: a client over a transport that takes at
-- most four bytes at a time, and whose peer sends a CONNACK and two PUBLISH packets, the last in pieces.
mod Io
mod Progress
mod Api
use aemlib.Base.{
  ℕ, zero, suc, ◌+◌, ◌≤◌, ◌<◌, ◌≡◌, ◌≢◌, refl, min, List, [], ◌∷◌, ◌++◌, length, take, drop, All,
  All-take, length-take, Option, none, some, arith, true, false, if◌then◌else◌, ◌==◌,
}
use aemlib.Base.Words.{IsByte}
use aemlib.Status.{status_ok}
use aemlib.Status.Outcome.{Outcome, returned, fault, Ends}
use aemlib.Platform.Transport.{Transport, Read, Written, IsLawful, IsSink}
use aemlib.Platform.Time.{Time}
use aemlib.Platform.Storage.{Storage}
use aemlib.Proto.Decode.{Message}
use aemlib.Core.State.{Client, Config, Sys, State}
use aemlib.Core.Valid.{Good}

-- The world: how often it was read from, what was written to it, and the messages delivered.
pub record World : Type 0 where
  pub turn : ℕ
  pub written : List ℕ
  pub delivered : List Message

abbrev pub connack : List ℕ
connack = 0x20 ∷ 2 ∷ 0 ∷ 0 ∷ []

-- PUBLISH of the topic "a" and the payload "x".
abbrev pub first_publish : List ℕ
first_publish = 0x30 ∷ 4 ∷ 0 ∷ 1 ∷ 97 ∷ 120 ∷ []

abbrev pub script : ℕ → List ℕ
script zero = connack
script (suc n) = first_publish ++ (0x30 ∷ 4 ∷ 0 ∷ [])

pub script-IsByte : (n : ℕ) → All IsByte (script n)
script-IsByte zero = omega arith
script-IsByte (suc n) = omega arith

abbrev pub wire : World → List ℕ
wire w = w.written

abbrev pub read_world : World → ℕ → Read World
read_world w len = record {
  status = status_ok;
  stored = take len (script w.turn);
  out_len = length (take len (script w.turn));
  world = record w { turn = suc w.turn };
}

abbrev pub write_world : World → List ℕ → Written World
write_world w bytes = record {
  status = status_ok;
  out_len = min 4 (length bytes);
  world = record w { written = w.written ++ take (min 4 (length bytes)) bytes };
}

abbrev pub transport : Transport World
transport = record {
  connect = some (λ w. (status_ok, w));
  disconnect = some (λ w. (status_ok, w));
  read = some read_world;
  write = some write_world;
}

pub transport-IsLawful : IsLawful transport
transport-IsLawful = record {
  read_fits = λ w len. omega (arith, length-take len (script w.turn));
  read_bytes = λ w len. All-take IsByte len (script w.turn) (script-IsByte w.turn);
  read_counts = λ w len e. omega arith;
  write_counts = λ w bytes e. omega arith;
}

pub transport-IsSink : IsSink transport wire
transport-IsSink = record {
  accepted = λ w bytes e. refl;
  refused = λ w bytes bad. absurd (bad refl);
}

abbrev pub clock : Time World
clock = record { now_ms = some (λ w. (1000, w)) }

abbrev pub buffer : List ℕ
buffer = 0 ∷ 0 ∷ 0 ∷ 0 ∷ 0 ∷ 0 ∷ 0 ∷ 0 ∷ 0 ∷ 0 ∷ 0 ∷ 0 ∷ 0 ∷ 0 ∷ 0 ∷ 0 ∷ 0 ∷ 0 ∷ 0 ∷ 0 ∷ []

abbrev pub client : State → ℕ → Client World
client state pending = record {
  state = state;
  transport = transport;
  time = clock;
  storage = record { write_record = none; read_record = none; delete_record = none };
  tx_buffer = buffer;
  tx_buffer_size = 20;
  rx_buffer = buffer;
  rx_buffer_size = 20;
  last_activity_ms = 500;
  keepalive_interval_ms = 30000;
  packet_id = 1;
  connect_sent = true;
  tx_pending_len = pending;
  rx_len = 0;
  on_message = some (λ w m. record w { delivered = w.delivered ++ m ∷ [] });
}

abbrev pub sys : State → ℕ → ℕ → Sys World
sys state pending turn = record {
  client = client state pending;
  world = record { turn = turn; written = []; delivered = [] };
}

pub sys-Good : (state : State) (pending turn : ℕ) → pending ≤ 20 → Good (sys state pending turn)
sys-Good state pending turn h = record {
  tx_memory = omega arith;
  rx_memory = omega arith;
  tx_small = omega arith;
  rx_small = omega arith;
  pending_in = h;
  received_in = omega arith;
  rx_bytes = omega arith;
  id_positive = omega arith;
  id_small = omega arith;
  law = transport-IsLawful;
}
