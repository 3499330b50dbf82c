-- ===== src/Client/Tests/Progress.antt =====
-- Theorems on the progress that core/core.c and core/client.c make, at concrete inputs: a transport that takes
-- four bytes at a time, and a peer that sends nothing.
use aemlib.Base.{ℕ, suc, ◌%◌, ◌≡◌, refl, [], ◌++◌, some, inl, true, false, arith}
use aemlib.Base.Words.{size_mod}
use aemlib.Status.{status_ok}
use aemlib.Status.Outcome.{returned}
use aemlib.Platform.Transport.{Transport}
use aemlib.Platform.Time.{Time}
use aemlib.Core.State.{Sys, State}
use aemlib.Core.Machine.{timed_out}
use aemlib.Core.Machine.Timeout.{IsSilent, core_polls, core_polls-times_out}
use aemlib.Client.Io.{would_block}
use aemlib.Client.Io.Stream.{pending}
use aemlib.Client.Io.Drain.{IsPatient, flushes, flushes-drains}
use aemlib.Client.Io.Control.{pingreq}
use aemlib.Client.Api.{keep_alive, poll}
use aemlib.Client.Api.Polls.{Noted, keep_alive-Sends}
use aemlib.Client.Api.Opens.{poll-opens}
use aemlib.Core.Valid.{Good}
use aemlib.Proto.Encode.Finish.{packet}
use aemlib.Proto.Encode.Packets.Short.{connect_content}
use aemlib.Client.Tests.{World, sys, client, sys-Good, transport, transport-IsSink, wire}

transport-IsPatient : IsPatient transport (λ w. 0) 0
transport-IsPatient = record {
  bounded = λ w. omega arith;
  fine = λ w bytes. refl;
  moves = λ w bytes any. inl (refl, omega arith);
}

flushes-drains_example :
    (s' : Sys World) × (flushes 7 (sys State.mqtt_connected 7 1) ≡ returned status_ok s')
    × (s'.client.tx_pending_len ≡ 0)
    × (wire s'.world ≡ [] ++ pending (client State.mqtt_connected 7))
flushes-drains_example =
    flushes-drains wire (λ w. 0) 0 7 (sys State.mqtt_connected 7 1)
      (sys-Good State.mqtt_connected 7 1 (omega arith)) transport-IsSink transport-IsPatient
      (omega arith)

-- A question for the time takes a millisecond, and the broker is silent.
abbrev clock : World → ℕ
clock w = w.turn

abbrev silent : Transport World
silent = record transport {
  read = some (λ w len. record { status = would_block; stored = []; out_len = 0; world = w });
}

abbrev ticking : Time World
ticking = record { now_ms = some (λ w. (w.turn % size_mod, record w { turn = suc w.turn })) }

silent-IsSilent : IsSilent silent ticking clock
silent-IsSilent = record {
  nothing = λ w len. refl;
  counts = λ w len. refl;
  fine = λ w len. refl;
  read_later = λ w len. (omega arith, omega arith);
  tells = λ w. refl;
  ticks = λ w. (omega arith, omega arith);
}

abbrev waiting : Sys World
waiting = record {
  client = record (client State.mqtt_connect_sent 0) {
    transport = silent;
    time = ticking;
    last_activity_ms = 0;
  };
  world = record { turn = 0; written = []; delivered = [] };
}

core_polls-times_out_example :
    (s' : Sys World) × (core_polls 5001 waiting ≡ returned timed_out s')
    × (s'.client.state ≡ State.disconnected)
core_polls-times_out_example =
    core_polls-times_out silent ticking clock 0 5000 waiting silent-IsSilent
      (refl, refl, refl, refl, refl) (omega arith) (omega arith) (omega arith)

-- A client that has sent nothing for 500 ms, with a keepalive of 400 ms.
abbrev idle : Sys World
idle = record {
  client = record (client State.mqtt_connected 0) { keepalive_interval_ms = 400 };
  world = record { turn = 0; written = []; delivered = [] };
}

idle-Good : Good idle
idle-Good = let g = sys-Good State.mqtt_connected 0 0 (omega arith) in assumption

keep_alive-Sends_example :
    Noted wire pingreq (λ s'. s'.client.last_activity_ms ≡ 1000) idle (keep_alive idle)
keep_alive-Sends_example = keep_alive-Sends wire idle idle-Good transport-IsSink refl (λ w. refl)

-- A client whose transport connects.
abbrev opening : Sys World
opening = record {
  client = record (client State.connecting 0) { connect_sent = false };
  world = record { turn = 0; written = []; delivered = [] };
}

opening-Good : Good opening
opening-Good = let g = sys-Good State.connecting 0 0 (omega arith) in assumption

poll-opens_example :
    Noted wire
      (packet 0x10 (connect_content [] 30))
      (λ s'. s'.client.connect_sent ≡ true)
      opening
      (poll opening)
poll-opens_example =
    poll-opens wire opening opening-Good transport-IsSink refl refl refl refl refl (λ w. refl)
