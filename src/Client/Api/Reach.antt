-- ===== src/Client/Api/Reach.antt =====
-- The clients that a program can reach through the public API of core/client.c.
use aemlib.Base.{ℕ, ◌+◌, ◌^◌, ◌<◌, ◌≡◌, refl, List, length, some}
use aemlib.Status.{status_ok}
use aemlib.Status.Outcome.{Outcome, returned, Ends-returned, Ends-cases}
use aemlib.Core.State.{Config, Sys}
use aemlib.Core.Valid.{Good, Safe, Good-world}
use aemlib.Core.Config.{core_init-Good, Provided}
use aemlib.Client.Api.{init, connect, disconnect, publish, subscribe, poll, zeroed}
use aemlib.Client.Api.Safety.{
  connect-Safe, disconnect-Safe, publish-Safe, subscribe-Safe, poll-Safe,
}

-- A call of the API on a client.
pub data Call : Type 0 where
  connect_call disconnect_call poll_call : Call
  publish_call : (topic payload : List ℕ) (qos : ℕ) → Call
  subscribe_call : (topic : List ℕ) (qos : ℕ) → Call

-- The strings given are smaller than 4 GiB, so that their length fits the uint32_t of an encoder.
abbrev pub Permitted : Call → Type 0
Permitted (Call.publish_call topic payload qos) = 2 + length topic + length payload < 2 ^ 32
Permitted (Call.subscribe_call topic qos) = 5 + length topic < 2 ^ 32
Permitted c = Unit

module _ {W : Type 0} where
  abbrev pub perform : Call → Sys W → Outcome (Sys W)
  perform Call.connect_call = connect
  perform Call.disconnect_call = disconnect
  perform Call.poll_call = poll
  perform (Call.publish_call topic payload qos) = publish topic payload qos
  perform (Call.subscribe_call topic qos) = subscribe topic qos

  -- A successful init, and any calls after it, whatever they return; between them, the world moves on
  -- as it likes.
  pub data Reachable : Sys W → Type 0 where
    initialised :
        (cfg : Config W) (s s' : Sys W)
        → Provided cfg
        → init (some cfg) s ≡ returned status_ok s'
        → Reachable s'
    called :
        (c : Call) (st : ℕ) (s s' : Sys W)
        → Reachable s
        → Permitted c
        → perform c s ≡ returned st s'
        → Reachable s'
    meanwhile : (s : Sys W) (w : W) → Reachable s → Reachable (record s { world = w })

  pub perform-Safe : (c : Call) (s : Sys W) → Good s → Permitted c → Safe (perform c s)
  perform-Safe Call.connect_call s g p = connect-Safe s g
  perform-Safe Call.disconnect_call s g p = disconnect-Safe s g
  perform-Safe Call.poll_call s g p = poll-Safe s g
  perform-Safe (Call.publish_call topic payload qos) s g p = publish-Safe topic payload qos s g p
  perform-Safe (Call.subscribe_call topic qos) s g p = subscribe-Safe topic qos s g p

  -- Every client that the API can reach satisfies the invariant.
  pub Reachable-Good : (s : Sys W) → Reachable s → Good s
  unfolding init
  Reachable-Good s'' (Reachable.initialised cfg s s' p e) =
      Ends-returned (λ st s. st ≡ status_ok → Good s) _ status_ok s'
        (core_init-Good cfg (record s { client = zeroed }) refl refl p) e refl
  Reachable-Good s'' (Reachable.called c st s s' r p e) =
      Ends-returned (λ st s. Good s) (perform c s) st s' (perform-Safe c s (Reachable-Good s r) p) e
  Reachable-Good t (Reachable.meanwhile s w r) = Good-world s w (Reachable-Good s r)

  -- From any client that a successful aemlib_init and any calls of the API can reach, whatever
  -- those calls returned and whatever the world does between them, a further call returns: it makes
  -- no access outside its buffers, the loop over received packets ends within its fuel, and the
  -- invariant holds after it. It is assumed that the configuration's buffers have the sizes given,
  -- that the transport keeps its contract, and that a topic and a payload together are smaller than
  -- 4 GiB.
  pub call_returns :
      (c : Call) (s : Sys W)
      → Reachable s
      → Permitted c
      → (st : ℕ) × (s' : Sys W) × (perform c s ≡ returned st s') × Good s'
  call_returns c s r p =
      Ends-cases (λ st s. Good s) (perform c s) (perform-Safe c s (Reachable-Good s r) p)
