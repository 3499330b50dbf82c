-- ===== src/Client/Io/Receive/Loop.antt =====
-- The loop of client_read, in core/client.c, on bytes that are packets which the library accepts.
use aemlib.Base.{ℕ, zero, suc, ◌<◌, ◌≡◌, refl, ap, sym, subst, ◌∙◌, List, ◌++◌, take, arith}
use aemlib.Status.{status_ok}
use aemlib.Status.Outcome.{returned}
use aemlib.Proto.Decode.{Message}
use aemlib.Core.State.{Client, Sys}
use aemlib.Core.Valid.{Good}
use aemlib.Core.Machine.Inbox.{read_of, receive-appends, SameButReceived, received}
use aemlib.Client.Io.{process_packets, client_read}
use aemlib.Client.Io.Receive.{IsPartial, Received, deliver_all, deliver_all-append}
use aemlib.Client.Io.Receive.Rounds.{round}
use aemlib.Client.Io.Receive.Waits.{wait}

module _ {W : Type 0} where
  -- On received bytes that are packets as `Received` has them, and then the beginning of one, the loop
  -- returns OK after it gave each message to the callback, once and in order; what is left in
  -- the buffer is the beginning of the last packet.
  pub process_packets-delivers :
      (fuel : ℕ) (s : Sys W) (bytes : List ℕ) (ms : List Message) (rest : List ℕ)
      → Good s
      → received s.client ≡ bytes
      → Received s.client.rx_buffer_size bytes ms rest
      → s.client.rx_len < fuel
      → (s' : Sys W) × (process_packets fuel s ≡ returned status_ok s')
        × (received s'.client ≡ rest)
        × (s'.world ≡ deliver_all s.client.on_message ms s.world)
        × SameButReceived s s'
  process_packets-delivers zero s bytes ms rest g here r h = absurd (omega arith)
  process_packets-delivers (suc fuel) s bytes ms rest g here (Received.partial _ p) h =
      (s, wait s fuel g (subst (IsPartial s.client.rx_buffer_size) (sym here) p), here, refl, refl)
  process_packets-delivers (suc fuel) s bytes ms rest g here
        (Received.framed first body now bytes' later _ frame r) h =
      let (s1, e, good, left, less, world, same) =
        round first body now bytes' s fuel g frame here in
      let size : s1.client.rx_buffer_size ≡ s.client.rx_buffer_size =
        ap (λ c. c.rx_buffer_size) same in
      let (s2, e', left', world', same') =
        process_packets-delivers fuel s1 bytes' later rest good left
          (subst (λ n. Received n bytes' later rest) (sym size) r) (omega arith) in
      (
        s2,
        e ∙ e',
        left',
        world'
            ∙ ap (λ c. deliver_all c.on_message later s1.world) same
            ∙ ap (deliver_all s.client.on_message later) world
            ∙ sym (deliver_all-append s.client.on_message now later s.world),
        same'
            ∙ ap {A = Client W} {B = Client W}
                (λ c. record c { rx_buffer = s2.client.rx_buffer; rx_len = s2.client.rx_len }) same,
      )

  -- On a client in the invariant, when a read is OK and after it the buffer holds complete packets
  -- and then the beginning of one that fits it, client_read returns OK after it gave each message
  -- to the callback, once and in order, and the beginning of the last packet waits for the next
  -- read. The packets are those that the library accepts: a PUBLISH of QoS 0 with a topic shorter
  -- than 2 ^ 16 bytes, which has one message, and any packet of another type whose type and flags
  -- validate_mqtt_flags allows, which has none; a body is shorter than 128 ^ 4 bytes.
  pub client_read-delivers :
      (s : Sys W) (ms : List Message) (rest : List ℕ)
      → Good s
      → (read_of s).status ≡ status_ok
      → Received s.client.rx_buffer_size
          (received s.client ++ take (read_of s).out_len (read_of s).stored)
          ms
          rest
      → (s' : Sys W) × (client_read s ≡ returned status_ok s')
        × (received s'.client ≡ rest)
        × (s'.world ≡ deliver_all s.client.on_message ms (read_of s).world)
  unfolding client_read
  client_read-delivers s ms rest g fine r =
      let (s1, e, good, here, world, same) =
        receive-appends returned (λ s. process_packets (suc s.client.rx_len) s) s g fine in
      let size : s1.client.rx_buffer_size ≡ s.client.rx_buffer_size =
        ap (λ c. c.rx_buffer_size) same in
      let (s2, e', left, world', _) =
        process_packets-delivers (suc s1.client.rx_len) s1 _ ms rest good here
          (subst
            (λ n.
              Received n (received s.client ++ take (read_of s).out_len (read_of s).stored) ms rest)
            (sym size) r)
          (omega arith) in
      (
        s2,
        e ∙ e',
        left,
        world'
            ∙ ap (λ c. deliver_all c.on_message ms s1.world) same
            ∙ ap (deliver_all s.client.on_message ms) world,
      )
