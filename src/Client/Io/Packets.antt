-- ===== src/Client/Io/Packets.antt =====
-- What an encoder and client_send of core/client.c do together to the stream of bytes to the broker.
use aemlib.Base.{
  ℕ, ◌≤◌, ◌<◌, ◌≡◌, refl, ap, sym, ◌∙◌, List, [], ◌++◌, append-nil, length, take, take-append,
  take_front, inl, inr, ◌==◌, lt→ltb, arith, if◌then◌else◌,
}
use aemlib.Status.{status_ok}
use aemlib.Status.Outcome.{Outcome, Ends, Ends-map}
use aemlib.Platform.Transport.{IsSink}
use aemlib.Proto.Cursor.{Cursor}
use aemlib.Proto.Cursor.Emits.{Refused}
use aemlib.Proto.Encode.Finish.{packet, Encoded}
use aemlib.Proto.Encode.Frame.{Packed}
use aemlib.Core.State.{Sys}
use aemlib.Core.Valid.{Good, Good-transmit}
use aemlib.Client.Io.{send_encoded, client_send, would_block}
use aemlib.Client.Io.Sending.{Packed-fits}
use aemlib.Client.Io.Stream.{pending, handed, client_send-conserves}

-- The stream after a call that sends `bytes` exactly when it returns OK.
abbrev pub Sends : {W : Type 0} → (W → List ℕ) → List ℕ → Sys W → Outcome (Sys W) → Type 0
Sends wire bytes s r =
    Ends (λ st s'. handed wire s' ≡ handed wire s ++ (if st == status_ok then bytes else [])) r

module _ {W : Type 0} (wire : W → List ℕ) where
  -- A packet that was encoded, and fits the buffer.
  pub sent-Sends :
      (sent : List ℕ) (r : Outcome Cursor) (s : Sys W)
      → Good s
      → IsSink s.client.transport wire
      → s.client.tx_pending_len ≡ 0
      → length sent ≤ s.client.tx_buffer_size
      → Encoded sent (length s.client.tx_buffer) r
      → Sends wire sent s (send_encoded r s)
  unfolding send_encoded
  sent-Sends sent r s g sink clear fits e =
      let s' : Sys W = record s { client = record s.client { tx_buffer = e.left.bytes } } in
      let cut : take e.left.out_len e.left.bytes ≡ sent =
        rw e.layout (take-append sent e.tail e.left.out_len e.counted) in
      let same : handed wire s' ≡ handed wire s = rw clear refl in
      rw e.encoded (
        Ends-map
          (λ st t.
            handed wire t
            ≡ handed wire s' ++ (if st == status_ok then take e.left.out_len e.left.bytes else []))
          (λ st t. handed wire t ≡ handed wire s ++ (if st == status_ok then sent else []))
          (client_send e.left.out_len s') (λ st t h. h ∙ rw (same, cut) refl)
          (client_send-conserves wire e.left.out_len s'
            (Good-transmit s e.left.bytes s.client.tx_pending_len s.world g e.same_size
              g.pending_in)
            sink (omega (arith, e.counted, fits))))

  -- An encoder that refuses.
  pub Refused-Sends :
      (sent : List ℕ) (size : ℕ) (r : Outcome Cursor) (s : Sys W)
      → s.client.tx_pending_len ≡ 0
      → Refused size 0 r
      → Sends wire sent s (send_encoded r s)
  unfolding send_encoded
  Refused-Sends sent size r s clear e = rw e.refused (rw clear (sym (append-nil _)))

  pub send_encoded-Sends :
      (first : ℕ) (body : List ℕ) (r : Outcome Cursor) (s : Sys W)
      → Good s
      → IsSink s.client.transport wire
      → s.client.tx_pending_len ≡ 0
      → Packed s.client.tx_buffer_size first body (length s.client.tx_buffer) 0 r
      → Sends wire (packet first body) s (send_encoded r s)
  send_encoded-Sends first body r s g sink clear (inl (room, small, e)) =
      sent-Sends (packet first body) r s g sink clear (omega (arith, Packed-fits first body)) e
  send_encoded-Sends first body r s g sink clear (inr (why, e)) =
      Refused-Sends (packet first body) (length s.client.tx_buffer) r s clear e

module _ {W : Type 0} where
  -- While bytes are pending, a packet is encoded over them: the send is refused, but what is pending is
  -- then the front of the new packet.
  pub send_encoded-overwrites :
      (sent : List ℕ) (r : Outcome Cursor) (s : Sys W)
      → 0 < s.client.tx_pending_len
      → s.client.tx_pending_len ≤ length sent
      → Encoded sent (length s.client.tx_buffer) r
      → Ends
          (λ st s'.
            (st ≡ would_block)
            × (s'.world ≡ s.world)
            × (pending s'.client ≡ take s.client.tx_pending_len sent))
          (send_encoded r s)
  unfolding send_encoded client_send
  send_encoded-overwrites sent r s busy h e =
      let n = s.client.tx_pending_len in
      let cut : take n e.left.bytes ≡ take n sent =
        ap (λ l. take n l) e.layout ∙ take_front n sent e.tail h in
      rw (e.encoded, lt→ltb 0 n busy) (refl, refl, cut)
