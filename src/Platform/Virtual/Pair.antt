-- ===== src/Platform/Virtual/Pair.antt =====
-- platform/virtual_transport.c: a write by one endpoint of a pair, and a read by the other.
use aemlib.Base.{
  ℕ, ◌-◌, ◌^◌, ◌<◌, ◌≡◌, refl, ap, sym, subst, ◌∙◌, List, ◌++◌, length, take, drop, min, true,
  if◌then◌else◌, ltb, ◌==◌, ◌&&◌,
}
use aemlib.Status.{status_ok}
use aemlib.Status.Outcome.{returned}
use aemlib.Platform.Virtual.{
  Channel, Side, Wire, tx, rx, connected, with_tx, with_rx, channel_full, channel_read,
  channel_write, vt_read, vt_write,
}
use aemlib.Platform.Virtual.Fifo.{Holds, channel_read_lem, channel_write_lem}

abbrev pub peer : Side → Side
peer Side.side_a = Side.side_b
peer Side.side_b = Side.side_a

vt_write-step :
    (side : Side) (p : Wire) (bytes : List ℕ) (st n : ℕ) (ch : Channel)
    → connected side p ≡ true
    → channel_write (tx side p) bytes ≡ returned st (ch, n)
    → vt_write side p bytes ≡ returned st (with_tx side ch p, n)
unfolding vt_write
vt_write-step side p bytes st n ch open_ e = rw (open_, e) refl

vt_read-step :
    (side : Side) (p : Wire) (len st : ℕ) (ch : Channel) (bytes : List ℕ)
    → connected side p ≡ true
    → channel_read (rx side p) len ≡ returned st (ch, bytes)
    → vt_read side p len ≡ returned st (with_rx side ch p, bytes)
unfolding vt_read
vt_read-step side p len st ch bytes open_ e = rw (open_, e) refl

rx-with_tx : (side : Side) (ch : Channel) (p : Wire) → rx (peer side) (with_tx side ch p) ≡ ch
rx-with_tx Side.side_a ch p = refl
rx-with_tx Side.side_b ch p = refl

tx-with_rx : (side : Side) (ch : Channel) (p : Wire) → tx side (with_rx (peer side) ch p) ≡ ch
tx-with_rx Side.side_a ch p = refl
tx-with_rx Side.side_b ch p = refl

connected-with_tx :
    (side other : Side) (ch : Channel) (p : Wire)
    → connected other (with_tx side ch p) ≡ connected other p
connected-with_tx Side.side_a Side.side_a ch p = refl
connected-with_tx Side.side_a Side.side_b ch p = refl
connected-with_tx Side.side_b Side.side_a ch p = refl
connected-with_tx Side.side_b Side.side_b ch p = refl

-- Between connected endpoints, with a queue in the channel from one to the other, a write of fewer
-- than 2 ^ 62 bytes and then a read by the peer give the peer the oldest bytes of the queue and
-- what was written, in order, and the rest stays in the channel.
pub vt_write-vt_read :
    (side : Side) (p : Wire) (bytes queue : List ℕ) (len : ℕ)
    → connected side p ≡ true
    → connected (peer side) p ≡ true
    → Holds (tx side p) queue
    → length bytes < 2 ^ 62
    → (p1 : Wire) × (n : ℕ) × (p2 : Wire) × (vt_write side p bytes
        ≡ returned (if (n == 0) && ltb 0 (length bytes) then channel_full else status_ok) (p1, n))
      × (n ≡ min (length bytes) ((tx side p).buf_size - length queue))
      × (vt_read (peer side) p1 len ≡ returned status_ok (p2, take len (queue ++ take n bytes)))
      × Holds (tx side p2) (drop len (queue ++ take n bytes))
vt_write-vt_read side p bytes queue len here there h few =
    let (ch, n, e, count, h1) = channel_write_lem (tx side p) bytes queue h few in
    let (ch', e', h2) = channel_read_lem ch len (queue ++ take n bytes) h1 in
    let p1 : Wire = with_tx side ch p in
    (
      p1,
      n,
      with_rx (peer side) ch' p1,
      vt_write-step side p bytes _ n ch here e,
      count,
      vt_read-step (peer side) p1 len status_ok ch' (take len (queue ++ take n bytes))
          (connected-with_tx side (peer side) ch p ∙ there)
          (ap (λ c. channel_read c len) (rx-with_tx side ch p) ∙ e'),
      subst (λ c. Holds c (drop len (queue ++ take n bytes))) (sym (tx-with_rx side ch' p1)) h2,
    )
