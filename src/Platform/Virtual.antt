-- ===== src/Platform/Virtual.antt =====
-- platform/virtual_transport.h and platform/virtual_transport.c: two endpoints over a pair of ring
-- buffers, one for each direction.
pub mod Window
pub mod Fifo
pub mod Pair
pub mod Bind
use aemlib.Base.{
  ℕ, zero, suc, ◌%◌, List, [], ◌∷◌, length, take, get_elem?, Option, none, some, Bool, true, false,
  ◌&&◌, not, ◌==◌, ltb, if◌then◌else◌,
}
use aemlib.Base.Words.{add_size, sub_size}
use aemlib.Base.Memory.{store}
use aemlib.Status.{status, status_ok, Layer, Code}
use aemlib.Status.Outcome.{Outcome, returned, fault, accessing}
use aemlib.Platform.Transport.{Transport, Read, Written}

pub record Channel : Type 0 where
  pub buf : List ℕ
  pub buf_size : ℕ
  pub head : ℕ
  pub len : ℕ

-- aemlib_virtual_channel_init
unfoldable pub channel_init : List ℕ → ℕ → Channel
channel_init buf buf_size = record { buf = buf; buf_size = buf_size; head = 0; len = 0 }

abbrev pub channel_full : ℕ
channel_full = status Layer.io Code.would_block

-- The loop of channel_write from `i` on: the list is what is left of the bytes to write.
unfoldable pub write_loop : ℕ → ℕ → ℕ → List ℕ → List ℕ → Option (List ℕ)
write_loop i tail size [] buf = some buf
write_loop i tail size (byte ∷ bytes) buf = elim (store buf (add_size tail i % size) byte) [
  | none ↦ none
  | some buf ↦ write_loop (suc i) tail size bytes buf
]

-- The loop of channel_read from `i` on, for `n` bytes more.
unfoldable pub read_loop : ℕ → ℕ → ℕ → ℕ → List ℕ → Option (List ℕ)
read_loop zero i head size buf = some []
read_loop (suc n) i head size buf = elim (get_elem? buf (add_size head i % size)) [
  | none ↦ none
  | some byte ↦ elim (read_loop n (suc i) head size buf) [
    | none ↦ none
    | some bytes ↦ some (byte ∷ bytes)
  ]
]

-- How many of `len` bytes there is room for, and how many there are to read.
abbrev pub write_count : Channel → ℕ → ℕ
write_count ch len = let space = sub_size ch.buf_size ch.len in if ltb len space then len else space

abbrev pub read_count : Channel → ℕ → ℕ
read_count ch len = if ltb len ch.len then len else ch.len

-- channel_write: the channel and `*out_len` after it. A channel without memory divides by zero.
unfoldable pub channel_write : Channel → List ℕ → Outcome (Channel × ℕ)
channel_write ch bytes =
    let n = write_count ch (length bytes) in
    let tail = add_size ch.head ch.len % ch.buf_size in
    if ch.buf_size == 0
    then fault
    else accessing (write_loop 0 tail ch.buf_size (take n bytes) ch.buf) (λ buf.
      returned (if (n == 0) && ltb 0 (length bytes) then channel_full else status_ok)
        (record ch { buf = buf; len = add_size ch.len n }, n))

-- channel_read: the channel after it, and the bytes that it stored, whose number is `*out_len`.
unfoldable pub channel_read : Channel → ℕ → Outcome (Channel × List ℕ)
channel_read ch len =
    let n = read_count ch len in
    if ch.buf_size == 0
    then fault
    else accessing (read_loop n 0 ch.head ch.buf_size ch.buf) (λ bytes.
      returned status_ok
        (record ch { head = add_size ch.head n % ch.buf_size; len = sub_size ch.len n }, bytes))

-- The two endpoints of a pair, and the channels that they share: what one writes into, the other reads.
pub data Side : Type 0 where
  side_a side_b : Side

pub record Wire : Type 0 where
  pub a_to_b : Channel
  pub b_to_a : Channel
  pub a_connected : Bool
  pub b_connected : Bool

-- aemlib_virtual_transport_pair_init
unfoldable pub pair_init : Channel → Channel → Wire
pair_init a_to_b b_to_a = record {
  a_to_b = a_to_b;
  b_to_a = b_to_a;
  a_connected = false;
  b_connected = false;
}

-- `vt->tx`, `vt->rx` and `vt->connected`
abbrev pub tx : Side → Wire → Channel
tx Side.side_a p = p.a_to_b
tx Side.side_b p = p.b_to_a

abbrev pub rx : Side → Wire → Channel
rx Side.side_a p = p.b_to_a
rx Side.side_b p = p.a_to_b

abbrev pub connected : Side → Wire → Bool
connected Side.side_a p = p.a_connected
connected Side.side_b p = p.b_connected

abbrev pub with_tx : Side → Channel → Wire → Wire
with_tx Side.side_a ch p = record p { a_to_b = ch }
with_tx Side.side_b ch p = record p { b_to_a = ch }

abbrev pub with_rx : Side → Channel → Wire → Wire
with_rx Side.side_a ch p = record p { b_to_a = ch }
with_rx Side.side_b ch p = record p { a_to_b = ch }

abbrev pub with_connected : Side → Bool → Wire → Wire
with_connected Side.side_a c p = record p { a_connected = c }
with_connected Side.side_b c p = record p { b_connected = c }

unfoldable pub vt_connect : Side → Wire → Outcome Wire
vt_connect side p = returned status_ok (with_connected side true p)

unfoldable pub vt_disconnect : Side → Wire → Outcome Wire
vt_disconnect side p = returned status_ok (with_connected side false p)

abbrev pub closed : ℕ
closed = status Layer.io Code.closed

-- The pair after a read, and the bytes that it stored.
unfoldable pub vt_read : Side → Wire → ℕ → Outcome (Wire × List ℕ)
vt_read side p len =
    if not (connected side p)
    then returned closed (p, [])
    else elim (channel_read (rx side p) len) [
      | returned st (ch, bytes) ↦ returned st (with_rx side ch p, bytes)
      | fault ↦ fault
    ]

-- The pair after a write, and `*out_len`.
unfoldable pub vt_write : Side → Wire → List ℕ → Outcome (Wire × ℕ)
vt_write side p bytes =
    if not (connected side p)
    then returned closed (p, 0)
    else elim (channel_write (tx side p) bytes) [
      | returned st (ch, n) ↦ returned st (with_tx side ch p, n)
      | fault ↦ fault
    ]
