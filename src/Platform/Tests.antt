-- ===== src/Platform/Tests.antt =====
-- Theorems on platform/virtual_transport.c at concrete inputs: a ring of four bytes that wraps.
use aemlib.Base.{
  ℕ, ◌-◌, ◌≡◌, refl, List, [], ◌∷◌, ◌++◌, take, drop, min, true, arith, if◌then◌else◌, ltb, ◌==◌,
  ◌&&◌,
}
use aemlib.Status.{status_ok}
use aemlib.Status.Outcome.{returned}
use aemlib.Platform.Virtual.{
  Channel, Side, Wire, tx, channel_full, channel_read, channel_write, vt_read, vt_write,
}
use aemlib.Platform.Virtual.Fifo.{Holds, channel_read_lem, channel_write_lem}
use aemlib.Platform.Virtual.Pair.{vt_write-vt_read}

-- The queue 7, 8 stands in the last place and the first.
abbrev ring : Channel
ring = record { buf = 8 ∷ 0 ∷ 0 ∷ 7 ∷ []; buf_size = 4; head = 3; len = 2 }

abbrev queue : List ℕ
queue = 7 ∷ 8 ∷ []

ring-Holds : Holds ring queue
ring-Holds = record {
  size_positive = omega arith;
  memory = omega arith;
  small = omega arith;
  head_in = omega arith;
  counted = refl;
  fits = omega arith;
  window = (refl, (refl, tt));
}

channel_write_lem_example :
    (ch' : Channel) × (n : ℕ) × (channel_write ring (1 ∷ 2 ∷ 3 ∷ [])
      ≡ returned (if (n == 0) && ltb 0 3 then channel_full else status_ok) (ch', n))
    × (n ≡ min 3 (4 - 2))
    × Holds ch' (queue ++ take n (1 ∷ 2 ∷ 3 ∷ []))
channel_write_lem_example = channel_write_lem ring (1 ∷ 2 ∷ 3 ∷ []) queue ring-Holds (omega arith)

channel_read_lem_example :
    (ch' : Channel) × (channel_read ring 1 ≡ returned status_ok (ch', 7 ∷ [])) × Holds ch' (8 ∷ [])
channel_read_lem_example = channel_read_lem ring 1 queue ring-Holds

abbrev pair : Wire
pair = record { a_to_b = ring; b_to_a = ring; a_connected = true; b_connected = true }

vt_write-vt_read_example :
    (p1 : Wire) × (n : ℕ) × (p2 : Wire) × (vt_write Side.side_a pair (1 ∷ 2 ∷ 3 ∷ [])
      ≡ returned (if (n == 0) && ltb 0 3 then channel_full else status_ok) (p1, n))
    × (n ≡ min 3 (4 - 2))
    × (vt_read Side.side_b p1 9
        ≡ returned status_ok (p2, take 9 (queue ++ take n (1 ∷ 2 ∷ 3 ∷ []))))
    × Holds (tx Side.side_a p2) (drop 9 (queue ++ take n (1 ∷ 2 ∷ 3 ∷ [])))
vt_write-vt_read_example =
    vt_write-vt_read Side.side_a pair (1 ∷ 2 ∷ 3 ∷ []) queue 9 refl refl ring-Holds (omega arith)
