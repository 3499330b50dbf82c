-- ===== src/Core/Machine/Ids.antt =====
-- aemlib_core_next_packet_id of core/core.c, called again and again.
use aemlib.Base.{ℕ, zero, suc, ◌+◌, ◌-◌, ◌%◌, ◌≤◌, ◌<◌, ◌^◌, ◌≡◌, ◌≢◌, arith}
use aemlib.Core.State.{Client}
use aemlib.Core.Machine.{next_packet_id}

module _ {W : Type 0} where
  -- The client after `n` calls.
  abbrev pub after_calls : ℕ → Client W → Client W
  after_calls zero c = c
  after_calls (suc n) c = next_packet_id (after_calls n c)

  next_id :
      (c : Client W) (m : ℕ)
      → c.packet_id ≡ m % 65535 + 1
      → (next_packet_id c).packet_id ≡ suc m % 65535 + 1
  unfolding next_packet_id
  next_id c m e = ground (arith, e)

  -- From a packet identifier that is a nonzero uint16_t, the identifiers that calls of
  -- aemlib_core_next_packet_id give run through all numbers from 1 to 65535 in turn, and 0 is never
  -- given.
  pub packet_id-after_calls :
      (n : ℕ) (c : Client W)
      → 1 ≤ c.packet_id
      → c.packet_id < 2 ^ 16
      → (after_calls n c).packet_id ≡ (c.packet_id - 1 + n) % 65535 + 1
  packet_id-after_calls zero c low high = omega arith
  packet_id-after_calls (suc n) c low high =
      let e =
        next_id (after_calls n c) (c.packet_id - 1 + n) (packet_id-after_calls n c low high) in
      omega (arith, e)

  -- From a packet identifier that is a nonzero uint16_t, no two of the identifiers that any 65535
  -- calls in a row of aemlib_core_next_packet_id give are the same.
  pub packet_id-distinct :
      (n k : ℕ) (c : Client W)
      → 1 ≤ c.packet_id
      → c.packet_id < 2 ^ 16
      → 1 ≤ k
      → k < 65535
      → (after_calls (n + k) c).packet_id ≢ (after_calls n c).packet_id
  packet_id-distinct n k c low high some_calls few same = absurd (
      omega
        (arith, same, packet_id-after_calls (n + k) c low high, packet_id-after_calls n c low high))
