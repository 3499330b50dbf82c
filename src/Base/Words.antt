-- ===== src/Base/Words.antt =====
-- Machine words as native numbers. A `size_t` has 64 bits, and its additions and subtractions wrap.
-- The masks, shifts and ORs of the code are written `%`, `/`, `*` and `+`: the tables below check, over
-- every byte, that these are the C operators.
use Prim.Native.Nat.{ℕ, zero, suc, ◌+◌, ◌-◌, ◌*◌, ◌/◌, ◌%◌, ◌^◌, ◌<◌, bit_and, bit_or}
use mathlib.Core.Path.{◌≡◌, refl}
use mathlib.Core.Bool.{Bool, true, ◌&&◌}
use native.Mathlib.Omega.{arith}
use aemlib.Base.Tests.{◌==◌, ==_iff}

abbrev pub u8_mod : ℕ
u8_mod = 2 ^ 8

abbrev pub u16_mod : ℕ
u16_mod = 2 ^ 16

abbrev pub u32_mod : ℕ
u32_mod = 2 ^ 32

abbrev pub size_mod : ℕ
size_mod = 2 ^ 64

abbrev pub IsByte : ℕ → Type 0
IsByte b = b < 2 ^ 8

-- `a + b` and `a - b` on size_t and uint64_t.
abbrev pub add_size : ℕ → ℕ → ℕ
add_size a b = (a + b) % size_mod

abbrev pub sub_size : ℕ → ℕ → ℕ
sub_size a b = (a + size_mod - b) % size_mod

all_below : ℕ → (ℕ → Bool) → Bool
all_below zero p = true
all_below (suc n) p = p n && all_below n p

all_below_sound : (n : ℕ) (p : ℕ → Bool) → all_below n p ≡ true → (x : ℕ) → x < n → p x ≡ true
unfolding all_below
all_below_sound zero p h x lt = absurd (omega arith)
all_below_sound (suc n) p h x lt = ground (arith, all_below_sound n p (ground arith) x)

agree : (f g : ℕ → ℕ) → all_below 256 (λ x. f x == g x) ≡ true → (x : ℕ) → IsByte x → f x ≡ g x
agree f g h x lt = (==_iff (f x) (g x)).0 (all_below_sound 256 (λ y. f y == g y) h x lt)

-- The masks that the code takes of a byte.
pub low_seven_bits : (b : ℕ) → IsByte b → bit_and b 0x7F ≡ b % 128
unfolding all_below
low_seven_bits = agree (λ b. bit_and b 0x7F) (λ b. b % 128) refl

pub top_bit : (b : ℕ) → IsByte b → bit_and b 0x80 ≡ b / 128 % 2 * 128
unfolding all_below
top_bit = agree (λ b. bit_and b 0x80) (λ b. b / 128 % 2 * 128) refl

pub set_top_bit : (b : ℕ) → IsByte b → bit_or (b % 128) 0x80 ≡ b % 128 + 128
unfolding all_below
set_top_bit = agree (λ b. bit_or (b % 128) 0x80) (λ b. b % 128 + 128) refl

pub low_nibble : (b : ℕ) → IsByte b → bit_and b 0x0F ≡ b % 16
unfolding all_below
low_nibble = agree (λ b. bit_and b 0x0F) (λ b. b % 16) refl

pub qos_bits : (b : ℕ) → IsByte b → bit_and (b / 2) 0x03 ≡ b / 2 % 4
unfolding all_below
qos_bits = agree (λ b. bit_and (b / 2) 0x03) (λ b. b / 2 % 4) refl
