-- ===== src/Prelude/Words.antt =====
-- Machine words as native numbers. The plugin is a 32-bit library, so `std::size_t` has 32 bits.
use Prim.Native.Nat.{ℕ, ◌+◌, ◌-◌, ◌≤◌, ◌<◌, ◌%◌, ◌^◌}
use mathlib.Core.Path.{◌≡◌}
use native.Mathlib.Omega.{arith}
use fastdl_mm.Prelude.Tests.{ltb, if◌then◌else◌}

abbrev pub u32_mod : ℕ
u32_mod = 2 ^ 32

abbrev pub u64_mod : ℕ
u64_mod = 2 ^ 64

abbrev pub u64_max : ℕ
u64_max = 2 ^ 64 - 1

abbrev pub i64_max : ℕ
i64_max = 2 ^ 63 - 1

-- `a - b` on `std::size_t`, with its wrap-around.
unfoldable pub sub_size : ℕ → ℕ → ℕ
sub_size a b = (a + u32_mod - b) % u32_mod

-- `a + b` on `std::size_t`.
unfoldable pub add_size : ℕ → ℕ → ℕ
add_size a b = (a + b) % u32_mod

pub sub_size-eq : (a b : ℕ) → b ≤ a → a < u32_mod → sub_size a b ≡ a - b
unfolding sub_size
sub_size-eq a b h k = omega arith

pub add_size-eq : (a b : ℕ) → a + b < u32_mod → add_size a b ≡ a + b
unfolding add_size
add_size-eq a b h = omega arith

-- The sum of two 64-bit words, held at the largest of them.
unfoldable pub saturating_sum : ℕ → ℕ → ℕ
saturating_sum current amount = if ltb (u64_max - current) amount then u64_max else current + amount
