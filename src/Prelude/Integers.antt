-- ===== src/Prelude/Integers.antt =====
-- Integers over the native numbers, under the library's names, and the range of `size_t`.
use Prim.Native.Nat.{ℕ, ◌-◌, ◌^◌}

-- `negsuc n` is the number -(n + 1).
pub data ℤ : Type 0 where
  pos negsuc : ℕ → ℤ

-- `std::numeric_limits<std::size_t>::max()` on a 64-bit platform.
abbrev pub size_max : ℕ
size_max = 2 ^ 64 - 1
