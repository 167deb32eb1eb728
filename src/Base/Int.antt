-- ===== src/Base/Int.antt =====
-- C's `int`: the values that calls return, over the native numbers.
use Prim.Native.Nat.{ℕ, ◌-◌, ◌%◌}
use mathlib.Core.Bool.{Bool, true, false}

-- `negsuc n` is -(n + 1).
pub data ℤ : Type 0 where
  pos : ℕ → ℤ
  negsuc : ℕ → ℤ

-- `x < 0`
abbrev pub is_negative : ℤ → Bool
is_negative (pos n) = false
is_negative (negsuc n) = true

-- Conversion to `uint8_t` and to `uint32_t`, which takes the value modulo 2 ^ w.
abbrev pub to_u8 : ℤ → ℕ
to_u8 (pos n) = n % 256
to_u8 (negsuc n) = 255 - n % 256

abbrev pub to_u32 : ℤ → ℕ
to_u32 (pos n) = n % 0x100000000
to_u32 (negsuc n) = 0xffffffff - n % 0x100000000
