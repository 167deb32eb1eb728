-- ===== src/Base/Bits.antt =====
-- Masks, shifts and little-endian bytes. The native bit operations compute at numerals only; over a
-- small range every value is checked.
use Prim.Native.Nat.{ℕ, zero, suc, ◌+◌, ◌*◌, ◌/◌, ◌%◌, ◌^◌, ◌<◌, ◌≤◌, max, bit_or}
use Prim.Native.Nat.{digits, bit_or-bitwise}
use mathlib.Core.Path.{◌≡◌, refl, ◌∙◌, ap₂}
use mathlib.Core.Bool.{Bool, true, ◌&&◌}
use mathlib.Core.List.{List, [], ◌∷◌}
use native.Mathlib.Omega.{arith}
use riceprobe.Base.Tests.{◌/=◌}

-- `x & ((1 << k) - 1)`
abbrev pub low_bits : ℕ → ℕ → ℕ
low_bits x k = x % 2 ^ k

-- `x >> k`
abbrev pub shr : ℕ → ℕ → ℕ
shr x k = x / 2 ^ k

-- `(x >> k) & 1`
abbrev pub bit : ℕ → ℕ → ℕ
bit x k = x / 2 ^ k % 2

-- `(x & BIT(k)) != 0`
abbrev pub has_bit : ℕ → ℕ → Bool
has_bit x k = bit x k /= 0

-- `sys_put_le16` and `sys_put_le32`: the bytes, lowest first.
abbrev pub le16 : ℕ → List ℕ
le16 x = x % 256 ∷ x / 256 % 256 ∷ []

abbrev pub le32 : ℕ → List ℕ
le32 x = x % 256 ∷ x / 256 % 256 ∷ x / 65536 % 256 ∷ x / 16777216 % 256 ∷ []

-- `sys_get_le16` and `sys_get_le32`.
abbrev pub get_le16 : ℕ → ℕ → ℕ
get_le16 a b = a + 256 * b

abbrev pub get_le32 : ℕ → ℕ → ℕ → ℕ → ℕ
get_le32 a b c d = a + 256 * b + 65536 * c + 16777216 * d

unfoldable pub all_below : ℕ → (ℕ → Bool) → Bool
all_below zero holds = true
all_below (suc k) holds = holds k && all_below k holds

pub all_below_sound :
    (bound : ℕ) (holds : ℕ → Bool) (i : ℕ)
    → all_below bound holds ≡ true
    → i < bound
    → holds i ≡ true
unfolding all_below
all_below_sound zero holds i every small = ground arith
all_below_sound (suc k) holds i every small = ground (arith, all_below_sound k holds i)

-- `|` on the digits, with the number of digits still to go.
abbrev either : ℕ → ℕ → ℕ → ℕ
either = digits (λ y. y) max

-- Digits to go beyond those of the first number change nothing.
either_enough : (k l x y : ℕ) → x ≤ k → x ≤ l → either k x y ≡ either l x y
either_enough zero zero x y p q = refl
either_enough zero (suc l) zero y p q = refl
either_enough zero (suc l) (suc x) y p q = absurd (omega arith)
either_enough (suc k) zero zero y p q = refl
either_enough (suc k) zero (suc x) y p q = absurd (omega arith)
either_enough (suc k) (suc l) zero y p q = refl
either_enough (suc k) (suc l) (suc x) y p q =
    omega (arith, either_enough k l (suc x / 2) (y / 2) (omega arith) (omega arith))

zero-bit_or : (y : ℕ) → bit_or 0 y ≡ y
zero-bit_or y = bit_or-bitwise 0 y

-- One binary digit of `|`.
bit_or_digit : (x y : ℕ) → bit_or x y ≡ 2 * bit_or (x / 2) (y / 2) + max (x % 2) (y % 2)
bit_or_digit zero y = omega (arith, zero-bit_or y, zero-bit_or (y / 2))
bit_or_digit (suc x) y = omega (
  arith,
  bit_or-bitwise (suc x) y,
  bit_or-bitwise (suc x / 2) (y / 2),
  either_enough x (suc x / 2) (suc x / 2) (y / 2) (omega arith) (omega arith),
)

bit_or-zero_below : (n x : ℕ) → x < n → bit_or x 0 ≡ x
bit_or-zero_below zero x h = absurd (omega arith)
bit_or-zero_below (suc n) zero h = refl
bit_or-zero_below (suc n) (suc x) h =
    omega (arith, bit_or_digit (suc x) 0, bit_or-zero_below n (suc x / 2) (omega arith))

pub bit_or-zero : (x : ℕ) → bit_or x 0 ≡ x
bit_or-zero x = bit_or-zero_below (suc x) x (omega arith)

-- `(x << 1) | r` for one more digit on each side.
bit_or_double : (x y q r : ℕ) → bit_or x y ≡ x + y → q ≡ 2 * x → r / 2 ≡ y → bit_or q r ≡ q + r
bit_or_double x y q r e d h = bit_or_digit q r ∙ omega (arith, ap₂ bit_or (half d) h, e)
  where
    half : q ≡ 2 * x → q / 2 ≡ x
    half e = omega arith

-- `(q << 6) | r` is a sum where `r` has six digits.
pub bit_or_shift6 : (q r : ℕ) → r < 64 → bit_or (q * 64) r ≡ q * 64 + r
bit_or_shift6 q r h =
    bit_or_double (q * 32) (r / 2) _ r
      (bit_or_double (q * 16) (r / 2 / 2) _ (r / 2)
        (bit_or_double (q * 8) (r / 2 / 2 / 2) _ (r / 2 / 2)
          (bit_or_double (q * 4) (r / 2 / 2 / 2 / 2) _ (r / 2 / 2 / 2)
            (bit_or_double (q * 2) (r / 2 / 2 / 2 / 2 / 2) _ (r / 2 / 2 / 2 / 2)
              (bit_or_double q 0 _ (r / 2 / 2 / 2 / 2 / 2) (bit_or-zero q ∙ omega arith)
                (omega arith) (omega arith))
              (omega arith) (omega arith))
            (omega arith) (omega arith))
          (omega arith) (omega arith))
        (omega arith) (omega arith))
      (omega arith) (omega arith)
