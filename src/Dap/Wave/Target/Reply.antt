-- ===== src/Dap/Wave/Target/Reply.antt =====
-- What the protocol says of a transfer over SWD.
use riceprobe.Base.{
  ℕ, suc, ◌+◌, ◌*◌, ◌%◌, ◌^◌, ◌≡◌, refl, arith, Bool, true, false, ◌==◌, ◌/=◌, if◌then◌else◌,
}
use native.Mathlib.Numerals.{towards_suc}
use riceprobe.Dap.Transfer.Port.{ack_ok, ack_error}
use riceprobe.Dap.Wave.Target.{bit_at, value_at, ones_at}

-- A transfer as its protocol describes it, with the levels from the first of the ack on: the ack, the word, and how
-- many levels the target had to give.
pub record Reply : Type 0 where
  pub ack : ℕ
  pub word : ℕ
  pub levels_used : ℕ

unfoldable pub reply_to : (ℕ → ℕ) → ℕ → Bool → ℕ → ℕ → Reply
reply_to levels n reading word ack =
    if ack == 1
    then (if reading
        then record {
          ack = if ones_at levels (3 + n) 32 % 2 == bit_at levels (35 + n) then 1 else 8;
          word = value_at levels (3 + n) 32;
          levels_used = 36;
        }
        else record { ack = 1; word = word; levels_used = 3 })
    else record { ack = ack; word = word; levels_used = 3 }

pub scaled : (v : ℕ) → 0 + 1 * v ≡ v
scaled v = omega arith

unfoldable pub reply : (ℕ → ℕ) → ℕ → Bool → ℕ → Reply
unfolding reply_to
reply levels n reading word = reply_to levels n reading word (value_at levels n 3)

pub next_power : (i : ℕ) → 2 ^ (i + 1) ≡ 2 * 2 ^ i
next_power i = simp towards_suc (omega arith)

pub horner : (p q b v word : ℕ) → q ≡ 2 * p → word + b * p + q * v ≡ word + p * (b + 2 * v)
horner p q b v word h = rw h (grind arith)

pub reply_to-other :
    (levels : ℕ → ℕ) (n : ℕ) (reading : Bool) (word ack : ℕ)
    → (ack == 1) ≡ false
    → reply_to levels n reading word ack ≡ record { ack = ack; word = word; levels_used = 3 }
unfolding reply_to
reply_to-other levels n reading word ack h = rw h refl

pub reply_to-writing :
    (levels : ℕ → ℕ) (n word ack : ℕ)
    → (ack == 1) ≡ true
    → reply_to levels n false word ack ≡ record { ack = 1; word = word; levels_used = 3 }
unfolding reply_to
reply_to-writing levels n word ack h = rw h refl

pub reply_to-reading :
    (levels : ℕ → ℕ) (n word ack : ℕ)
    → (ack == 1) ≡ true
    → reply_to levels n true word ack ≡ record {
      ack = if ones_at levels (3 + n) 32 % 2 == bit_at levels (35 + n) then 1 else 8;
      word = value_at levels (3 + n) 32;
      levels_used = 36;
    }
unfolding reply_to
reply_to-reading levels n word ack h = rw h refl

pub used : (n last : ℕ) → last ≡ 32 + (3 + n) → 36 + n ≡ suc last
used n last h = omega (arith, h)

pub three : (n : ℕ) → suc (suc (suc n)) ≡ 3 + n
three n = omega arith

-- The parity as the code compares it.
pub read_ack :
    (levels : ℕ → ℕ) (n sum last : ℕ)
    → sum ≡ ones_at levels (3 + n) 32
    → last ≡ 32 + (3 + n)
    → (if sum % 2 /= bit_at levels last then ack_error else ack_ok)
      ≡ (if ones_at levels (3 + n) 32 % 2 == bit_at levels (35 + n) then 1 else 8)
read_ack levels n sum last ones count = rw (ones, last_at) (ground arith)
  where
    last_at : last ≡ 35 + n
    last_at = omega (arith, count)
