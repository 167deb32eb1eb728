-- ===== src/Utf8/Bounds.antt =====
-- What `utf8_encode` accepts, and the range of the bytes that it writes.
use riceprobe.Base.{
  ℕ, ◌+◌, ◌/◌, ◌%◌, ◌≤◌, ◌<◌, ◌≡◌, refl, arith, true, [], ◌∷◌, Option, none, some, length, ◌==◌,
  ==_iff, All,
}
use native.Mathlib.Decide.{dec_lt}
use riceprobe.Base.Bits.{all_below, all_below_sound}
use riceprobe.Errno.{einval, enobufs, ok, err}
use riceprobe.Utf8.{
  encoded_len, lead_byte, continuation_byte, continuation_bytes, encode_bytes, encode, lead,
}

-- The bytes that each lead byte and each continuation byte can be.
lead2_table : all_below 32 (λ q. lead_byte 2 q == 0xc0 + q) ≡ true
unfolding lead_byte all_below
lead2_table = refl

lead3_table : all_below 16 (λ q. lead_byte 3 q == 0xe0 + q) ≡ true
unfolding lead_byte all_below
lead3_table = refl

lead4_table : all_below 8 (λ q. lead_byte 4 q == 0xf0 + q) ≡ true
unfolding lead_byte all_below
lead4_table = refl

continuation_table : all_below 64 (λ y. continuation_byte y == 0x80 + y) ≡ true
unfolding continuation_byte all_below
continuation_table = refl

pub lead_byte_two : (q : ℕ) → q < 32 → lead_byte 2 q ≡ 0xc0 + q
lead_byte_two q h = (==_iff _ _).0 (all_below_sound 32 _ q lead2_table h)

pub lead_byte_three : (q : ℕ) → q < 16 → lead_byte 3 q ≡ 0xe0 + q
lead_byte_three q h = (==_iff _ _).0 (all_below_sound 16 _ q lead3_table h)

pub lead_byte_four : (q : ℕ) → q < 8 → lead_byte 4 q ≡ 0xf0 + q
lead_byte_four q h = (==_iff _ _).0 (all_below_sound 8 _ q lead4_table h)

pub continuation_byte_lem : (y : ℕ) → y < 64 → continuation_byte y ≡ 0x80 + y
continuation_byte_lem y h = (==_iff _ _).0 (all_below_sound 64 _ y continuation_table h)

abbrev IsLead : ℕ → ℕ → ℕ → Type 0
IsLead b nbytes start = lead b ≡ some (nbytes, start)

-- The bytes of a code point of each length.
pub encode_bytes_one : (val : ℕ) → val < 0x80 → encode_bytes 1 val ≡ val ∷ []
unfolding encode_bytes
encode_bytes_one val h = ground arith

pub encode_bytes_two :
    (val : ℕ) → val < 0x800 → encode_bytes 2 val ≡ (0xc0 + val / 64) ∷ (0x80 + val % 64) ∷ []
unfolding encode_bytes continuation_bytes
encode_bytes_two val h =
    rw (lead_byte_two (val / 64) (omega arith), continuation_byte_lem (val / 1 % 64) (omega arith))
      (ground arith)

pub encode_bytes_three :
    (val : ℕ)
    → val < 0x10000
    → encode_bytes 3 val ≡ (0xe0 + val / 4096) ∷ (0x80 + val / 64 % 64) ∷ (0x80 + val % 64) ∷ []
unfolding encode_bytes continuation_bytes
encode_bytes_three val h =
    rw
      (
        lead_byte_three (val / 4096) (omega arith),
        continuation_byte_lem (val / 64 % 64) (omega arith),
        continuation_byte_lem (val / 1 % 64) (omega arith),
      )
      (ground arith)

pub encode_bytes_four :
    (val : ℕ)
    → val < 0x200000
    → encode_bytes 4 val
      ≡ (0xf0 + val / 262144)
        ∷ (0x80 + val / 4096 % 64)
        ∷ (0x80 + val / 64 % 64)
        ∷ (0x80 + val % 64)
        ∷ []
unfolding encode_bytes continuation_bytes
encode_bytes_four val h =
    rw
      (
        lead_byte_four (val / 262144) (omega arith),
        continuation_byte_lem (val / 4096 % 64) (omega arith),
        continuation_byte_lem (val / 64 % 64) (omega arith),
        continuation_byte_lem (val / 1 % 64) (omega arith),
      )
      (ground arith)

-- The code points that each length serves.
pub data Width (val : ℕ) : Type 0 where
  one : val < 0x80 → encoded_len val ≡ some 1 → Width val
  two : val < 0x800 → 0x80 ≤ val → encoded_len val ≡ some 2 → Width val
  three : val < 0x10000 → 0x800 ≤ val → encoded_len val ≡ some 3 → Width val
  four : val < 0x110000 → 0x10000 ≤ val → encoded_len val ≡ some 4 → Width val

pub width : (val : ℕ) → val ≤ 0x10ffff → Width val
unfolding encoded_len
width val h = elim (dec_lt val 0x80) [
  | yes p ↦ one p (ground arith)
  | no p ↦ elim (dec_lt val 0x800) [
    | yes q ↦ two q (omega arith) (ground arith)
    | no q ↦ elim (dec_lt val 0x10000) [
      | yes r ↦ three r (omega arith) (ground arith)
      | no r ↦ four (omega arith) (omega arith) (ground arith)
    ]
  ]
]

-- `val` is encoded in `n` bytes, into any buffer that has room for them.
pub record Encodes (val n : ℕ) : Type 0 where
  pub few : n ≤ 4
  pub null : encode val none ≡ err enobufs
  pub short : (buf_len : ℕ) → buf_len < n → encode val (some buf_len) ≡ err enobufs
  pub fits : (buf_len : ℕ) → n ≤ buf_len → encode val (some buf_len) ≡ ok (encode_bytes n val)
  pub count : length (encode_bytes n val) ≡ n
  pub small : All (λ b. b ≤ 0xf4) (encode_bytes n val)

Encodes-of :
    (val n : ℕ)
    → encoded_len val ≡ some n
    → n ≤ 4
    → length (encode_bytes n val) ≡ n
    → All (λ b. b ≤ 0xf4) (encode_bytes n val)
    → Encodes val n
unfolding encode
Encodes-of val n e few count small = record {
  few = few;
  null = ground arith;
  short = λ len h. ground arith;
  fits = λ len h. ground arith;
  count = count;
  small = small;
}

-- `utf8_encode` returns `-EINVAL` for a value above 0x10ffff, whatever the buffer. Any other value
-- has a length of one to four bytes: a NULL or shorter buffer gives `-ENOBUFS`, and a buffer of that
-- length or more receives that many bytes, none of them above 0xf4.
pub encode_lem :
    (val : ℕ) (buf : Option ℕ)
    → (0x10ffff < val → encode val buf ≡ err einval)
      × (val ≤ 0x10ffff → (n : ℕ) × (1 ≤ n) × Encodes val n)
encode_lem val buf = (too_large, λ h. by_width (width val h))
  where
    too_large : 0x10ffff < val → encode val buf ≡ err einval
    too_large h = unfold encode encoded_len in ground arith

    by_width : Width val → (n : ℕ) × (1 ≤ n) × Encodes val n
    by_width (one p w) = (
      1,
      omega arith,
      Encodes-of val 1 w (omega arith) (rw (encode_bytes_one val p))
          (rw (encode_bytes_one val p) (omega arith)),
    )
    by_width (two p _ w) = (
      2,
      omega arith,
      Encodes-of val 2 w (omega arith) (rw (encode_bytes_two val p))
          (rw (encode_bytes_two val p) (omega arith)),
    )
    by_width (three p _ w) = (
      3,
      omega arith,
      Encodes-of val 3 w (omega arith) (rw (encode_bytes_three val p))
          (rw (encode_bytes_three val p) (omega arith)),
    )
    by_width (four p _ w) = (
      4,
      omega arith,
      Encodes-of val 4 w (omega arith) (rw (encode_bytes_four val (omega arith)))
          (rw (encode_bytes_four val (omega arith)) (omega arith)),
    )
