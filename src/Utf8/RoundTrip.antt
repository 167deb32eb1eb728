-- ===== src/Utf8/RoundTrip.antt =====
-- `utf8_decode` gives back what `utf8_encode` wrote.
use mathlib.Core.Bool.{false}
use riceprobe.Base.{
  ℕ, suc, ◌+◌, ◌*◌, ◌/◌, ◌%◌, ◌^◌, ◌≤◌, ◌<◌, ◌≡◌, refl, ◌∙◌, arith, Bool, true, List, ◌∷◌, ◌++◌,
  none, some, length, ◌==◌, ◌&&◌, bit_and,
}
use riceprobe.Base.Bits.{all_below, all_below_sound, bit_or_shift6}
use riceprobe.Errno.{ok}
use riceprobe.Utf8.{encoded_len, encode_bytes, encode, lead, decode_tail, decode_into, decode}
use riceprobe.Utf8.Bounds.{
  encode_bytes_one, encode_bytes_two, encode_bytes_three, encode_bytes_four, one, two, three, four,
  width,
}

lead_is : ℕ → ℕ → ℕ → Bool
lead_is b nbytes start = elim (lead b) [
  | none ↦ false
  | some (n, s) ↦ (n == nbytes) && (s == start)
]

lead_of_is : (b n s : ℕ) → lead_is b n s ≡ true → lead b ≡ some (n, s)
unfolding lead_is
lead_of_is b n s h = ground arith

two_table : all_below 32 (λ q. lead_is (0xc0 + q) 2 q) ≡ true
unfolding lead_is lead all_below
two_table = refl

three_table : all_below 16 (λ q. lead_is (0xe0 + q) 3 q) ≡ true
unfolding lead_is lead all_below
three_table = refl

four_table : all_below 8 (λ q. lead_is (0xf0 + q) 4 q) ≡ true
unfolding lead_is lead all_below
four_table = refl

six_table :
    all_below 64 (λ y. (bit_and (0x80 + y) 0xc0 == 0x80) && (bit_and (0x80 + y) 0x3f == y)) ≡ true
unfolding all_below
six_table = refl

six_bits : (y : ℕ) → y < 64 → (bit_and (0x80 + y) 0xc0 ≡ 0x80) × (bit_and (0x80 + y) 0x3f ≡ y)
six_bits y h = ground (arith, all_below_sound 64 _ y six_table h)

-- One round of the loop of `utf8_decode` on a continuation byte.
decode_tail_step :
    (left y : ℕ) (bytes : List ℕ) (r : ℕ)
    → y < 64
    → r < 2 ^ 26
    → decode_tail (suc left) ((0x80 + y) ∷ bytes) r ≡ decode_tail left bytes (r * 64 + y)
unfolding decode_tail
decode_tail_step left y bytes r h hr =
    rw ((six_bits y h).0, (six_bits y h).1, small, bit_or_shift6 r y h) refl
  where
    small : r * 64 % 2 ^ 32 ≡ r * 64
    small = omega arith

decode_tail_end : (bytes : List ℕ) (r : ℕ) → decode_tail 0 bytes r ≡ (true, r)
unfolding decode_tail
decode_tail_end bytes r = refl

lead_two : (q : ℕ) → q < 32 → lead (0xc0 + q) ≡ some (2, q)
lead_two q h = lead_of_is _ 2 q (all_below_sound 32 _ q two_table h)

lead_three : (q : ℕ) → q < 16 → lead (0xe0 + q) ≡ some (3, q)
lead_three q h = lead_of_is _ 3 q (all_below_sound 16 _ q three_table h)

lead_four : (q : ℕ) → q < 8 → lead (0xf0 + q) ≡ some (4, q)
lead_four q h = lead_of_is _ 4 q (all_below_sound 8 _ q four_table h)

abbrev Decoded : ℕ → List ℕ → ℕ → ℕ → Type 0
Decoded nbytes buf r val = decode_into buf r ≡ (ok nbytes, val)

decode_one : (val r : ℕ) (rest : List ℕ) → val < 0x80 → Decoded 1 (val ∷ rest) r val
unfolding decode_into lead decode_tail
decode_one val r rest h = ground arith

decode_two :
    (val r : ℕ) (rest : List ℕ)
    → val < 0x800
    → Decoded 2 ((0xc0 + val / 64) ∷ (0x80 + val % 64) ∷ rest) r val
unfolding decode_into
decode_two val r rest h =
    rw (lead_two (val / 64) (omega arith), decode_into)
      (rw (decode_tail_step 0 (val % 64) rest (val / 64) (omega arith) (omega arith))
        (ground (arith, decode_tail_end rest (val / 64 * 64 + val % 64))))

decode_three :
    (val r : ℕ) (rest : List ℕ)
    → val < 0x10000
    → Decoded 3 ((0xe0 + val / 4096) ∷ (0x80 + val / 64 % 64) ∷ (0x80 + val % 64) ∷ rest) r val
unfolding decode_into
decode_three val r rest h =
    let q = val / 4096 in
    let p = val / 64 % 64 in
    let y = val % 64 in
    rw (lead_three q (omega arith), decode_into)
      (rw
        (
          decode_tail_step 1 p ((0x80 + y) ∷ rest) q (omega arith) (omega arith),
          decode_tail_step 0 y rest (q * 64 + p) (omega arith) (omega arith),
        )
        (ground (arith, decode_tail_end rest ((q * 64 + p) * 64 + y))))

decode_four :
    (val r : ℕ) (rest : List ℕ)
    → val < 0x200000
    → Decoded 4
        ((0xf0 + val / 262144)
          ∷ (0x80 + val / 4096 % 64)
          ∷ (0x80 + val / 64 % 64)
          ∷ (0x80 + val % 64)
          ∷ rest)
        r
        val
unfolding decode_into
decode_four val r rest h =
    let q = val / 262144 in
    let o = val / 4096 % 64 in
    let p = val / 64 % 64 in
    let y = val % 64 in
    rw (lead_four q (omega arith), decode_into)
      (rw
        (
          decode_tail_step 2 o ((0x80 + p) ∷ (0x80 + y) ∷ rest) q (omega arith) (omega arith),
          decode_tail_step 1 p ((0x80 + y) ∷ rest) (q * 64 + o) (omega arith) (omega arith),
          decode_tail_step 0 y rest ((q * 64 + o) * 64 + p) (omega arith) (omega arith),
        )
        (ground (arith, decode_tail_end rest (((q * 64 + o) * 64 + p) * 64 + y))))

encode_ok :
    (val nbytes buf_len : ℕ) {bytes : List ℕ}
    → encoded_len val ≡ some nbytes
    → encode val (some buf_len) ≡ ok bytes
    → bytes ≡ encode_bytes nbytes val
unfolding encode
encode_ok val nbytes len e h = ground arith

-- What `utf8_encode` writes for a code point, followed by any other bytes, `utf8_decode` reads back:
-- it returns the number of bytes written, and leaves the code point in `*result`.
pub decode-encode :
    (val buf_len : ℕ) {bytes : List ℕ} (rest : List ℕ) (r : ℕ)
    → val ≤ 0x10ffff
    → encode val (some buf_len) ≡ ok bytes
    → decode (some (bytes ++ rest)) (some r) ≡ (ok (length bytes), some val)
unfolding decode
decode-encode val len rest r h e = elim (width val h) [
  | one p w ↦ rw (encode_ok val 1 len w e ∙ encode_bytes_one val p) (rw (decode_one val r rest p))
  | two p _ w ↦ rw (encode_ok val 2 len w e ∙ encode_bytes_two val p) (rw (decode_two val r rest p))
  | three p _ w ↦
      rw (encode_ok val 3 len w e ∙ encode_bytes_three val p) (rw (decode_three val r rest p))
  | four p _ w ↦
      rw (encode_ok val 4 len w e ∙ encode_bytes_four val (omega arith))
        (rw (decode_four val r rest (omega arith)))
]
