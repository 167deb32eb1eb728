-- ===== src/Utf8.antt =====
-- firmware/src/utf8.c: code points to bytes and back. A NULL pointer is `none`; a buffer to write is
-- its size, and the result is the bytes written to its front.
pub mod RoundTrip
pub mod Bounds
pub mod Rbuf
pub mod Lengths
mod Tests
use riceprobe.Base.{
  ℕ, zero, suc, ◌+◌, ◌-◌, ◌*◌, ◌%◌, ◌^◌, bit_and, bit_or, Bool, true, false, Option, none, some,
  List, [], ◌∷◌, length, ltb, leb, ◌==◌, ◌/=◌, if◌then◌else◌,
}
use riceprobe.Base.Bits.{low_bits, shr}
use riceprobe.Errno.{Errno, einval, enobufs, enodata, Result, ok, err}

-- How many bytes a code point takes; `none` for `-EINVAL`.
unfoldable pub encoded_len : ℕ → Option ℕ
encoded_len val =
    if leb val 0x7f
    then some 1
    else if leb val 0x7ff
    then some 2
    else if leb val 0xffff
    then some 3
    else if leb val 0x10ffff
    then some 4
    else none

-- `(uint8_t) (0xff << (8 - nbytes) | top)`, where `top` is `val >> shift`.
unfoldable pub lead_byte : ℕ → ℕ → ℕ
lead_byte nbytes top = bit_or (0xff * 2 ^ (8 - nbytes)) top % 256

-- `(uint8_t) (0x80 | low)`, where `low` is six bits of the value.
unfoldable pub continuation_byte : ℕ → ℕ
continuation_byte low = bit_or 0x80 low % 256

-- The loop of `utf8_encode` with `left` bytes to go: `shift - 6 * i` is `6 * (left - 1)`.
unfoldable pub continuation_bytes : ℕ → ℕ → List ℕ
unfolding continuation_byte
continuation_bytes zero val = []
continuation_bytes (suc left) val =
    continuation_byte (low_bits (shr val (6 * left)) 6) ∷ continuation_bytes left val

unfoldable pub encode_bytes : ℕ → ℕ → List ℕ
unfolding lead_byte continuation_bytes
encode_bytes nbytes val =
    if nbytes == 1
    then val % 256 ∷ []
    else lead_byte nbytes (shr val ((nbytes - 1) * 6)) ∷ continuation_bytes (nbytes - 1) val

-- `utf8_encode`: its return value is the length of the bytes.
unfoldable pub encode : ℕ → Option ℕ → Result (List ℕ)
unfolding encoded_len encode_bytes
encode val buf = elim (encoded_len val) [
  | none ↦ err einval
  | some nbytes ↦ elim buf [
    | none ↦ err enobufs
    | some buf_len ↦ if ltb buf_len nbytes then err enobufs else ok (encode_bytes nbytes val)
  ]
]

-- The first byte: how many bytes follow it and itself, and the bits that it carries.
unfoldable pub lead : ℕ → Option (ℕ × ℕ)
lead b =
    if leb b 0x7f
    then some (1, b)
    else if bit_and b 0xe0 == 0xc0
    then some (2, bit_and b 0x1f)
    else if bit_and b 0xf0 == 0xe0
    then some (3, bit_and b 0x0f)
    else if bit_and b 0xf8 == 0xf0
    then some (4, bit_and b 0x07)
    else none

-- The loop of `utf8_decode` with `left` bytes to go: whether it ended, and `*result`.
unfoldable pub decode_tail : ℕ → List ℕ → ℕ → Bool × ℕ
decode_tail zero bytes result = (true, result)
decode_tail (suc left) [] result = (false, result)
decode_tail (suc left) (b ∷ bytes) result =
    let rest = decode_tail left bytes (bit_or (result * 64 % 2 ^ 32) (bit_and b 0x3f)) in
    if bit_and b 0xc0 /= 0x80 then (false, result) else rest

-- `utf8_decode` on a buffer and a `*result`: what it returns, and what is left in `*result`.
unfoldable pub decode_into : List ℕ → ℕ → Result ℕ × ℕ
unfolding lead decode_tail
decode_into [] result = (err enodata, result)
decode_into (b ∷ bytes) result = elim (lead b) [
  | none ↦ (err einval, result)
  | some (nbytes, start) ↦
      if ltb (suc (length bytes)) nbytes
      then (err enodata, result)
      else let (done, out) = decode_tail (nbytes - 1) bytes start in
        (if done then ok nbytes else err einval, out)
]

-- `utf8_decode`.
pub decode : Option (List ℕ) → Option ℕ → Result ℕ × Option ℕ
decode none result = (err enodata, result)
decode (some buf) none = (err enodata, none)
decode (some buf) (some result) = let (ret, out) = decode_into buf result in (ret, some out)
