-- ===== src/Utf8/Tests.antt =====
-- firmware/src/utf8.c on concrete code points.
use riceprobe.Base.{ℕ, ◌≡◌, refl, ◌≤◌, arith, ◌<◌, ◌++◌, List, [], ◌∷◌, length, some}
use riceprobe.Errno.{einval, ok, err}
use riceprobe.Utf8.{
  encode, encoded_len, encode_bytes, lead_byte, continuation_bytes, continuation_byte, decode,
  decode_into, lead, decode_tail,
}
use riceprobe.Utf8.Bounds.{encode_lem, Encodes}
use riceprobe.Utf8.RoundTrip.{decode-encode}

-- U+20AC, the euro sign.
abbrev euro_bytes : List ℕ
euro_bytes = 0xe2 ∷ 0x82 ∷ 0xac ∷ []

euro : encode 0x20ac (some 4) ≡ ok (0xe2 ∷ 0x82 ∷ 0xac ∷ [])
unfolding encode encoded_len encode_bytes lead_byte continuation_bytes continuation_byte
euro = refl

-- An overlong NUL is read as 0.
overlong : decode (some (0xc0 ∷ 0x80 ∷ [])) (some 7) ≡ (ok 2, some 0)
unfolding decode decode_into lead decode_tail
overlong = refl

-- A byte that does not continue the sequence.
broken : decode (some (0xe2 ∷ 0x82 ∷ 0x41 ∷ [])) (some 7) ≡ (err einval, some 0x82)
unfolding decode decode_into lead decode_tail
broken = refl

decode-encode_example :
    decode (some (euro_bytes ++ (0x41 ∷ []))) (some 7) ≡ (ok (length euro_bytes), some 0x20ac)
decode-encode_example = decode-encode 0x20ac 4 (0x41 ∷ []) 7 (omega arith) euro

encode_lem_example :
    (0x10ffff < 0x1f600 → encode 0x1f600 (some 3) ≡ err einval)
    × (0x1f600 ≤ 0x10ffff → (n : ℕ) × (1 ≤ n) × Encodes 0x1f600 n)
encode_lem_example = encode_lem 0x1f600 (some 3)
