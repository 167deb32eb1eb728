-- ===== src/Utf8/Lengths.antt =====
-- How many bytes a decoded code point takes from the buffer.
use riceprobe.Base.{
  ℕ, suc, ◌-◌, ◌≤◌, ◌≡◌, refl, arith, Bool, true, false, Option, none, some, List, [], ◌∷◌, length,
  ltb, if◌then◌else◌,
}
use riceprobe.Errno.{Result, ok, err, einval, enodata}
use riceprobe.Utf8.{lead, decode_tail, decode_into}

lead-positive : (b n start : ℕ) → lead b ≡ some (n, start) → 1 ≤ n
unfolding lead
lead-positive b n start h = ground arith

module _ (n k result : ℕ) where
  abbrev Ended : Result ℕ × ℕ → Type 0
  Ended x = x.0 ≡ ok n

  end-length :
      (short done : Bool) (out nbytes : ℕ)
      → (short ≡ false → nbytes ≤ suc k)
      → 1 ≤ nbytes
      → Ended
          (if short then (err enodata, result) else (if done then ok nbytes else err einval, out))
      → (1 ≤ n) × (n ≤ suc k)
  end-length true done out nbytes fits h e = ground arith
  end-length false true out nbytes fits h e = ground arith
  end-length false false out nbytes fits h e = ground arith

  body-length :
      (l : Option (ℕ × ℕ)) (tail : ℕ → ℕ → Bool × ℕ)
      → ((m start : ℕ) → l ≡ some (m, start) → 1 ≤ m)
      → Ended (elim l [
        | none ↦ (err einval, result)
        | some (nbytes, start) ↦
            if ltb (suc k) nbytes
            then (err enodata, result)
            else let (done, out) = tail nbytes start in
              (if done then ok nbytes else err einval, out)
      ])
      → (1 ≤ n) × (n ≤ suc k)
  body-length none tail h e = ground arith
  body-length (some (nbytes, start)) tail h e =
      end-length (ltb (suc k) nbytes) _ _ nbytes (λ long. ground arith) (h nbytes start refl) e

pub decode_into-length :
    (bytes : List ℕ) (result n : ℕ)
    → (decode_into bytes result).0 ≡ ok n
    → (1 ≤ n) × (n ≤ length bytes)
unfolding decode_into
decode_into-length [] result n h = ground arith
decode_into-length (b ∷ bytes) result n h =
    body-length n (length bytes) result (lead b) (λ m start. decode_tail (m - 1) bytes start)
      (lead-positive b) h
