-- ===== src/Dap/Swo/Count.antt =====
-- The room for the count in the answer to a request for trace data (firmware/src/dap/commands_swo.c).
use riceprobe.Base.{
  ℕ, ◌+◌, ◌-◌, ◌%◌, ◌≤◌, ◌<◌, ◌≡◌, refl, ap, ◌∙◌, arith, min, true, List, [], ◌∷◌, ◌++◌, length,
  length-append, take, append_assoc, ltb, ◌==◌, ◌⊎◌, inl, inr, Bool-cases,
}
use mathlib.Core.Path.{ap₂}
use native.Mathlib.Nat.{mod-eq_of_lt}
use riceprobe.Base.Bits.{le16}
use riceprobe.Zephyr.Ring
use riceprobe.Zephyr.Ring.{Ring, overwrite}
use riceprobe.Zephyr.Bench.{Bench}
use riceprobe.Vcp.Fifo.{overwrite-length}

-- A bench whose response buffer holds these bytes.
abbrev pub holding : Bench → List ℕ → Bench
holding w ys = record w { response_ring = record w.response_ring { bytes = ys; claimed = [] } }

take_whole : (xs : List ℕ) → take (length xs) xs ≡ xs
take_whole [] = refl
take_whole (x ∷ xs) = ap (λ ys. x ∷ ys) (take_whole xs)

min_first : (a b : ℕ) → a ≤ b → min a b ≡ a
min_first a b h = omega arith

pub put_all :
    (xs : List ℕ) (r : Ring)
    → length xs ≤ Ring.free r
    → Ring.put r xs ≡ (length xs, record r { bytes = r.bytes ++ xs; claimed = [] })
put_all xs r fits = rw (min_first (length xs) (Ring.free r) fits, take_whole xs) refl

pub same_number : (n : ℕ) → (n == n) ≡ true
same_number n = ground arith

zero_plus : (n : ℕ) → 0 + n ≡ n
zero_plus n = omega arith

at_tail : (head used cap : ℕ) → head ≡ 0 → used < cap → (head + used) % cap ≡ used
at_tail head used cap h fits = rw (h, zero_plus used) (mod-eq_of_lt fits)

two_granted : (free rest : ℕ) → 2 ≤ free → 2 ≤ rest → min 2 (min free rest) ≡ 2
two_granted free rest h k = omega arith

-- The room for the count: the claim of a buffer that starts at its first cell grants it.
pub two_claimed :
    (r : Ring)
    → r.claimed ≡ []
    → r.head ≡ 0
    → 2 + length r.bytes ≤ r.cap
    → Ring.put_claim r 2 ≡ (
      (2, length r.bytes),
      record r { claimed = r.stale (length r.bytes) ∷ r.stale (length r.bytes + 1) ∷ [] },
    )
two_claimed r none front fits =
    rw
      (
        none,
        plus_none (length r.bytes),
        at_tail r.head (length r.bytes) r.cap front (omega (arith, fits)),
        two_granted (r.cap - length r.bytes - 0) (r.cap - length r.bytes) (omega (arith, fits))
            (omega (arith, fits)),
      )
      refl
  where
    plus_none : (n : ℕ) → n + 0 ≡ n
    plus_none n = omega arith

overwrite-none : (xs : List ℕ) → overwrite xs 0 [] ≡ xs
overwrite-none [] = refl
overwrite-none (x ∷ xs) = refl

-- Two bytes written over those that were left for them.
overwrite-two :
    (pre post : List ℕ) (a b x y : ℕ)
    → overwrite ((pre ++ (a ∷ b ∷ [])) ++ post) (length pre) (x ∷ y ∷ [])
      ≡ pre ++ ((x ∷ y ∷ []) ++ post)
overwrite-two [] post a b x y = ap (λ xs. x ∷ y ∷ xs) (overwrite-none post)
overwrite-two (p ∷ pre) post a b x y = ap (λ xs. p ∷ xs) (overwrite-two pre post a b x y)

below : (a b : ℕ) → a < b → ltb a b ≡ true
below a b h = ground arith

longer : (pre post : List ℕ) (a b : ℕ) → length pre < length ((pre ++ (a ∷ b ∷ [])) ++ post)
longer pre post a b =
    omega (arith, length-append (pre ++ (a ∷ b ∷ [])) post, length-append pre (a ∷ b ∷ []))

stored :
    (r : Ring) (pre post : List ℕ) (a b x y : ℕ)
    → r.bytes ≡ (pre ++ (a ∷ b ∷ [])) ++ post
    → (Ring.store r (length pre) (x ∷ y ∷ [])).bytes ≡ pre ++ ((x ∷ y ∷ []) ++ post)
stored r pre post a b x y h =
    rw (h, below (length pre) _ (longer pre post a b)) (overwrite-two pre post a b x y)

stored-free : (r : Ring) (at : ℕ) (xs : List ℕ) → Ring.free (Ring.store r at xs) ≡ Ring.free r
stored-free r at xs = elim (Bool-cases (ltb at (length r.bytes))) [
  | inl e ↦ rw (e, overwrite-length r.bytes xs at) refl
  | inr e ↦ rw (e, overwrite-length r.claimed xs (at - length r.bytes)) refl
]

same_bytes : (n : ℕ) → le16 ((0 + n) % 0x10000) ≡ le16 n
same_bytes n = ap₂ (λ a b. a ∷ b ∷ []) (omega arith) (omega arith)

-- The response with the count in its place.
pub answered :
    (bs xs : List ℕ) (r : Ring) (n status a b : ℕ)
    → r.bytes ≡ (((bs ++ (0x1c ∷ [])) ++ (status ∷ [])) ++ (a ∷ b ∷ [])) ++ xs
    → (Ring.store r
        (length ((bs ++ (0x1c ∷ [])) ++ (status ∷ [])))
        (le16 ((0 + n) % 0x10000))).bytes
      ≡ bs ++ (0x1c ∷ status ∷ (le16 n ++ xs))
answered bs xs r n status a b h =
    stored r ((bs ++ (0x1c ∷ [])) ++ (status ∷ [])) xs a b _ _ h
    ∙ (ap (λ count. ((bs ++ (0x1c ∷ [])) ++ (status ∷ [])) ++ (count ++ xs)) (same_bytes n)
        ∙ (append_assoc (bs ++ (0x1c ∷ [])) (status ∷ []) (le16 n ++ xs)
            ∙ append_assoc bs (0x1c ∷ []) (status ∷ (le16 n ++ xs))))

pub length-head : (bs : List ℕ) (a b : ℕ) → length ((bs ++ (a ∷ [])) ++ (b ∷ [])) ≡ 2 + length bs
length-head bs a b =
    omega (arith, length-append (bs ++ (a ∷ [])) (b ∷ []), length-append bs (a ∷ []))

pub as_full :
    (max n at : ℕ) (xs ys : List ℕ) (r : Ring)
    → (max ≤ (0 + n) % 0x10000) ⊎ ((length xs ≡ 0) ⊎ (Ring.free r ≡ 0))
    → (max ≤ n % 0x10000) ⊎ ((length xs ≡ 0) ⊎ (Ring.free (Ring.store r at ys) ≡ 0))
as_full max n at xs ys r (inl h) = inl (omega (arith, h))
as_full max n at xs ys r (inr (inl h)) = inr (inl h)
as_full max n at xs ys r (inr (inr h)) = inr (inr (stored-free r at ys ∙ h))
