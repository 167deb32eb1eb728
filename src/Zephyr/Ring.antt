-- ===== src/Zephyr/Ring.antt =====
-- A ring buffer as Zephyr documents it, to play the firmware's code against: `get` and `put` move as
-- many bytes as there are and as fit, a claim shows or grants what lies in one piece before the end of
-- the storage, and a finish takes over no more than was claimed.
use riceprobe.Base.{
  ℕ, zero, suc, ◌+◌, ◌-◌, ◌%◌, min, List, [], ◌∷◌, ◌++◌, length, take, drop, leb, ltb,
  if◌then◌else◌,
}
use riceprobe.Base.Int.{ℤ, pos, negsuc}

pub record Ring : Type 0 where
  pub cap : ℕ
  -- where the oldest byte lies
  pub head : ℕ
  -- the bytes held, oldest first
  pub bytes : List ℕ
  -- how many of these are claimed for reading
  pub taken : ℕ
  -- the bytes claimed for writing, which follow those held
  pub claimed : List ℕ
  -- what a cell of the storage holds before it is written
  pub stale : ℕ → ℕ

abbrev pub free : Ring → ℕ
free r = r.cap - length r.bytes - length r.claimed

abbrev pub get : Ring → ℕ → List ℕ × Ring
get r n =
    let k = min n (length r.bytes) in
    (take n r.bytes, record r { bytes = drop n r.bytes; head = (r.head + k) % r.cap; taken = 0 })

abbrev pub put : Ring → List ℕ → ℕ × Ring
put r xs =
    let k = min (length xs) (free r) in (k, record r { bytes = r.bytes ++ take k xs; claimed = [] })

abbrev pub get_claim : Ring → ℕ → List ℕ × Ring
get_claim r n =
    let rest = drop r.taken r.bytes in
    let k = min n (r.cap - (r.head + r.taken) % r.cap) in
    (take k rest, record r { taken = r.taken + min k (length rest) })

abbrev pub get_finish : Ring → ℕ → ℤ × Ring
get_finish r n =
    if leb n r.taken
    then (pos 0, record r { bytes = drop n r.bytes; head = (r.head + n) % r.cap; taken = 0 })
    else (negsuc 21, r)

abbrev pub cells : (ℕ → ℕ) → ℕ → ℕ → List ℕ
cells stale at zero = []
cells stale at (suc n) = stale at ∷ cells stale (at + 1) n

-- The pointer is the distance from the oldest byte.
abbrev pub put_claim : Ring → ℕ → (ℕ × ℕ) × Ring
put_claim r n =
    let used = length r.bytes + length r.claimed in
    let tail = (r.head + used) % r.cap in
    let k = min n (min (free r) (r.cap - tail)) in
    ((k, used), record r { claimed = r.claimed ++ cells r.stale tail k })

abbrev pub put_finish : Ring → ℕ → ℤ × Ring
put_finish r n =
    if leb n (length r.claimed)
    then (pos 0, record r { bytes = r.bytes ++ take n r.claimed; claimed = [] })
    else (negsuc 21, r)

-- Bytes written over those from an index on.
abbrev pub overwrite : List ℕ → ℕ → List ℕ → List ℕ
overwrite [] at xs = []
overwrite (b ∷ bs) zero [] = b ∷ bs
overwrite (b ∷ bs) zero (x ∷ xs) = x ∷ overwrite bs zero xs
overwrite (b ∷ bs) (suc at) xs = b ∷ overwrite bs at xs

abbrev pub store : Ring → ℕ → List ℕ → Ring
store r at xs =
    if ltb at (length r.bytes)
    then record r { bytes = overwrite r.bytes at xs }
    else record r { claimed = overwrite r.claimed (at - length r.bytes) xs }

abbrev pub reset : Ring → Ring
reset r = record r { bytes = []; head = 0; taken = 0; claimed = [] }

-- The bytes from an index on, those held before those claimed.
abbrev pub load : Ring → ℕ → ℕ → List ℕ
load r at n = take n (drop at (r.bytes ++ r.claimed))

abbrev first_or_zero : List ℕ → ℕ
first_or_zero [] = 0
first_or_zero (b ∷ bs) = b

abbrev pub peek : Ring → ℕ → ℕ
peek r at = first_or_zero (load r at 1)
