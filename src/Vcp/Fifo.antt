-- ===== src/Vcp/Fifo.antt =====
-- The ring buffer of Zephyr as an interface: its operations, and what its documents promise.
use riceprobe.Base.{
  length-take, ℕ, zero, suc, ◌+◌, ◌-◌, ◌≤◌, ◌≡◌, refl, ap, arith, min, List, [], ◌∷◌, ◌++◌, length,
  take, drop, le→leb, ltb, Bool, false, ◌==◌,
}
use riceprobe.Base.Int.{ℤ, pos}
use riceprobe.Zephyr.Ring
use riceprobe.Zephyr.Ring.{Ring, overwrite, cells}

-- `ring_buf_put_claim` gives the room and where it is, `store` writes there.
pub record Ops (R : Type 0) : Type 0 where
  pub reset : R → R
  pub put_claim : R → ℕ → (ℕ × ℕ) × R
  pub store : R → ℕ → List ℕ → R
  pub put_finish : R → ℕ → ℤ × R
  pub get_claim : R → ℕ → List ℕ × R
  pub get_finish : R → ℕ → ℤ × R
  pub is_empty : R → Bool

-- The bytes that are held, oldest first, and how many of these are claimed by the reader. Bytes that fit
-- into a claim and are finished stand behind those that were held; a claim of the reader shows the oldest
-- ones and changes nothing else, and a finish of the reader takes as many as it is told, if they were
-- claimed. The side that is not concerned keeps its claim.
pub record Laws {R : Type 0} (ops : Ops R) : Type 1 where
  pub IsIdle : R → Type 0
  pub held : R → List ℕ
  pub taken : R → ℕ
  pub resets : (r : R) → IsIdle (ops.reset r)
  pub empties : (r : R) → held (ops.reset r) ≡ []
  pub releases : (r : R) → taken (ops.reset r) ≡ 0
  pub puts :
      (n : ℕ) (xs : List ℕ) (r : R)
      → IsIdle r
      → length xs ≤ (ops.put_claim r n).0.0
      → ((ops.put_finish (ops.store (ops.put_claim r n).1 (ops.put_claim r n).0.1 xs) (length xs)).0
          ≡ pos 0)
        × (IsIdle
              (ops.put_finish
                (ops.store (ops.put_claim r n).1 (ops.put_claim r n).0.1 xs)
                (length xs)).1
            × ((held
                    (ops.put_finish
                      (ops.store (ops.put_claim r n).1 (ops.put_claim r n).0.1 xs)
                      (length xs)).1
                  ≡ held r ++ xs)
                × (taken
                      (ops.put_finish
                        (ops.store (ops.put_claim r n).1 (ops.put_claim r n).0.1 xs)
                        (length xs)).1
                    ≡ taken r)))
  pub refuses :
      (n : ℕ) (r : R)
      → IsIdle r
      → (ops.put_claim r n).0.0 ≡ 0
      → IsIdle (ops.put_claim r n).1
        × ((held (ops.put_claim r n).1 ≡ held r) × (taken (ops.put_claim r n).1 ≡ taken r))
  pub shows :
      (n : ℕ) (r : R)
      → IsIdle r
      → taken r ≡ 0
      → ((ops.get_claim r n).0 ≡ take (length (ops.get_claim r n).0) (held r))
        × (IsIdle (ops.get_claim r n).1
            × ((held (ops.get_claim r n).1 ≡ held r)
                × (taken (ops.get_claim r n).1 ≡ length (ops.get_claim r n).0)))
  pub takes :
      (n : ℕ) (r : R)
      → IsIdle r
      → n ≤ taken r
      → ((ops.get_finish r n).0 ≡ pos 0)
        × (IsIdle (ops.get_finish r n).1
            × ((held (ops.get_finish r n).1 ≡ drop n (held r))
                × (taken (ops.get_finish r n).1 ≡ 0)))

abbrev pub ring_ops : Ops Ring
ring_ops = record {
  reset = Ring.reset;
  put_claim = Ring.put_claim;
  store = Ring.store;
  put_finish = Ring.put_finish;
  get_claim = Ring.get_claim;
  get_finish = Ring.get_finish;
  is_empty = λ r. length r.bytes == 0;
}

pub cells-length : (stale : ℕ → ℕ) (at n : ℕ) → length (cells stale at n) ≡ n
cells-length stale at zero = refl
cells-length stale at (suc n) = ap suc (cells-length stale (at + 1) n)

-- What was written over cells is in front of them.
pub overwrite-front :
    (cs xs : List ℕ) → length xs ≤ length cs → take (length xs) (overwrite cs 0 xs) ≡ xs
overwrite-front cs [] h = refl
overwrite-front [] (x ∷ xs) h = ground arith
overwrite-front (c ∷ cs) (x ∷ xs) h = ap (λ ys. x ∷ ys) (overwrite-front cs xs (omega (arith, h)))

pub overwrite-length : (cs xs : List ℕ) (at : ℕ) → length (overwrite cs at xs) ≡ length cs
overwrite-length [] xs at = refl
overwrite-length (c ∷ cs) [] zero = refl
overwrite-length (c ∷ cs) (x ∷ xs) zero = ap suc (overwrite-length cs xs zero)
overwrite-length (c ∷ cs) xs (suc at) = ap suc (overwrite-length cs xs at)

abbrev IsUnclaimed : Ring → Type 0
IsUnclaimed r = r.claimed ≡ []

cells_none :
    (cs : List ℕ) (stale : ℕ → ℕ) (at k : ℕ) → cs ≡ [] → k ≡ 0 → cs ++ cells stale at k ≡ []
cells_none cs stale at k none h = rw (none, h) refl

not_below : (n : ℕ) → ltb n n ≡ false
not_below n = ground arith

nothing_left : (n : ℕ) → n - n ≡ 0
nothing_left n = omega arith

-- Bytes that fit into what was claimed.
put_back :
    (r : Ring) (cs xs : List ℕ)
    → length xs ≤ length cs
    → Ring.put_finish (Ring.store (record r { claimed = cs }) (length r.bytes) xs) (length xs)
      ≡ (pos 0, record r { bytes = r.bytes ++ xs; claimed = [] })
put_back r cs xs h =
    rw
      (
        not_below (length r.bytes),
        nothing_left (length r.bytes),
        le→leb (length xs) (length (overwrite cs 0 xs)) (rw (overwrite-length cs xs 0) h),
        overwrite-front cs xs h,
      )
      refl

plus_none : (n : ℕ) → n + 0 ≡ n
plus_none n = omega arith

put_claimed :
    (r : Ring) (c : List ℕ) (stale : ℕ → ℕ) (at k : ℕ) (xs : List ℕ)
    → c ≡ []
    → length xs ≤ k
    → Ring.put_finish
        (Ring.store (record r { claimed = c ++ cells stale at k }) (length r.bytes + length c) xs)
        (length xs)
      ≡ (pos 0, record r { bytes = r.bytes ++ xs; claimed = [] })
put_claimed r c stale at k xs none h =
    rw (none, plus_none (length r.bytes))
      (put_back r (cells stale at k) xs (rw (cells-length stale at k) h))

pub ring-puts :
    (n : ℕ) (xs : List ℕ) (r : Ring)
    → IsUnclaimed r
    → length xs ≤ (Ring.put_claim r n).0.0
    → Ring.put_finish (Ring.store (Ring.put_claim r n).1 (Ring.put_claim r n).0.1 xs) (length xs)
      ≡ (pos 0, record r { bytes = r.bytes ++ xs; claimed = [] })
ring-puts n xs r h fits = put_claimed r r.claimed r.stale _ _ xs h fits

take_shown : (k : ℕ) (ys : List ℕ) → take k ys ≡ take (length (take k ys)) ys
take_shown zero ys = refl
take_shown (suc k) [] = refl
take_shown (suc k) (y ∷ ys) = ap (λ zs. y ∷ zs) (take_shown k ys)

pub shown_first :
    (k t : ℕ) (ys : List ℕ)
    → t ≡ 0
    → (take k (drop t ys) ≡ take (length (take k (drop t ys))) ys)
      × (t + min k (length (drop t ys)) ≡ length (take k (drop t ys)))
shown_first k t ys h = rw h (take_shown k ys, omega (arith, length-take k ys))

pub ring-Laws : Laws ring_ops
ring-Laws = record {
  IsIdle = IsUnclaimed;
  held = λ r. r.bytes;
  taken = λ r. r.taken;
  resets = λ r. refl;
  empties = λ r. refl;
  releases = λ r. refl;
  puts = λ n xs r h fits. rw (ring-puts n xs r h fits) (refl, (refl, (refl, refl)));
  refuses = λ n r h none. (cells_none r.claimed r.stale _ _ h none, (refl, refl));
  shows = λ n r h free.
      ((shown_first _ r.taken r.bytes free).0, (h, (refl, (shown_first _ r.taken r.bytes free).1)));
  takes = λ n r h claimed. rw (le→leb n r.taken claimed) (refl, (h, (refl, refl)));
}
