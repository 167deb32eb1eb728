-- ===== src/Vcp/Feed.antt =====
-- The ring buffer of Zephyr as an interface where USB writes to a claim while the other side reads.
use riceprobe.Base.{
  ℕ, ◌≤◌, ◌≡◌, refl, arith, List, [], ◌++◌, length, length-append, take, drop, le→leb,
}
use riceprobe.Base.Int.{pos}
use riceprobe.Zephyr.Ring
use riceprobe.Zephyr.Ring.{Ring, overwrite, cells}
use riceprobe.Vcp.Fifo.{Ops, ring_ops, overwrite-front, overwrite-length, cells-length, shown_first}

-- `arrive` is a write of USB through the pointer of the claim. What the documents promise: a claim is as large as
-- it says, bytes that arrived in it and are finished stand behind those that were held, whatever was read in
-- between; the reader's claims and finishes leave the writer's claim alone.
pub record Feed {R : Type 0} (ops : Ops R) : Type 1 where
  pub arrive : R → List ℕ → R
  pub granted : R → ℕ
  pub held : R → List ℕ
  pub taken : R → ℕ
  pub resets :
      (r : R) → (granted (ops.reset r) ≡ 0) × (held (ops.reset r) ≡ []) × (taken (ops.reset r) ≡ 0)
  pub claims :
      (n : ℕ) (r : R)
      → granted r ≡ 0
      → (granted (ops.put_claim r n).1 ≡ (ops.put_claim r n).0.0)
        × (held (ops.put_claim r n).1 ≡ held r)
        × (taken (ops.put_claim r n).1 ≡ taken r)
  pub delivers :
      (xs : List ℕ) (r : R)
      → length xs ≤ granted r
      → ((ops.put_finish (arrive r xs) (length xs)).0 ≡ pos 0)
        × (granted (ops.put_finish (arrive r xs) (length xs)).1 ≡ 0)
        × (held (ops.put_finish (arrive r xs) (length xs)).1 ≡ held r ++ xs)
        × (taken (ops.put_finish (arrive r xs) (length xs)).1 ≡ taken r)
  pub shows :
      (n : ℕ) (r : R)
      → taken r ≡ 0
      → ((ops.get_claim r n).0 ≡ take (length (ops.get_claim r n).0) (held r))
        × (granted (ops.get_claim r n).1 ≡ granted r)
        × (held (ops.get_claim r n).1 ≡ held r)
        × (taken (ops.get_claim r n).1 ≡ length (ops.get_claim r n).0)
  pub takes :
      (n : ℕ) (r : R)
      → n ≤ taken r
      → ((ops.get_finish r n).0 ≡ pos 0)
        × (granted (ops.get_finish r n).1 ≡ granted r)
        × (held (ops.get_finish r n).1 ≡ drop n (held r))
        × (taken (ops.get_finish r n).1 ≡ 0)

pub delivered :
    (r : Ring) (xs : List ℕ)
    → length xs ≤ length r.claimed
    → Ring.put_finish (record r { claimed = overwrite r.claimed 0 xs }) (length xs)
      ≡ (pos 0, record r { bytes = r.bytes ++ xs; claimed = [] })
delivered r xs h =
    rw
      (
        le→leb (length xs) (length (overwrite r.claimed 0 xs))
            (rw (overwrite-length r.claimed xs 0) h),
        overwrite-front r.claimed xs h,
      )
      refl

pub claimed_length :
    (cs : List ℕ) (stale : ℕ → ℕ) (at k : ℕ) → length cs ≡ 0 → length (cs ++ cells stale at k) ≡ k
claimed_length cs stale at k h =
    omega (arith, length-append cs (cells stale at k), cells-length stale at k, h)

abbrev pub ring-Feed : Feed ring_ops
ring-Feed = record {
  arrive = λ r xs. record r { claimed = overwrite r.claimed 0 xs };
  granted = λ r. length r.claimed;
  held = λ r. r.bytes;
  taken = λ r. r.taken;
  resets = λ r. (refl, refl, refl);
  claims = λ n r h. (claimed_length r.claimed r.stale _ _ h, refl, refl);
  delivers = λ xs r h. rw (delivered r xs h) (refl, refl, refl, refl);
  shows = λ n r free.
      ((shown_first _ r.taken r.bytes free).0, refl, refl, (shown_first _ r.taken r.bytes free).1);
  takes = λ n r claimed. rw (le→leb n r.taken claimed) (refl, refl, refl, refl);
}
