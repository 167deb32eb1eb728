-- ===== src/Util.antt =====
-- firmware/src/util.h: the busy wait, over the readings of the cycle counter.
mod Tests
use riceprobe.Base.{
  ℕ, zero, suc, ◌+◌, ◌-◌, ◌*◌, ◌/◌, ◌%◌, ◌≤◌, ◌<◌, ◌≡◌, refl, ap, arith, Bool, true, false, List,
  [], ◌∷◌, map, Option, none, some, leb, if◌then◌else◌, inl, inr, Bool-cases, All,
}

-- `wait`, a `uint32_t`, for a counter with this many cycles a second.
unfoldable pub wait_cycles : ℕ → ℕ → ℕ
wait_cycles cycles_per_sec nanos = nanos * cycles_per_sec / 1000000000 % 0x100000000

-- `current - start` of two `uint32_t`.
abbrev pub elapsed_cycles : ℕ → ℕ → ℕ
elapsed_cycles current start = (current + 0x100000000 - start) % 0x100000000

abbrev one_more : Option ℕ → Option ℕ
one_more none = none
one_more (some n) = some (suc n)

-- The loop of `busy_wait_nanos` on what `k_cycle_get_32` returns: how many readings lie before the one that
-- ends it; `none` if none of them does.
unfoldable pub busy_loop : ℕ → ℕ → List ℕ → Option ℕ
busy_loop start wait [] = none
busy_loop start wait (current ∷ readings) =
    let rest = one_more (busy_loop start wait readings) in
    if leb wait (elapsed_cycles current start) then some 0 else rest

-- `busy_wait_nanos`
unfoldable pub busy_wait_nanos : ℕ → ℕ → ℕ → List ℕ → Option ℕ
unfolding busy_loop wait_cycles
busy_wait_nanos cycles_per_sec nanos start readings =
    busy_loop start (wait_cycles cycles_per_sec nanos) readings

-- The reference: the first of the times, counted without end, at which `wait` has passed since `begin`.
unfoldable pub first_after : ℕ → ℕ → List ℕ → Option ℕ
first_after begin wait [] = none
first_after begin wait (time ∷ times) =
    let rest = one_more (first_after begin wait times) in
    if leb wait (time - begin) then some 0 else rest

-- The counter's 32 bits.
abbrev pub counter : ℕ → ℕ
counter time = time % 0x100000000

abbrev pub IsNear : ℕ → ℕ → Type 0
IsNear begin time = (begin ≤ time) × (time < begin + 0x100000000)

elapsed_near :
    (begin time : ℕ)
    → IsNear begin time
    → elapsed_cycles (counter time) (counter begin) ≡ time - begin
elapsed_near begin time (before, near) = omega (arith, before, near)

busy_loop_lem :
    (begin wait : ℕ) (times : List ℕ)
    → All (IsNear begin) times
    → busy_loop (counter begin) wait (map counter times) ≡ first_after begin wait times
unfolding busy_loop first_after
busy_loop_lem begin wait [] near = refl
busy_loop_lem begin wait (time ∷ times) near =
    rw (elapsed_near begin time near.0, busy_loop_lem begin wait times near.1) refl

product_fits : (n c : ℕ) → c ≤ 1000000000 → n * c ≤ n * 1000000000
product_fits n c h = grind arith

quotient_fits :
    (p n : ℕ) → p ≤ n * 1000000000 → n < 0x100000000 → p / 1000000000 % 0x100000000 ≡ p / 1000000000
quotient_fits p n h short = omega (arith, h, short)

-- The busy wait is not misled by an overflow of the counter: with readings that are the low 32 bits of the
-- time, taken while less than a whole turn of the counter has passed, it ends at the first reading at
-- which so many cycles have passed as the nanoseconds take, rounded down, and at no other; the counter has
-- at most one cycle in a nanosecond.
pub busy_wait_nanos_lem :
    (cycles_per_sec nanos begin : ℕ) (times : List ℕ)
    → cycles_per_sec ≤ 1000000000
    → nanos < 0x100000000
    → All (IsNear begin) times
    → busy_wait_nanos cycles_per_sec nanos (counter begin) (map counter times)
      ≡ first_after begin (nanos * cycles_per_sec / 1000000000) times
unfolding busy_wait_nanos wait_cycles
busy_wait_nanos_lem cycles_per_sec nanos begin times slow short near =
    rw (quotient_fits (nanos * cycles_per_sec) nanos (product_fits nanos cycles_per_sec slow) short)
      (busy_loop_lem begin (nanos * cycles_per_sec / 1000000000) times near)
