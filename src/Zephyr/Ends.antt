-- ===== src/Zephyr/Ends.antt =====
-- Code that comes to an end: it never runs out of the rounds that its loops are given, if the request
-- buffer and the clock behave as Zephyr documents them.
use riceprobe.Base.{ℕ, ◌+◌, ◌≤◌, ◌<◌, ◌≡◌, refl, arith, Bool, true, false, if◌then◌else◌, length}
use riceprobe.Errno.{Errno}
use riceprobe.Zephyr.{
  Call, Answer, request, buf_put, buf_put_finish, buf_get_claim, buf_get_finish, sleep_ms,
  timepoint_ms, expired,
}
use riceprobe.Zephyr.Prog.{
  Server, then_do, run, Outcome, ok, err, oops, no_fuel, M, pure, fail, gets, ask, modify, require,
  go_on, ◌>>=◌,
}
use riceprobe.Zephyr.Run.{run-then_do}

-- A call that puts nothing into the request buffer.
abbrev pub IsCalm : Call → Type 0
IsCalm (buf_put request xs) = ⊥
IsCalm (buf_put_finish request n) = ⊥
IsCalm _ = Unit {0}

-- What the documents promise of the request buffer and of the clock: no calm call adds to the bytes that
-- are left, a finish takes what it is told of a claim, time does not go back, a sleep lasts as long as it
-- is told at least, a timepoint is no later than asked for, and it has expired once that time is there.
pub record Laws {W : Type 0} (server : Server W) : Type 0 where
  pub left : W → ℕ
  pub now : W → ℕ
  pub calm : (c : Call) (w : W) → IsCalm c → left (server c w).1 ≤ left w
  pub takes :
      (n k : ℕ) (w : W)
      → k ≤ length (server (buf_get_claim request n) w).0
      → left (server (buf_get_finish request k) (server (buf_get_claim request n) w).1).1 + k
        ≤ left w
  pub goes_on : (c : Call) (w : W) → now w ≤ now (server c w).1
  pub sleeps : (n : ℕ) (w : W) → now w + n ≤ now (server (sleep_ms n) w).1
  pub ends_at : (n : ℕ) (w : W) → (server (timepoint_ms n) w).0 ≤ now w + n
  pub expires : (t : ℕ) (w : W) → t ≤ now w → (server (expired t) w).0 ≡ true

abbrev pub IsDone : {A : Type 0} → Outcome A → Type 0
IsDone no_fuel = ⊥
IsDone _ = Unit {0}

-- `m` ends from this state, and leaves no more in the request buffer than there was.
pub record EndsAt {S A W : Type 0} (server : Server W) (laws : Laws server) (m : M S A) (s : S)
    (w : W) : Type 0 where
  pub done : IsDone (run server (m s) w).0.0
  pub fits : laws.left (run server (m s) w).1 ≤ laws.left w

-- `m` ends from every state.
pub record Ends {S A W : Type 0} (server : Server W) (laws : Laws server) (m : M S A) : Type 0 where
  pub at : (s : S) (w : W) → EndsAt server laws m s w

module _ {S A W : Type 0} {server : Server W} {laws : Laws server} where
  pub Ends-gets : (read : S → A) → Ends server laws (gets read)
  unfolding gets
  Ends-gets read = record { at = λ s w. record { done = tt; fits = omega arith } }

  pub Ends-pure : (a : A) → Ends {S = S} server laws (pure a)
  unfolding pure
  Ends-pure a = record { at = λ s w. record { done = tt; fits = omega arith } }

  pub Ends-fail : (e : Errno) → Ends {S = S} {A = A} server laws (fail e)
  unfolding fail
  Ends-fail e = record { at = λ s w. record { done = tt; fits = omega arith } }

  pub Ends-if :
      (b : Bool) {m n : M S A}
      → Ends server laws m
      → Ends server laws n
      → Ends server laws (if b then m else n)
  Ends-if true em en = em
  Ends-if false em en = en

  pub Ends-elim :
      (b : Bool) {m n : M S A}
      → Ends server laws m
      → Ends server laws n
      → Ends server laws (elim b [ true ↦ m | false ↦ n ])
  Ends-elim true em en = em
  Ends-elim false em en = en

module _ {S W : Type 0} {server : Server W} {laws : Laws server} where
  pub Ends-ask : (c : Call) → IsCalm c → Ends {S = S} server laws (ask c)
  unfolding ask
  Ends-ask c calm = record { at = λ s w. record { done = tt; fits = laws.calm c w calm } }

  pub Ends-modify : (f : S → S) → Ends server laws (modify f)
  unfolding modify
  Ends-modify f = record { at = λ s w. record { done = tt; fits = omega arith } }

  pub Ends-require : (b : Bool) (e : Errno) → Ends {S = S} server laws (require b e)
  unfolding require
  Ends-require true e = Ends-pure tt
  Ends-require false e = Ends-fail e

module _ {S A B W : Type 0} (server : Server W) (laws : Laws server) where
  Ends-go_on :
      (f : A → M S B) (x : Outcome A × S) (w : W) (n : ℕ)
      → IsDone x.0
      → laws.left w ≤ n
      → ((a : A) → x.0 ≡ ok a → EndsAt server laws (f a) x.1 w)
      → IsDone (run server (go_on f x) w).0.0 × (laws.left (run server (go_on f x) w).1 ≤ n)
  Ends-go_on f (ok a, s) w n done fits k = ((k a refl).done, omega (arith, (k a refl).fits))
  Ends-go_on f (err e, s) w n done fits k = (tt, fits)
  Ends-go_on f (oops, s) w n done fits k = (tt, fits)
  Ends-go_on f (no_fuel, s) w n done fits k = absurd done

  -- What follows `m` may rest on the result of `m` from this state.
  pub EndsAt-bind :
      (m : M S A) (f : A → M S B) (s : S) (w : W)
      → EndsAt server laws m s w
      → ((a : A)
          → (run server (m s) w).0.0 ≡ ok a
          → EndsAt server laws (f a) (run server (m s) w).0.1 (run server (m s) w).1)
      → EndsAt server laws (m >>= f) s w
  unfolding ◌>>=◌
  EndsAt-bind m f s w em ef = record { done = after.0; fits = after.1 }
    where
      after :
          IsDone (run server (then_do (m s) (go_on f)) w).0.0
          × (laws.left (run server (then_do (m s) (go_on f)) w).1 ≤ laws.left w)
      after = rw (run-then_do server (m s) (go_on f) w) (
          Ends-go_on f (run server (m s) w).0 (run server (m s) w).1 (laws.left w) em.done em.fits
            ef)

module _ {S A W : Type 0} (server : Server W) (laws : Laws server) where
  pub EndsAt-ask :
      (c : Call) (f : Answer c → M S A) (s : S) (w : W)
      → IsCalm c
      → EndsAt server laws (f (server c w).0) s (server c w).1
      → EndsAt server laws (ask c >>= f) s w
  unfolding ◌>>=◌
  EndsAt-ask c f s w calm e = record {
    done = e.done;
    fits = omega (arith, e.fits, laws.calm c w calm);
  }

  pub EndsAt-pure : (a : A) (s : S) (w : W) → EndsAt server laws (pure a) s w
  unfolding pure
  EndsAt-pure a s w = record { done = tt; fits = omega arith }

  pub EndsAt-test :
      (b : Bool) (m n : M S A) (s : S) (w : W)
      → (b ≡ true → EndsAt server laws m s w)
      → (b ≡ false → EndsAt server laws n s w)
      → EndsAt server laws (elim b [ true ↦ m | false ↦ n ]) s w
  EndsAt-test true m n s w em en = em refl
  EndsAt-test false m n s w em en = en refl

module _ {S A B W : Type 0} {server : Server W} {laws : Laws server} where
  pub Ends-bind :
      {m : M S A} {f : A → M S B}
      → Ends server laws m
      → ((a : A) → Ends server laws (f a))
      → Ends server laws (m >>= f)
  Ends-bind {m} {f} em ef = record {
    at = λ s w. EndsAt-bind server laws m f s w (em.at s w) (λ a same. (ef a).at _ _);
  }

-- `m` ends where less than `n` bytes are left.
pub record EndsUnder {S A W : Type 0} (server : Server W) (laws : Laws server) (n : ℕ) (m : M S A)
    : Type 0 where
  pub at : (s : S) (w : W) → laws.left w < n → EndsAt server laws m s w

module _ {S A B W : Type 0} {server : Server W} {laws : Laws server} {n : ℕ} where
  pub EndsUnder-bind :
      {m : M S A} {f : A → M S B}
      → Ends server laws m
      → ((a : A) → EndsUnder server laws n (f a))
      → EndsUnder server laws n (m >>= f)
  EndsUnder-bind {m} {f} em ef = record {
    at = λ s w few.
        EndsAt-bind server laws m f s w (em.at s w)
          (λ a same. (ef a).at _ _ (under _ _ (em.at s w).fits few));
  }
    where
      under : (l k : ℕ) → l ≤ k → k < n → l < n
      under l k le lt = omega arith

module _ {S A W : Type 0} {server : Server W} {laws : Laws server} {n : ℕ} where
  pub EndsUnder-elim :
      (b : Bool) {m k : M S A}
      → EndsUnder server laws n m
      → EndsUnder server laws n k
      → EndsUnder server laws n (elim b [ true ↦ m | false ↦ k ])
  EndsUnder-elim true em ek = em
  EndsUnder-elim false em ek = ek

  pub EndsUnder-Ends : {m : M S A} → Ends server laws m → EndsUnder server laws n m
  EndsUnder-Ends em = record { at = λ s w few. em.at s w }

pub ruleset ends_rules = (
  Ends-pure, Ends-fail, Ends-gets, Ends-if, Ends-elim, Ends-require, Ends-modify, Ends-bind,
  Ends-ask,
)
