-- ===== src/Zephyr/Prog.antt =====
-- Code that makes calls: a tree whose nodes are the calls and whose branches are the answers. A
-- server answers calls from a state of its own, and `run` plays a tree against one.
use riceprobe.Base.{ℕ, zero, suc, Bool, true, false}
use riceprobe.Errno.{Errno}
use riceprobe.Zephyr.{Call, Answer}

pub data Prog (A : Type 0) : Type 0 where
  ret : A → Prog A
  call : (c : Call) → (Answer c → Prog A) → Prog A

abbrev pub Server : Type 0 → Type 0
Server W = (c : Call) → W → Answer c × W

abbrev pub then_do : {A B : Type 0} → Prog A → (A → Prog B) → Prog B
then_do (ret a) f = f a
then_do (call c k) f = call c (λ r. then_do (k r) f)

abbrev pub run : {W A : Type 0} → Server W → Prog A → W → A × W
run serve (ret a) w = (a, w)
run serve (call c k) w = let (r, w') = serve c w in run serve (k r) w'

-- How a function ends: with a value, with a negative code, in `k_oops()`, which ends the thread, or
-- out of the rounds that the model gives a loop.
pub data Outcome (A : Type 0) : Type 0 where
  ok : A → Outcome A
  err : Errno → Outcome A
  oops : Outcome A
  no_fuel : Outcome A

-- A function that makes calls and changes a state `S` in place: what it wrote before it failed stays
-- written.
abbrev pub M : Type 0 → Type 0 → Type 0
M S A = S → Prog (Outcome A × S)

module _ {S A : Type 0} where
  unfoldable pub pure : A → M S A
  pure a s = ret (ok a, s)

  unfoldable pub fail : Errno → M S A
  fail e s = ret (err e, s)

  unfoldable pub stop : Outcome A → M S A
  stop o s = ret (o, s)

  unfoldable pub gets : (S → A) → M S A
  gets f s = ret (ok (f s), s)

module _ {S : Type 0} where
  unfoldable pub ask : (c : Call) → M S (Answer c)
  ask c s = call c (λ r. ret (ok r, s))

  unfoldable pub modify : (S → S) → M S (Unit {0})
  modify f s = ret (ok tt, f s)

  -- `FATAL_CHECK`
  unfoldable pub fatal_check : Bool → M S (Unit {0})
  unfolding pure stop
  fatal_check true = pure tt
  fatal_check false = stop oops

  -- `if (!test) return -e;`
  unfoldable pub require : Bool → Errno → M S (Unit {0})
  unfolding pure fail
  require true e = pure tt
  require false e = fail e

  -- `if (test) { m }`
  unfoldable pub when : Bool → M S (Unit {0}) → M S (Unit {0})
  unfolding pure
  when true m = m
  when false m = pure tt

module _ {S A B : Type 0} where
  abbrev pub go_on : (A → M S B) → Outcome A × S → Prog (Outcome B × S)
  go_on f (ok a, s) = f a s
  go_on f (err e, s) = ret (err e, s)
  go_on f (oops, s) = ret (oops, s)
  go_on f (no_fuel, s) = ret (no_fuel, s)

  infixl 5 ◌>>=◌
  -- To unfold this is to unfold all of the above.
  unfoldable pub ◌>>=◌ : M S A → (A → M S B) → M S B
  unfolding pure fail stop gets ask modify fatal_check require when
  m >>= f = λ s. then_do (m s) (go_on f)

module _ {S B : Type 0} where
  infixl 5 ◌>>◌
  abbrev pub ◌>>◌ : M S (Unit {0}) → M S B → M S B
  m >> k = m >>= λ _. k

module _ {S : Type 0} where
  -- `for (i = 0; i < n; i++) { m }`
  unfoldable pub repeat : ℕ → M S (Unit {0}) → M S (Unit {0})
  unfolding ◌>>=◌
  repeat zero m = pure tt
  repeat (suc n) m = m >>= λ _. repeat n m
