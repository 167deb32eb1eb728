-- ===== src/Zephyr/Obeys.antt =====
-- What holds of every call that a program makes, whatever its calls are answered.
use riceprobe.Base.{◌≡◌, refl, Bool, true, false, if◌then◌else◌, List, [], ◌∷◌}
use riceprobe.Errno.{Errno}
use riceprobe.Zephyr.{Call, Answer}
use riceprobe.Zephyr.Prog.{
  Prog, ret, call, Server, then_do, run, Outcome, ok, err, oops, no_fuel, M, pure, fail, stop, gets,
  ask, modify, fatal_check, require, when, go_on, ◌>>=◌,
}

-- Every way to play the tree makes calls with `Q` only and ends at a value with `P`.
abbrev pub Safely : {A : Type 0} → (Call → Type 0) → (A → Type 0) → Prog A → Type 0
Safely Q P (ret a) = P a
Safely Q P (call c k) = Q c × ((r : Answer c) → Safely Q P (k r))

abbrev pub Every : (Call → Type 0) → List Call → Type 0
Every Q [] = Unit {0}
Every Q (c ∷ cs) = Q c × Every Q cs

-- A server that writes down each call, the last one first.
abbrev pub logged : {W : Type 0} → Server W → Server (W × List Call)
logged s c (w, cs) = let (r, w') = s c w in (r, (w', c ∷ cs))

pub Safely-run :
    {A W : Type 0} (Q : Call → Type 0) (P : A → Type 0) (s : Server W) (p : Prog A) (w : W)
    (cs : List Call)
    → Safely Q P p
    → Every Q cs
    → P (run (logged s) p (w, cs)).0 × Every Q (run (logged s) p (w, cs)).1.1
Safely-run Q P s (ret a) w cs h before = (h, before)
Safely-run Q P s (call c k) w cs h before =
    Safely-run Q P s (k (s c w).0) (s c w).1 (c ∷ cs) (h.1 (s c w).0) (h.0, before)

pub Safely-then_do :
    {A B : Type 0} (Q : Call → Type 0) (P : A → Type 0) (R : B → Type 0) (p : Prog A)
    (f : A → Prog B)
    → Safely Q P p
    → ((a : A) → P a → Safely Q R (f a))
    → Safely Q R (then_do p f)
Safely-then_do Q P R (ret a) f h k = k a h
Safely-then_do Q P R (call c p) f h k = (h.0, λ r. Safely-then_do Q P R (p r) f (h.1 r) k)

-- `m` makes calls with `Q` only and keeps `P` of the state, however it ends.
pub record Obeys {S A : Type 0} (Q : Call → Type 0) (P : S → Type 0) (m : M S A) : Type 0 where
  pub at : (s : S) → P s → Safely Q (λ (x : Outcome A × S). P x.1) (m s)

module _ {S A : Type 0} {Q : Call → Type 0} {P : S → Type 0} where
  pub Obeys-gets : (read : S → A) → Obeys Q P (gets read)
  unfolding gets
  Obeys-gets read = record { at = λ t kept. kept }

  pub Obeys-pure : (a : A) → Obeys Q P (pure a)
  unfolding pure
  Obeys-pure a = record { at = λ t kept. kept }

  pub Obeys-fail : (e : Errno) → Obeys Q P (fail {A = A} e)
  unfolding fail
  Obeys-fail e = record { at = λ t kept. kept }

  pub Obeys-stop : (o : Outcome A) → Obeys Q P (stop o)
  unfolding stop
  Obeys-stop o = record { at = λ t kept. kept }

  pub Obeys-if :
      (b : Bool) {m n : M S A} → Obeys Q P m → Obeys Q P n → Obeys Q P (if b then m else n)
  Obeys-if true om on = om
  Obeys-if false om on = on

  pub Obeys-elim :
      (b : Bool) {m n : M S A}
      → Obeys Q P m
      → Obeys Q P n
      → Obeys Q P (elim b [ true ↦ m | false ↦ n ])
  Obeys-elim true om on = om
  Obeys-elim false om on = on

  -- A branch may rest on its test.
  pub Obeys-test :
      (b : Bool) {m n : M S A}
      → (b ≡ true → Obeys Q P m)
      → (b ≡ false → Obeys Q P n)
      → Obeys Q P (elim b [ true ↦ m | false ↦ n ])
  Obeys-test true om on = om refl
  Obeys-test false om on = on refl

module _ {S : Type 0} {Q : Call → Type 0} {P : S → Type 0} where
  pub Obeys-ask : (c : Call) → Q c → Obeys Q P (ask c)
  unfolding ask
  Obeys-ask c q = record { at = λ s h. (q, λ r. h) }

  pub Obeys-modify : (f : S → S) → ((s : S) → P s → P (f s)) → Obeys Q P (modify f)
  unfolding modify
  Obeys-modify f k = record { at = k }

  pub Obeys-fatal_check : (b : Bool) → Obeys Q P (fatal_check b)
  unfolding fatal_check
  Obeys-fatal_check true = Obeys-pure tt
  Obeys-fatal_check false = Obeys-stop oops

  pub Obeys-require : (b : Bool) (e : Errno) → Obeys Q P (require b e)
  unfolding require
  Obeys-require true e = Obeys-pure tt
  Obeys-require false e = Obeys-fail e

  pub Obeys-when : (b : Bool) {m : M S (Unit {0})} → Obeys Q P m → Obeys Q P (when b m)
  unfolding when
  Obeys-when true k = k
  Obeys-when false k = Obeys-pure tt

module _ {S A B : Type 0} {Q : Call → Type 0} {P : S → Type 0} where
  Safely-go_on :
      {f : A → M S B}
      → ((a : A) → Obeys Q P (f a))
      → (x : Outcome A × S) → P x.1
      → Safely Q (λ (y : Outcome B × S). P y.1) (go_on f x)
  Safely-go_on k (ok a, s) h = (k a).at s h
  Safely-go_on k (err e, s) h = h
  Safely-go_on k (oops, s) h = h
  Safely-go_on k (no_fuel, s) h = h

  pub Obeys-bind :
      {m : M S A} {f : A → M S B} → Obeys Q P m → ((a : A) → Obeys Q P (f a)) → Obeys Q P (m >>= f)
  unfolding ◌>>=◌
  Obeys-bind {m} {f} om of = record {
    at = λ s h. Safely-then_do _ _ _ (m s) (go_on f) (om.at s h) (Safely-go_on of);
  }

  -- A value that was read from the state is the state's.
  pub Obeys-read :
      (g : S → A) (f : A → M S B)
      → ((s : S) → P s → Safely Q (λ (x : Outcome B × S). P x.1) (f (g s) s))
      → Obeys Q P (gets g >>= f)
  unfolding ◌>>=◌
  Obeys-read g f k = record { at = k }

pub ruleset obeys_rules = (
  Obeys-pure, Obeys-fail, Obeys-stop, Obeys-gets, Obeys-if, Obeys-elim, Obeys-fatal_check,
  Obeys-require, Obeys-when, Obeys-bind,
)
