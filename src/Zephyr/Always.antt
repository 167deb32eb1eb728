-- ===== src/Zephyr/Always.antt =====
-- What holds of a program whatever its calls are answered.
use riceprobe.Base.{ℕ, zero, suc, Bool, true, false, if◌then◌else◌}
use riceprobe.Errno.{Errno}
use riceprobe.Zephyr.{Call, Answer}
use riceprobe.Zephyr.Prog.{
  Prog, ret, call, Server, then_do, run, Outcome, ok, err, oops, no_fuel, M, pure, fail, stop, gets,
  ask, modify, fatal_check, require, when, go_on, ◌>>=◌, repeat,
}

-- Every way to play the tree ends at a value with `P`.
abbrev pub Always : {A : Type 0} → (A → Type 0) → Prog A → Type 0
Always P (ret a) = P a
Always P (call c k) = (r : Answer c) → Always P (k r)

pub Always-run :
    {A W : Type 0} (P : A → Type 0) (s : Server W) (p : Prog A) (w : W)
    → Always P p
    → P (run s p w).0
Always-run P s (ret a) w h = h
Always-run P s (call c k) w h = Always-run P s (k (s c w).0) (s c w).1 (h (s c w).0)

pub Always-then_do :
    {A B : Type 0} (P : A → Type 0) (Q : B → Type 0) (p : Prog A) (f : A → Prog B)
    → Always P p
    → ((a : A) → P a → Always Q (f a))
    → Always Q (then_do p f)
Always-then_do P Q (ret a) f h k = k a h
Always-then_do P Q (call c p) f h k = λ r. Always-then_do P Q (p r) f (h r) k

pub Always-mono :
    {A : Type 0} (P Q : A → Type 0) (p : Prog A) → ((a : A) → P a → Q a) → Always P p → Always Q p
Always-mono P Q (ret a) k h = k a h
Always-mono P Q (call c p) k h = λ r. Always-mono P Q (p r) k (h r)

-- `m` keeps `P` of the state, however it ends.
pub record Keeps {S A : Type 0} (P : S → Type 0) (m : M S A) : Type 0 where
  pub at : (s : S) → P s → Always (λ (x : Outcome A × S). P x.1) (m s)

module _ {S A : Type 0} {P : S → Type 0} where
  pub Keeps-gets : (read : S → A) → Keeps P (gets read)
  unfolding gets
  Keeps-gets read = record { at = λ t kept. kept }

  pub Keeps-pure : (a : A) → Keeps P (pure a)
  unfolding pure
  Keeps-pure a = record { at = λ t kept. kept }

  pub Keeps-fail : (e : Errno) → Keeps P (fail {A = A} e)
  unfolding fail
  Keeps-fail e = record { at = λ s h. h }

  pub Keeps-stop : (o : Outcome A) → Keeps P (stop o)
  unfolding stop
  Keeps-stop o = record { at = λ s h. h }

  pub Keeps-if : (b : Bool) {m n : M S A} → Keeps P m → Keeps P n → Keeps P (if b then m else n)
  Keeps-if true km kn = km
  Keeps-if false km kn = kn

  pub Keeps-elim :
      (b : Bool) {m n : M S A} → Keeps P m → Keeps P n → Keeps P (elim b [ true ↦ m | false ↦ n ])
  Keeps-elim true km kn = km
  Keeps-elim false km kn = kn

module _ {S : Type 0} {P : S → Type 0} where
  pub Keeps-ask : (c : Call) → Keeps P (ask c)
  unfolding ask
  Keeps-ask c = record { at = λ s h r. h }

  pub Keeps-modify : (f : S → S) → ((s : S) → P s → P (f s)) → Keeps P (modify f)
  unfolding modify
  Keeps-modify f k = record { at = k }

  pub Keeps-fatal_check : (b : Bool) → Keeps P (fatal_check b)
  unfolding fatal_check
  Keeps-fatal_check true = record { at = λ s h. h }
  Keeps-fatal_check false = record { at = λ s h. h }

  pub Keeps-require : (b : Bool) (e : Errno) → Keeps P (require b e)
  unfolding require
  Keeps-require true e = record { at = λ s h. h }
  Keeps-require false e = record { at = λ s h. h }

  pub Keeps-when : (b : Bool) {m : M S (Unit {0})} → Keeps P m → Keeps P (when b m)
  unfolding when
  Keeps-when true k = k
  Keeps-when false k = record { at = λ s h. h }

module _ {S A B : Type 0} {P : S → Type 0} where
  Always-go_on :
      {f : A → M S B}
      → ((a : A) → Keeps P (f a))
      → (x : Outcome A × S) → P x.1
      → Always (λ (y : Outcome B × S). P y.1) (go_on f x)
  Always-go_on k (ok a, s) h = (k a).at s h
  Always-go_on k (err e, s) h = h
  Always-go_on k (oops, s) h = h
  Always-go_on k (no_fuel, s) h = h

  pub Keeps-bind :
      {m : M S A} {f : A → M S B} → Keeps P m → ((a : A) → Keeps P (f a)) → Keeps P (m >>= f)
  unfolding ◌>>=◌
  Keeps-bind {m} {f} km kf = record {
    at = λ s h. Always-then_do _ _ (m s) (go_on f) (km.at s h) (Always-go_on kf);
  }

module _ {S : Type 0} {P : S → Type 0} where
  pub Keeps-repeat : (n : ℕ) {m : M S (Unit {0})} → Keeps P m → Keeps P (repeat n m)
  unfolding repeat
  Keeps-repeat zero k = Keeps-pure tt
  Keeps-repeat (suc n) k = Keeps-bind k (λ _. Keeps-repeat n k)

-- `m` takes `P` to `Q`, however it ends.
pub record Takes {S A : Type 0} (P Q : S → Type 0) (m : M S A) : Type 0 where
  pub at : (s : S) → P s → Always (λ (x : Outcome A × S). Q x.1) (m s)

module _ {S A B : Type 0} {P : S → Type 0} where
  -- What follows may rest on more than `P`, if the first part makes it hold.
  pub Always-after :
      (Q : S → Type 0) (m : M S A) (f : A → M S B) (s : S)
      → ((t : S) → Q t → P t)
      → Always (λ (x : Outcome A × S). Q x.1) (m s)
      → ((a : A) → Keeps Q (f a))
      → Always (λ (x : Outcome B × S). P x.1) ((m >>= f) s)
  unfolding ◌>>=◌
  Always-after Q m f s weaken h kf =
      Always-then_do (λ (x : Outcome A × S). Q x.1) _ (m s) (go_on f) h
        (λ x hx. Always-mono _ _ (go_on f x) (λ y hy. weaken y.1 hy) (Always-go_on kf x hx))

  pub Keeps-after :
      (Q : S → Type 0) {m : M S A} {f : A → M S B}
      → ((s : S) → Q s → P s)
      → Takes P Q m
      → ((a : A) → Keeps Q (f a))
      → Keeps P (m >>= f)
  Keeps-after Q {m} {f} weaken tm kf = record {
    at = λ s h. Always-after Q m f s weaken (tm.at s h) kf;
  }

  -- A value that was read from the state is the state's.
  pub Keeps-read :
      (g : S → A) (f : A → M S B)
      → ((s : S) → P s → Always (λ (x : Outcome B × S). P x.1) (f (g s) s))
      → Keeps P (gets g >>= f)
  unfolding ◌>>=◌
  Keeps-read g f k = record { at = k }

module _ {S A B : Type 0} where
  pub Always-read :
      (Q : Outcome B × S → Type 0) (g : S → A) (f : A → M S B) (s : S)
      → Always Q (f (g s) s)
      → Always Q ((gets g >>= f) s)
  unfolding ◌>>=◌
  Always-read Q g f s h = h

pub ruleset keeps_rules = (
  Keeps-pure, Keeps-fail, Keeps-stop, Keeps-gets, Keeps-if, Keeps-elim, Keeps-ask,
  Keeps-fatal_check, Keeps-require, Keeps-when, Keeps-bind, Keeps-repeat,
)

-- `m` ends with a value only in states with `P`.
abbrev pub IsOk : {A : Type 0} → Outcome A → Type 0
IsOk (ok a) = Unit {0}
IsOk _ = ⊥

pub record Yields {S A : Type 0} (P : S → Type 0) (m : M S A) : Type 0 where
  pub at : (s : S) → Always (λ (x : Outcome A × S). IsOk x.0 → P x.1) (m s)

Always-any : {A : Type 0} (p : Prog A) → Always (λ x. Unit {0}) p
Always-any (ret a) = tt
Always-any (call c k) = λ r. Always-any (k r)

module _ {S A : Type 0} {P : S → Type 0} where
  pub Yields-fail : (e : Errno) → Yields P (fail {A = A} e)
  unfolding fail
  Yields-fail e = record { at = λ s is_ok. absurd is_ok }

module _ {S : Type 0} {P : S → Type 0} where
  pub Yields-modify : (f : S → S) → ((s : S) → P (f s)) → Yields P (modify f)
  unfolding modify
  Yields-modify f k = record { at = λ s is_ok. k s }

module _ {S A B : Type 0} {P : S → Type 0} where
  Always-then :
      {f : A → M S B}
      → ((a : A) → Yields P (f a))
      → (x : Outcome A × S) → Always (λ (y : Outcome B × S). IsOk y.0 → P y.1) (go_on f x)
  Always-then k (ok a, s) = (k a).at s
  Always-then k (err e, s) = λ is_ok. absurd is_ok
  Always-then k (oops, s) = λ is_ok. absurd is_ok
  Always-then k (no_fuel, s) = λ is_ok. absurd is_ok

  Always-kept :
      {f : A → M S B}
      → ((a : A) → Keeps P (f a))
      → (x : Outcome A × S) → (IsOk x.0 → P x.1)
      → Always (λ (y : Outcome B × S). IsOk y.0 → P y.1) (go_on f x)
  Always-kept {f} k (ok a, s) h = Always-mono _ _ (f a s) (λ y hy is_ok. hy) ((k a).at s (h tt))
  Always-kept k (err e, s) h = λ is_ok. absurd is_ok
  Always-kept k (oops, s) h = λ is_ok. absurd is_ok
  Always-kept k (no_fuel, s) h = λ is_ok. absurd is_ok

  -- By what comes last, and by what comes first if the rest keeps it.
  pub Yields-last : (m : M S A) {f : A → M S B} → ((a : A) → Yields P (f a)) → Yields P (m >>= f)
  unfolding ◌>>=◌
  Yields-last m {f} k = record {
    at = λ s.
        Always-then_do (λ x. Unit {0}) _ (m s) (go_on f) (Always-any (m s))
          (λ x h. Always-then k x);
  }

  pub Yields-kept :
      {m : M S A} {f : A → M S B} → Yields P m → ((a : A) → Keeps P (f a)) → Yields P (m >>= f)
  unfolding ◌>>=◌
  Yields-kept {m} {f} ym kf = record {
    at = λ s. Always-then_do _ _ (m s) (go_on f) (ym.at s) (Always-kept kf);
  }
