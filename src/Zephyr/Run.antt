-- ===== src/Zephyr/Run.antt =====
-- How `run` goes through a sequence, and what of the state of a server it keeps.
use riceprobe.Base.{◌≡◌, refl}
use riceprobe.Zephyr.{Call}
use riceprobe.Zephyr.Prog.{Prog, ret, call, Server, then_do, run, ok, M, go_on, ◌>>=◌}

pub run-then_do :
    {A B W : Type 0} (s : Server W) (p : Prog A) (f : A → Prog B) (w : W)
    → run s (then_do p f) w ≡ run s (f (run s p w).0) (run s p w).1
run-then_do s (ret a) f w = refl
run-then_do s (call c k) f w = run-then_do s (k (s c w).0) f (s c w).1

-- A sequence whose first part is known to end with a value.
pub run-bind :
    {S A B W : Type 0} (s : Server W) (m : M S A) (f : A → M S B) (d d' : S) (w w' : W) (a : A)
    → run s (m d) w ≡ ((ok a, d'), w')
    → run s ((m >>= f) d) w ≡ run s (f a d') w'
unfolding ◌>>=◌
run-bind s m f d d' w w' a e = rw (run-then_do s (m d) (go_on f) w, e) refl

pub run-keeps :
    {A W : Type 0} (Inv : W → Type 0) (s : Server W)
    → ((c : Call) (w : W) → Inv w → Inv (s c w).1)
    → (p : Prog A) (w : W) → Inv w
    → Inv (run s p w).1
run-keeps Inv s step (ret a) w h = h
run-keeps Inv s step (call c k) w h = run-keeps Inv s step (k (s c w).0) (s c w).1 (step c w h)
