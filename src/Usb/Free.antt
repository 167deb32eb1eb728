-- ===== src/Usb/Free.antt =====
-- What becomes of the endpoint of a transport over USB when its thread leaves a transfer.
use riceprobe.Base.{zero, suc, ◌≡◌, refl, ◌∙◌, arith, true, false, List, [], ◌∷◌}
use riceprobe.Base.Int.{ℤ, pos, is_negative}
use riceprobe.Usb.{
  Status, Usb, status_cb, transfer_cb, Event, changed, released, called, tick, go, Outcome, Place,
  at_busy, in_take, at_look, left, advance, pass_ms, step, play, begin, transfer,
}
use riceprobe.Usb.Wait.{status-Same}

-- The endpoint is in no transfer where the thread has left.
abbrev IsFree : Place × Usb → Type 0
IsFree (left o, u) = u.is_busy ≡ false
IsFree (p, u) = Unit {0}

changed-IsFree : (p : Place) (s : Status) (u : Usb) → IsFree (p, u) → IsFree (p, status_cb s u)
changed-IsFree (left o) s u h = (status-Same s u).0 ∙ h
changed-IsFree at_busy s u h = tt
changed-IsFree (in_take ms) s u h = tt
changed-IsFree at_look s u h = tt

released-IsFree : (p : Place) (u : Usb) → IsFree (p, record u { is_busy = false })
released-IsFree (left o) u = refl
released-IsFree at_busy u = tt
released-IsFree (in_take ms) u = tt
released-IsFree at_look u = tt

called-IsFree : (n : ℤ) (p : Place) (u : Usb) → IsFree (p, u) → IsFree (p, transfer_cb n u)
unfolding transfer_cb
called-IsFree n (left o) u h = h
called-IsFree n at_busy u h = tt
called-IsFree n (in_take ms) u h = tt
called-IsFree n at_look u h = tt

tick-IsFree : (p : Place) (u : Usb) → IsFree (p, u) → IsFree (pass_ms p, u)
tick-IsFree (left o) u h = h
tick-IsFree at_busy u h = tt
tick-IsFree (in_take zero) u h = tt
tick-IsFree (in_take (suc ms)) u h = tt
tick-IsFree at_look u h = tt

advance-IsFree : (p : Place) (u : Usb) → IsFree (p, u) → IsFree (advance p u)
unfolding advance
advance-IsFree at_busy u h = ground arith
advance-IsFree (in_take ms) u h = ground arith
advance-IsFree at_look u h = ground arith
advance-IsFree (left o) u h = h

play-IsFree : (es : List Event) (p : Place) (u : Usb) → IsFree (p, u) → IsFree (play es (p, u))
unfolding play step
play-IsFree [] p u h = h
play-IsFree (changed s ∷ es) p u h = play-IsFree es p (status_cb s u) (changed-IsFree p s u h)
play-IsFree (released ∷ es) p u h =
    play-IsFree es p (record u { is_busy = false }) (released-IsFree p u)
play-IsFree (called n ∷ es) p u h = play-IsFree es p (transfer_cb n u) (called-IsFree n p u h)
play-IsFree (tick ∷ es) p u h = play-IsFree es (pass_ms p) u (tick-IsFree p u h)
play-IsFree (go ∷ es) p u h = let (q, v) = advance p u in play-IsFree es q v (advance-IsFree p u h)

free_of : (p : Place) (u : Usb) (o : Outcome) → IsFree (p, u) → p ≡ left o → u.is_busy ≡ false
free_of (left o') u o h e = h
free_of at_busy u o h e = ground arith
free_of (in_take ms) u o h e = ground arith
free_of at_look u o h e = ground arith

-- Where the thread has left a transfer that `usb_transfer` accepted, the endpoint is in no transfer any more, in
-- any schedule and however the function ended.
pub left-IsFree :
    (ret : ℤ) (es : List Event) (u : Usb) (o : Outcome)
    → is_negative ret ≡ false
    → (transfer ret es u).0 ≡ left o
    → (transfer ret es u).1.is_busy ≡ false
unfolding transfer begin
left-IsFree ret es u o accepted =
    rw accepted
      (λ e. free_of _ _ o (play-IsFree es at_busy (record u { size = pos 0; is_busy = true }) tt) e)
