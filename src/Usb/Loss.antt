-- ===== src/Usb/Loss.antt =====
-- What becomes of a transfer over USB when the device is lost.
use riceprobe.Base.{
  ℕ, zero, suc, ◌+◌, ◌≤◌, ◌≡◌, refl, arith, true, false, List, [], ◌∷◌, ◌++◌, if◌then◌else◌, All,
}
use riceprobe.Base.Int.{ℤ}
use riceprobe.Usb.{
  Status, usb_configured, usb_suspend, usb_reset, usb_disconnected, usb_error, usb_other, Usb,
  is_loss, status_cb, transfer_cb, Event, changed, released, called, tick, go, Outcome, returned,
  Place, at_busy, in_take, at_look, left, advance, pass_ms, step, play, begin, transfer,
}
use riceprobe.Usb.Wait.{turns, IsNoReturn, play_append, status-Same}

abbrev HasLeft : Place → Type 0
HasLeft p = (o : Outcome) × (p ≡ left o)

lost_at :
    (s : Status) (u : Usb)
    → is_loss s ≡ true
    → ((status_cb s u).is_configured ≡ false) × ((status_cb s u).wake ≡ true)
unfolding status_cb
lost_at usb_configured u h = ground arith
lost_at usb_suspend u h = (refl, refl)
lost_at usb_reset u h = (refl, refl)
lost_at usb_disconnected u h = (refl, refl)
lost_at usb_error u h = (refl, refl)
lost_at usb_other u h = ground arith

stays_lost :
    (s : Status) (u : Usb)
    → IsNoReturn (changed s)
    → u.is_configured ≡ false
    → (status_cb s u).is_configured ≡ false
unfolding status_cb
stays_lost usb_configured u fit h = ground arith
stays_lost usb_suspend u fit h = refl
stays_lost usb_reset u fit h = refl
stays_lost usb_disconnected u fit h = refl
stays_lost usb_error u fit h = refl
stays_lost usb_other u fit h = h

-- The device is lost, and a thread that is going to sleep will be woken.
abbrev IsLost : Place → Usb → Type 0
IsLost at_busy u = (u.is_configured ≡ false) × (u.wake ≡ true)
IsLost (in_take ms) u = (u.is_configured ≡ false) × (u.wake ≡ true)
IsLost at_look u = u.is_configured ≡ false
IsLost (left o) u = Unit {0}

-- How many steps the thread is from leaving then, at most.
abbrev to_go : Place → ℕ
to_go at_busy = 3
to_go (in_take ms) = 2
to_go at_look = 1
to_go (left o) = 0

changed-IsLost :
    (p : Place) (s : Status) (u : Usb)
    → IsNoReturn (changed s)
    → IsLost p u
    → IsLost p (status_cb s u)
changed-IsLost at_busy s u fit (off, wake) = (stays_lost s u fit off, (status-Same s u).2 wake)
changed-IsLost (in_take ms) s u fit (off, wake) = (stays_lost s u fit off, (status-Same s u).2 wake)
changed-IsLost at_look s u fit off = stays_lost s u fit off
changed-IsLost (left o) s u fit h = tt

released-IsLost : (p : Place) (u : Usb) → IsLost p u → IsLost p (record u { is_busy = false })
released-IsLost at_busy u h = h
released-IsLost (in_take ms) u h = h
released-IsLost at_look u h = h
released-IsLost (left o) u h = h

called-IsLost : (n : ℤ) (p : Place) (u : Usb) → IsLost p u → IsLost p (transfer_cb n u)
unfolding transfer_cb
called-IsLost n at_busy u (off, wake) = (off, refl)
called-IsLost n (in_take ms) u (off, wake) = (off, refl)
called-IsLost n at_look u off = off
called-IsLost n (left o) u h = h

abbrev Losing : ℕ → Place × Usb → Type 0
Losing k (p, u) = IsLost p u × (to_go p ≤ k)

tick-Losing : (k : ℕ) (p : Place) (u : Usb) → Losing k (p, u) → Losing k (pass_ms p, u)
tick-Losing k at_busy u h = h
tick-Losing k (in_take zero) u h = h
tick-Losing k (in_take (suc ms)) u h = h
tick-Losing k at_look u h = h
tick-Losing k (left o) u h = h

advance-Losing : (k : ℕ) (p : Place) (u : Usb) → Losing (1 + k) (p, u) → Losing k (advance p u)
unfolding advance
advance-Losing k at_busy u (lost, h) =
    elim u.is_busy
      as (λ b. Losing k (if b then (in_take 100, u) else (left (returned u.size), u))) [
        | true ↦ (lost, omega arith)
        | false ↦ (tt, omega arith)
      ]
advance-Losing k (in_take ms) u ((off, wake), h) = rw wake (off, omega arith)
advance-Losing k at_look u (off, h) = rw off (tt, omega arith)
advance-Losing k (left o) u h = (tt, omega arith)

lost_play :
    (es : List Event) (p : Place) (u : Usb)
    → All IsNoReturn es
    → Losing (turns es) (p, u)
    → HasLeft (play es (p, u)).0
unfolding play step
lost_play [] (left o) u rest h = (o, refl)
lost_play [] at_busy u rest h = ground arith
lost_play [] (in_take ms) u rest h = ground arith
lost_play [] at_look u rest h = ground arith
lost_play (changed s ∷ es) p u (fit, rest) (lost, h) =
    lost_play es p (status_cb s u) rest (changed-IsLost p s u fit lost, h)
lost_play (released ∷ es) p u (fit, rest) (lost, h) =
    lost_play es p (record u { is_busy = false }) rest (released-IsLost p u lost, h)
lost_play (called n ∷ es) p u (fit, rest) (lost, h) =
    lost_play es p (transfer_cb n u) rest (called-IsLost n p u lost, h)
lost_play (tick ∷ es) p u (fit, rest) h = lost_play es (pass_ms p) u rest (tick-Losing _ p u h)
lost_play (go ∷ es) p u (fit, rest) h =
    let (q, v) = advance p u in lost_play es q v rest (advance-Losing _ p u h)

loss-Losing :
    (p : Place) (u : Usb) → u.is_configured ≡ false → u.wake ≡ true → IsLost p u × (to_go p ≤ 3)
loss-Losing at_busy u off wake = ((off, wake), omega arith)
loss-Losing (in_take ms) u off wake = ((off, wake), omega arith)
loss-Losing at_look u off wake = (off, omega arith)
loss-Losing (left o) u off wake = (tt, omega arith)

-- A thread leaves a transfer within three of its own steps after the device is suspended, reset, disconnected or
-- in error, with no need that any time passes: wherever the thread stands then, whatever happened before and
-- whatever else happens in between, if only the device is not configured again meanwhile.
pub loss_ends :
    (ret : ℤ) (s : Status) (es fs : List Event) (u : Usb)
    → is_loss s ≡ true
    → All IsNoReturn fs
    → 3 ≤ turns fs
    → (o : Outcome) × ((transfer ret (es ++ (changed s ∷ fs)) u).0 ≡ left o)
unfolding transfer play step
loss_ends ret s es fs u loss rest enough =
    let x = play es (begin ret u) in
    let (off, wake) = lost_at s x.1 loss in
    let (lost, h) = loss-Losing x.0 (status_cb s x.1) off wake in
    rw (play_append es (changed s ∷ fs) (begin ret u))
      (lost_play fs x.0 (status_cb s x.1) rest (lost, omega (arith, h, enough)))
