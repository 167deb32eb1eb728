-- ===== src/Usb/Wait.antt =====
-- How long a transport over USB waits for a transfer that ends.
use riceprobe.Base.{
  Bool, sym, ℕ, zero, suc, ◌+◌, ◌≤◌, ◌≡◌, refl, ap, ◌∙◌, arith, true, false, List, [], ◌∷◌, ◌++◌,
  if◌then◌else◌, ◌⊎◌, inl, inr, All,
}
use riceprobe.Base.Int.{ℤ}
use riceprobe.Usb.{
  is_loss, Status, usb_configured, usb_suspend, usb_reset, usb_disconnected, usb_error, usb_other,
  Usb, status_cb, transfer_cb, Event, changed, released, called, tick, go, returned, shut_down,
  Place, at_busy, in_take, at_look, left, advance, pass_ms, step, play, begin, transfer,
}

-- How many steps the thread makes.
abbrev pub turns : List Event → ℕ
turns [] = 0
turns (go ∷ es) = 1 + turns es
turns (e ∷ es) = turns es

abbrev pub IsWaiting : Place → Type 0
IsWaiting (left o) = ⊥
IsWaiting p = Unit {0}

abbrev pub IsNoCallback : Event → Type 0
IsNoCallback (called n) = ⊥
IsNoCallback e = Unit {0}

-- In these events the device is lost.
abbrev pub Loses : List Event → Type 0
Loses [] = ⊥
Loses (changed s ∷ es) = (is_loss s ≡ true) ⊎ Loses es
Loses (e ∷ es) = Loses es

abbrev pub IsNoReturn : Event → Type 0
IsNoReturn (changed usb_configured) = ⊥
IsNoReturn e = Unit {0}

pub play_append : (es fs : List Event) (x : Place × Usb) → play (es ++ fs) x ≡ play fs (play es x)
unfolding play
play_append [] fs x = refl
play_append (e ∷ es) fs (p, u) = play_append es fs (step e p u)

-- What a callback of the status leaves as it was.
abbrev pub Same : Usb → Usb → Type 0
Same u v = (v.is_busy ≡ u.is_busy) × (v.size ≡ u.size) × (u.wake ≡ true → v.wake ≡ true)

pub status-Same : (s : Status) (u : Usb) → Same u (status_cb s u)
unfolding status_cb
status-Same usb_configured u = (refl, refl, λ h. h)
status-Same usb_suspend u = (refl, refl, λ h. refl)
status-Same usb_reset u = (refl, refl, λ h. refl)
status-Same usb_disconnected u = (refl, refl, λ h. refl)
status-Same usb_error u = (refl, refl, λ h. refl)
status-Same usb_other u = (refl, refl, λ h. h)

status-off :
    (s : Status) (u : Usb)
    → (status_cb s u).is_configured ≡ false
    → (u.is_configured ≡ false) ⊎ (is_loss s ≡ true)
unfolding status_cb
status-off usb_configured u h = ground arith
status-off usb_suspend u h = inr refl
status-off usb_reset u h = inr refl
status-off usb_disconnected u h = inr refl
status-off usb_error u h = inr refl
status-off usb_other u h = inl h

advance-configured : (p : Place) (u : Usb) → (advance p u).1.is_configured ≡ u.is_configured
unfolding advance
advance-configured at_busy u = ground arith
advance-configured (in_take ms) u = ground arith
advance-configured at_look u = ground arith
advance-configured (left o) u = refl

-- Behind the callback: the transfer is over, its size is written, and a thread that sleeps is woken; a thread that
-- gives up has a cause for it, `P`.
abbrev IsCalled : Type 0 → ℤ → Place → Usb → Type 0
IsCalled P n at_busy u = (u.is_busy ≡ false) × (u.size ≡ n)
IsCalled P n (in_take ms) u = (u.is_busy ≡ false) × (u.size ≡ n) × (u.wake ≡ true)
IsCalled P n at_look u = (u.is_busy ≡ false) × (u.size ≡ n)
IsCalled P n (left o) u = (o ≡ returned n) ⊎ ((o ≡ shut_down) × P)

-- How many steps the thread is from leaving then, at most.
abbrev to_go : Place → ℕ
to_go at_busy = 1
to_go (in_take ms) = 3
to_go at_look = 2
to_go (left o) = 0

abbrev IsEnd : Type 0 → ℤ → Place → Type 0
IsEnd P n p = (p ≡ left (returned n)) ⊎ ((p ≡ left shut_down) × P)

tick-to_go : (p : Place) → to_go (pass_ms p) ≡ to_go p
tick-to_go at_busy = refl
tick-to_go (in_take zero) = refl
tick-to_go (in_take (suc ms)) = refl
tick-to_go at_look = refl
tick-to_go (left o) = refl

module _ (P : Type 0) where
  changed-IsCalled :
      (n : ℤ) (p : Place) (s : Status) (u : Usb) → IsCalled P n p u → IsCalled P n p (status_cb s u)
  changed-IsCalled n at_busy s u (idle, size) =
      let (busy, same, woken) = status-Same s u in (busy ∙ idle, same ∙ size)
  changed-IsCalled n (in_take ms) s u (idle, size, wake) =
      let (busy, same, woken) = status-Same s u in (busy ∙ idle, same ∙ size, woken wake)
  changed-IsCalled n at_look s u (idle, size) =
      let (busy, same, woken) = status-Same s u in (busy ∙ idle, same ∙ size)
  changed-IsCalled n (left o) s u h = h

  released-IsCalled :
      (n : ℤ) (p : Place) (u : Usb)
      → IsCalled P n p u
      → IsCalled P n p (record u { is_busy = false })
  released-IsCalled n at_busy u (idle, rest) = (refl, rest)
  released-IsCalled n (in_take ms) u (idle, size, wake) = (refl, size, wake)
  released-IsCalled n at_look u (idle, rest) = (refl, rest)
  released-IsCalled n (left o) u h = h

  -- A millisecond that is over leaves the thread in its place, but for its time.
  tick-IsCalled : (n : ℤ) (p : Place) (u : Usb) → IsCalled P n p u → IsCalled P n (pass_ms p) u
  tick-IsCalled n at_busy u h = h
  tick-IsCalled n (in_take zero) u h = h
  tick-IsCalled n (in_take (suc ms)) u h = h
  tick-IsCalled n at_look u h = h
  tick-IsCalled n (left o) u h = h

  abbrev Calls : ℤ → ℕ → Place × Usb → Type 0
  Calls n k (p, u) = IsCalled P n p u × (to_go p ≤ k)

  -- A step of the thread brings it nearer to its end.
  advance-Calls :
      (n : ℤ) (k : ℕ) (p : Place) (u : Usb)
      → (u.is_configured ≡ false → P)
      → IsCalled P n p u
      → to_go p ≤ 1 + k
      → Calls n k (advance p u)
  unfolding advance
  advance-Calls n k at_busy u off (idle, size) h = rw idle (inl (ap returned size), omega arith)
  advance-Calls n k (in_take ms) u off (idle, size, wake) h = rw wake ((idle, size), omega arith)
  advance-Calls n k at_look u off (idle, size) h = look (u.is_configured) off
    where
      look :
          (b : Bool)
          → (b ≡ false → P)
          → Calls n k (if b then (at_busy, u) else (left shut_down, record u { is_busy = false }))
      look true why = ((idle, size), omega arith)
      look false why = (inr (refl, why refl), omega arith)
  advance-Calls n k (left o) u off end h = (end, omega arith)

  called_play :
      (n : ℤ) (es : List Event) (p : Place) (u : Usb)
      → All IsNoCallback es
      → (u.is_configured ≡ false → P)
      → (Loses es → P)
      → Calls n (turns es) (p, u)
      → IsEnd P n (play es (p, u)).0
  unfolding play step
  called_play n [] (left o) u rest off lossy (inl end, h) = inl (ap left end)
  called_play n [] (left o) u rest off lossy (inr (end, why), h) = inr (ap left end, why)
  called_play n [] at_busy u rest off lossy (c, h) = ground arith
  called_play n [] (in_take ms) u rest off lossy (c, h) = ground arith
  called_play n [] at_look u rest off lossy (c, h) = ground arith
  called_play n (changed s ∷ es) p u (fit, rest) off lossy (c, h) =
      called_play n es p (status_cb s u) rest
        (λ e. elim (status-off s u e) [ inl was ↦ off was | inr loss ↦ lossy (inl loss) ])
        (λ later. lossy (inr later)) (changed-IsCalled n p s u c, h)
  called_play n (released ∷ es) p u (fit, rest) off lossy (c, h) =
      called_play n es p (record u { is_busy = false }) rest off lossy
        (released-IsCalled n p u c, h)
  called_play n (called m ∷ es) p u (fit, rest) off lossy (c, h) = ground arith
  called_play n (tick ∷ es) p u (fit, rest) off lossy (c, h) =
      called_play n es (pass_ms p) u rest off lossy (tick-IsCalled n p u c, rw (tick-to_go p) h)
  called_play n (go ∷ es) p u (fit, rest) off lossy (c, h) =
      let (q, v) = advance p u in
      called_play n es q v rest (λ e. off (sym (advance-configured p u) ∙ e)) lossy
        (advance-Calls n _ p u off c h)

  callback-Calls :
      (n : ℤ) (p : Place) (u : Usb)
      → IsWaiting p
      → u.is_busy ≡ false
      → IsCalled P n p (transfer_cb n u) × (to_go p ≤ 3)
  unfolding transfer_cb
  callback-Calls n at_busy u waits idle = ((idle, refl), omega arith)
  callback-Calls n (in_take ms) u waits idle = ((idle, refl, refl), omega arith)
  callback-Calls n at_look u waits idle = ((idle, refl), omega arith)
  callback-Calls n (left o) u waits idle = ground arith

-- A thread that still waits when the callback of its transfer comes, USB being done with it, leaves within three
-- of its own steps, with no need that any time passes, whatever happened before, and whatever else happens in
-- between but for another callback: it returns the size of that callback, or it gives up, which it does only
-- where the device was not configured when the callback came, or is lost behind it.
pub called_ends :
    (ret n : ℤ) (es fs : List Event) (u : Usb)
    → IsWaiting (transfer ret es u).0
    → (transfer ret es u).1.is_busy ≡ false
    → All IsNoCallback fs
    → 3 ≤ turns fs
    → ((transfer ret (es ++ (called n ∷ fs)) u).0 ≡ left (returned n))
      ⊎ (((transfer ret (es ++ (called n ∷ fs)) u).0 ≡ left shut_down)
          × (((transfer ret es u).1.is_configured ≡ false) ⊎ Loses fs))
unfolding transfer play step transfer_cb
called_ends ret n es fs u waits idle rest enough =
    let x = play es (begin ret u) in
    let (c, h) =
      callback-Calls (((transfer ret es u).1.is_configured ≡ false) ⊎ Loses fs) n x.0 x.1 waits
        idle in
    rw (play_append es (called n ∷ fs) (begin ret u)) (
      called_play (((transfer ret es u).1.is_configured ≡ false) ⊎ Loses fs) n fs x.0
        (transfer_cb n x.1) rest inl inr (c, omega (arith, h, enough)))
