-- ===== src/Usb/Tests.antt =====
-- A callback that comes while the thread sleeps, a device that is lost, and a callback that comes too late.
use riceprobe.Base.{◌≡◌, refl, true, false, [], ◌∷◌, ◌++◌, List, ◌⊎◌, arith}
use riceprobe.Base.Int.{pos}
use riceprobe.Usb.{
  usb_reset, usb_other, Usb, Event, changed, released, called, tick, go, Outcome, left, returned,
  shut_down, status_cb, transfer_cb, advance, step, play, begin, transfer,
}
use riceprobe.Usb.Wait.{Loses, called_ends}
use riceprobe.Usb.Loss.{loss_ends}
use riceprobe.Usb.Free.{left-IsFree}

abbrev ready : Usb
ready = record { is_configured = true; wake = false; size = pos 0; is_busy = false }

-- The thread sleeps, and USB is done with its transfer.
abbrev asleep : List Event
asleep = go ∷ go ∷ tick ∷ released ∷ go ∷ []

abbrev turns_to_go : List Event
turns_to_go = go ∷ changed usb_other ∷ go ∷ go ∷ []

called_ends_example :
    ((transfer (pos 0) (asleep ++ (called (pos 9) ∷ turns_to_go)) ready).0
      ≡ left (returned (pos 9)))
    ⊎ (((transfer (pos 0) (asleep ++ (called (pos 9) ∷ turns_to_go)) ready).0 ≡ left shut_down)
        × (((transfer (pos 0) asleep ready).1.is_configured ≡ false) ⊎ Loses turns_to_go))
unfolding transfer begin play step advance
called_ends_example =
    called_ends (pos 0) (pos 9) asleep turns_to_go ready tt refl (tt, (tt, (tt, (tt, tt))))
      (omega arith)

loss_ends_example :
    (o : Outcome) × ((transfer (pos 0) (asleep ++ (changed usb_reset ∷ turns_to_go)) ready).0
      ≡ left o)
loss_ends_example =
    loss_ends (pos 0) usb_reset asleep turns_to_go ready refl (tt, (tt, (tt, (tt, tt))))
      (omega arith)

abbrev lost : List Event
lost = go ∷ go ∷ changed usb_reset ∷ go ∷ go ∷ []

left-IsFree_example : (transfer (pos 0) lost ready).1.is_busy ≡ false
unfolding transfer begin play step advance status_cb
left-IsFree_example = left-IsFree (pos 0) lost ready shut_down refl refl

nine_returned :
    (transfer (pos 0) (asleep ++ (called (pos 9) ∷ turns_to_go)) ready).0 ≡ left (returned (pos 9))
unfolding transfer begin play step advance transfer_cb status_cb
nine_returned = refl

-- The thread looks between the end of the transfer and the callback that writes its size.
zero_returned :
    (transfer (pos 0) (released ∷ go ∷ called (pos 9) ∷ []) ready).0 ≡ left (returned (pos 0))
unfolding transfer begin play step advance transfer_cb
zero_returned = refl
