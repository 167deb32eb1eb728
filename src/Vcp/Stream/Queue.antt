-- ===== src/Vcp/Stream/Queue.antt =====
-- What holds in every state that the virtual COM port reaches.
use riceprobe.Base.{◌≡◌, sym, ap, ◌∙◌, false, [], none, some}
use riceprobe.Vcp.Fifo.{Ops, Laws}
use riceprobe.Vcp.Device.{Vcp, configure}
use riceprobe.Vcp.Stream.{Line, Event, step, IsAllowed, Reach, opened, went}
use riceprobe.Vcp.Stream.Order.{IsLine, Goes, step-IsLine}

module _ {R : Type 0} (ops : Ops R) (laws : Laws ops) where
  opened-IsLine :
      (d : Vcp R)
      → d.configured ≡ false
      → IsLine ops laws
          (record { vcp = (configure ops d).0; arrived = []; delivered = []; writing = none })
  unfolding configure
  opened-IsLine d h =
      rw h
        (record { idle = laws.resets d.rx; order = laws.empties d.rx; flight = laws.releases d.rx })

  some_same : (l l' : Line R) → some l ≡ some l' → l ≡ l'
  some_same l l' h = ap (elim [ some x ↦ x | none ↦ l ]) h

  moved :
      (e : Event) (l l' : Line R) → Goes ops laws e l → step ops e l ≡ some l' → IsLine ops laws l'
  moved e l l' (x, (same, h)) gives = rw (sym (some_same x l' (sym same ∙ gives))) h

  -- The port is a queue from the UART to the host: in every state that is reached from a configuration, in
  -- any order of interrupts with data, runs of the work handler and ends of transfers, what the host got
  -- and what still waits in the buffer are, one after the other, the bytes that were accepted from the
  -- UART, so that none is lost, doubled or moved; and a transfer to the host is of the oldest bytes, and
  -- its size is no multiple of the packet size. It holds for every ring buffer that keeps its laws, if the
  -- UART gives no more than it is asked for and USB sends no more than it is given.
  pub Reach-IsLine : (l : Line R) → Reach ops l → IsLine ops laws l
  Reach-IsLine l (opened d h) = opened-IsLine d h
  Reach-IsLine l (went e l0 l1 r a h) =
      moved e l0 l (step-IsLine ops laws e l0 (Reach-IsLine l0 r) a) h

  -- The interrupt never ends the thread: in every state that is reached from a configuration, each event
  -- that is allowed there leads to a further state, since the finish of a claim is never refused.
  pub Reach-goes :
      (l : Line R) (e : Event)
      → Reach ops l
      → IsAllowed e l
      → (l' : Line R) × (step ops e l ≡ some l')
  Reach-goes l e r a = (
    (step-IsLine ops laws e l (Reach-IsLine l r) a).0,
    (step-IsLine ops laws e l (Reach-IsLine l r) a).1.0,
  )
