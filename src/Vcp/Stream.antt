-- ===== src/Vcp/Stream.antt =====
-- The bytes from the UART reach the host in order: the interrupt, the work handler and the callback of a
-- transfer as steps in any order, against the queue that they implement.
pub mod Order
pub mod Queue
use riceprobe.Base.{
  ℕ, zero, suc, ◌+◌, ◌-◌, ◌%◌, ◌≤◌, ◌<◌, ◌≡◌, refl, sym, ap, ◌∙◌, arith, min, Bool, true, false,
  List, [], ◌∷◌, ◌++◌, length, take, drop, Option, none, some, ◌==◌, if◌then◌else◌, inl, inr,
  Bool-cases,
}
use riceprobe.Errno.{Result}
use riceprobe.Vcp.Fifo.{Ops, Laws}
use riceprobe.Vcp.Device.{
  Vcp, Part, goes_on, stops, fatal, bytes_of, transfer_size, configure, rx_part, work_handler,
  write_cb,
}

-- The device, what it accepted from the UART, what the host got, and what is on its way to the host.
pub record Line (R : Type 0) : Type 0 where
  pub vcp : Vcp R
  pub arrived : List ℕ
  pub delivered : List ℕ
  pub writing : Option (List ℕ)

-- The UART has data, the work queue runs, or so many bytes of a transfer went to the host.
pub data Event : Type 0 where
  received : (ℕ → Result (List ℕ)) → Event
  worked : Event
  sent : ℕ → Event

module _ {R : Type 0} where
  unfoldable pub accept : Line R → List ℕ → Part R → Option (Line R)
  accept l bytes (goes_on d effects) = some (record l { vcp = d; arrived = l.arrived ++ bytes })
  accept l bytes (stops d effects) = some (record l { vcp = d })
  accept l bytes fatal = none

unfoldable pub is_writing : Option (List ℕ) → Bool
is_writing none = false
is_writing (some bytes) = true

-- The transfer that goes on, or else the one that was started with what the claim showed.
unfoldable pub started : Option (List ℕ) → List ℕ → Option ℕ → Option (List ℕ)
started (some bytes) shown size = some bytes
started none shown none = none
started none shown (some size) = some (take size shown)

-- The bytes of a transfer, of which so many went to the host.
unfoldable pub part_of : ℕ → Option (List ℕ) → List ℕ
part_of k none = []
part_of k (some bytes) = take k bytes

module _ {R : Type 0} (ops : Ops R) where
  -- `none` where the thread ends in `k_oops()`.
  unfoldable pub step : Event → Line R → Option (Line R)
  unfolding accept is_writing started part_of rx_part work_handler write_cb
  step (received read) l =
      accept l (bytes_of (read (ops.put_claim l.vcp.rx 1024).0.0)) (rx_part ops read l.vcp)
  step worked l =
      let (d, size) = work_handler ops (is_writing l.writing) l.vcp in
      some (record l { vcp = d; writing = started l.writing (ops.get_claim l.vcp.rx 1024).0 size })
  step (sent k) l = some (record l {
    vcp = (write_cb ops k l.vcp).0;
    delivered = l.delivered ++ part_of k l.writing;
    writing = none;
  })

abbrev pub IsSent : Option (List ℕ) → ℕ → Type 0
IsSent none k = ⊥
IsSent (some bytes) k = k ≤ length bytes

-- The UART gives no more than it is asked for, and USB sends no more than the transfer has.
abbrev pub IsAllowed : {R : Type 0} → Event → Line R → Type 0
IsAllowed (received read) l = (n : ℕ) → length (bytes_of (read n)) ≤ n
IsAllowed worked l = Unit {0}
IsAllowed (sent k) l = IsSent l.writing k

module _ {R : Type 0} (ops : Ops R) where
  -- The states that are reached from a device that was just configured.
  pub data Reach : Line R → Type 0 where
    opened :
        (d : Vcp R)
        → d.configured ≡ false
        → Reach (record { vcp = (configure ops d).0; arrived = []; delivered = []; writing = none })
    went : (e : Event) (l l' : Line R) → Reach l → IsAllowed e l → step ops e l ≡ some l' → Reach l'
