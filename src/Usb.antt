-- ===== src/Usb.antt =====
-- firmware/src/dap/transport_usb.c: the thread that waits for a transfer, and the callbacks of USB that run
-- meanwhile, as one machine whose steps come in any order.
pub mod Wait
pub mod Loss
pub mod Free
mod Tests
use riceprobe.Base.{ℕ, zero, suc, Bool, true, false, List, [], ◌∷◌, ◌==◌, if◌then◌else◌}
use riceprobe.Base.Int.{ℤ, pos, negsuc, is_negative}
use riceprobe.Errno.{Result, ok, err, eagain}
use riceprobe.Msos.{Funcs, set_func0_interface}

-- The number and the name of the interface, in its descriptor.
pub record Interface : Type 0 where
  pub b_interface_number : ℕ
  pub i_interface : ℕ

-- `dap_usb_interface_config`, with the index that `usb_get_str_descriptor_idx` gives.
unfoldable pub interface_config : ℕ → ℕ → Funcs → Interface × Funcs
unfolding set_func0_interface
interface_config index number funcs =
    (record { b_interface_number = number; i_interface = index }, set_func0_interface number funcs)

-- `enum usb_dc_status_code`, as far as it is told apart.
pub data Status : Type 0 where
  usb_configured usb_suspend usb_reset usb_disconnected usb_error usb_other : Status

-- `dap_usb_configured`, the semaphore `dap_usb_thread_wake`, the size that a callback writes, and whether USB has
-- the endpoint in a transfer.
pub record Usb : Type 0 where
  pub is_configured : Bool
  pub wake : Bool
  pub size : ℤ
  pub is_busy : Bool

abbrev pub is_loss : Status → Bool
is_loss usb_configured = false
is_loss usb_suspend = true
is_loss usb_reset = true
is_loss usb_disconnected = true
is_loss usb_error = true
is_loss usb_other = false

-- `dap_usb_status_cb`
unfoldable pub status_cb : Status → Usb → Usb
status_cb usb_configured u = record u { is_configured = true }
status_cb usb_suspend u = record u { is_configured = false; wake = true }
status_cb usb_reset u = record u { is_configured = false; wake = true }
status_cb usb_disconnected u = record u { is_configured = false; wake = true }
status_cb usb_error u = record u { is_configured = false; wake = true }
status_cb usb_other u = u

-- `dap_usb_send_cb` and `dap_usb_recv_cb`
unfoldable pub transfer_cb : ℤ → Usb → Usb
transfer_cb size u = record u { size = size; wake = true }

-- What may happen next: USB changes its status, it has no transfer on the endpoint any more, it calls back, a
-- millisecond is over, or the thread that waits makes its next step.
pub data Event : Type 0 where
  changed : Status → Event
  released : Event
  called : ℤ → Event
  tick : Event
  go : Event

pub data Outcome : Type 0 where
  returned : ℤ → Outcome
  shut_down : Outcome

-- Where the thread stands: at the test of the loop, in `k_sem_take` with the milliseconds that are left, at the
-- test behind it, or it has left the function.
pub data Place : Type 0 where
  at_busy : Place
  in_take : ℕ → Place
  at_look : Place
  left : Outcome → Place

-- The next step of the thread in `dap_usb_transport_recv`. In `k_sem_take` it stays until the semaphore is given
-- or its time is over; where it gives up, the transfer is cancelled.
unfoldable pub advance : Place → Usb → Place × Usb
advance at_busy u = if u.is_busy then (in_take 100, u) else (left (returned u.size), u)
advance (in_take ms) u =
    if u.wake
    then (at_look, record u { wake = false })
    else if ms == 0
    then (at_look, u)
    else (in_take ms, u)
advance at_look u =
    if u.is_configured then (at_busy, u) else (left shut_down, record u { is_busy = false })
advance (left o) u = (left o, u)

abbrev pub pass_ms : Place → Place
pass_ms (in_take (suc ms)) = in_take ms
pass_ms p = p

unfoldable pub step : Event → Place → Usb → Place × Usb
unfolding status_cb transfer_cb advance
step (changed s) p u = (p, status_cb s u)
step released p u = (p, record u { is_busy = false })
step (called n) p u = (p, transfer_cb n u)
step tick p u = (pass_ms p, u)
step go p u = advance p u

unfoldable pub play : List Event → Place × Usb → Place × Usb
unfolding step
play [] x = x
play (e ∷ es) (p, u) = play es (step e p u)

-- The call of `usb_transfer`, with what it returns.
unfoldable pub begin : ℤ → Usb → Place × Usb
begin ret u =
    if is_negative ret
    then (left (returned ret), u)
    else (at_busy, record u { size = pos 0; is_busy = true })

-- `dap_usb_transport_recv` and `dap_usb_transport_send` as far as a schedule gets them, from the state before
-- `usb_transfer`.
unfoldable pub transfer : ℤ → List Event → Usb → Place × Usb
unfolding begin play
transfer ret es u = play es (begin ret u)

-- `dap_usb_transport_configure`
unfoldable pub configure : Usb → Result ℕ
configure u = if u.is_configured then ok 0 else err eagain
