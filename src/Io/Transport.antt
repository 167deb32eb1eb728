-- ===== src/Io/Transport.antt =====
-- firmware/src/io/transport_usb.c: the code of firmware/src/dap/transport_usb.c, on an interface of its own.
use riceprobe.Base.{ℕ, List}
use riceprobe.Base.Int.{ℤ}
use riceprobe.Errno.{Result}
use riceprobe.Msos.{Funcs, set_func1_interface}
use riceprobe.Usb
use riceprobe.Usb.{Usb, Status, Interface, Event, Place}

-- `io_usb_interface_config`
unfoldable pub interface_config : ℕ → ℕ → Funcs → Interface × Funcs
unfolding set_func1_interface
interface_config index number funcs =
    (record { b_interface_number = number; i_interface = index }, set_func1_interface number funcs)

-- `io_usb_status_cb`
unfoldable pub status_cb : Status → Usb → Usb
unfolding Usb.status_cb
status_cb = Usb.status_cb

-- `io_usb_send_cb` and `io_usb_recv_cb`
unfoldable pub transfer_cb : ℤ → Usb → Usb
unfolding Usb.transfer_cb
transfer_cb = Usb.transfer_cb

-- `io_usb_transport_configure`
unfoldable pub configure : Usb → Result ℕ
unfolding Usb.configure
configure = Usb.configure

-- `io_usb_transport_recv` and `io_usb_transport_send`, as far as a schedule gets them
unfoldable pub transfer : ℤ → List Event → Usb → Place × Usb
unfolding Usb.transfer
transfer = Usb.transfer
