-- ===== src/Lib.antt =====
-- Riceprobe is the firmware of a debug probe: it speaks CMSIS-DAP to a host, over USB or TCP, and SWD
-- or JTAG to a target; it also offers a virtual COM port and general purpose pins. This library models
-- the parts of it below firmware/src that interpret data, and the script that writes the names of a device,
-- and proves what makes them correct.
--
-- The parts and how they interact. There are two drivers with a thread each, one for the debug port
-- (firmware/src/dap/dap.c) and one for the pins (firmware/src/io/io.c). A thread chooses a transport and
-- receives a request in a ring buffer; the request handler takes commands from it and calls one handler
-- for each, which reads its arguments from the request buffer, changes the driver's state, drives the
-- pins, and writes its part of the response, which the thread then sends. A transport that fails resets
-- the driver. An interrupt of the UART collects trace data. The commands of the second driver are code
-- points (firmware/src/utf8.c), the names that the probe shows come from flash (firmware/src/nvs.c).
--
-- The files:
--   Base, and its children: numbers, lists, bytes and Boolean tests. Errno: the error codes.
--   Utf8: firmware/src/utf8.c, `utf8_encode` as `encode` and `utf8_decode` as `decode`; a buffer to be
--     written is its size, and the bytes written are the result. Utf8/Rbuf has `utf8_rbuf_put` and
--     `utf8_rbuf_get`.
--   Nvs: firmware/src/nvs.c; flash is an argument. Nvs/Text has the texts that it makes,
--     Nvs/Uuid one who reads them, Nvs/Start when `nvs_init` succeeds.
--   Mfg: scripts/mfg/gen_manufacturing_data_hex.py, which writes what nvs.c reads. Mfg/Luhn has the check
--     character of a serial number, Mfg/Flash a device that is programmed and started.
--   Zephyr: the calls of the firmware to Zephyr, as data. Zephyr/Prog has programs as trees of calls
--     and answers, played against a server, and the state and error monad of the handlers.
--     Zephyr/Always has what holds of the state whatever is answered, Zephyr/Obeys what holds of every
--     call, Zephyr/Ends when a program comes to an end, Zephyr/Run how runs are put together.
--     Zephyr/Ring and Zephyr/Bench are one server to try programs on: three ring buffers as Zephyr's
--     documents describe them, and any environment for all other calls; Zephyr/Clock shows that it keeps
--     the laws of Zephyr/Ends, Zephyr/Reply those that a reply needs, Zephyr/Stage has test data. No handler
--     depends on them.
--   Dap: the driver's state, `struct dap_driver`, as the record Driver, less its pins and buffers, which
--     belong to the server, and the helpers of firmware/src/util.h. Each file of commands has a module:
--     Dap/General (commands_general.c), Dap/Swd (commands_swd.c), Dap/Jtag (commands_jtag.c), Dap/Swo
--     (commands_swo.c; Moves, Loop, Count and Data below it have the way of the trace data), Dap/Transfer with
--     Port and Block (commands_transfer.c); the handler `dap_handle_cmd_x` is `handle_x`. Dap/Request has `dap_handle_request`, `dap_reset`, and of
--     `dap_thread_fn` the code between a receive and a send; Dap/Thread has a round of the thread as
--     `round`, `swo_uart_isr`, the led timer and `dap_init` as `init`.
--     Dap/Tcp is firmware/src/dap/transport_tcp.c (`dap_tcp_transport_x` as `x`) over an interface for
--     sockets; Dap/Tcp/Frames has the laws of these and the frames.
--   Dap/Invariant: the well-formed driver, and a module for each file of commands that keeps it so;
--     Dap/Invariant/Reset has what a reset leaves, and the states that the driver reaches.
--   Dap/Reply: what the host gets for a request that fails, over the laws in Zephyr/Reply.
--   Dap/Wave: the levels that a target samples. Dap/Wave/Swd has the packets of SWD, Dap/Wave/Tap the
--     state machine of a JTAG test access port, the scan of an instruction and the walk of a transfer.
--     Dap/Wave/Target has a target that answers on swdio: Reply is the protocol's view of a transfer over
--     SWD, Phases and Transfer have the code's, and Retry has the transfers that the target asks to repeat.
--   Io: the driver of the pins, `struct io_driver`, in the same way: Io/General, Io/Gpio and Io/Pins
--     (commands_general.c, commands_gpio.c, commands_pinctrl.c in firmware/src/io), where
--     `io_handle_cmd_x` is `handle_x`, and Io/Request (io.c). What the devicetree gives is a record Board.
--     Io/Calls has which calls its commands make, Io/Finish why its requests come to an end, Io/Reply what
--     the host gets for one that fails.
--   Vcp: the virtual COM port, two ring buffers between the interrupt of a UART and the callbacks of USB.
--     Vcp/Fifo is what it asks of a ring buffer, with its laws, and Zephyr/Ring as one that keeps them.
--     Vcp/Device has firmware/src/vcp/vcp.c and the callbacks of firmware/src/vcp/usb.c (`vcp_x` and
--     `vcp_usb_x` as `x`), Vcp/Coding its line codings, Vcp/Descriptor its USB descriptors. Vcp/Stream has
--     the way from the UART to the host as steps in any order; Vcp/Stream/Order and Vcp/Stream/Queue show
--     that it is a queue. Vcp/Host is the way from the host to the UART, over the laws in Vcp/Feed.
--   Usb: firmware/src/dap/transport_usb.c, a machine whose steps come in any order: those of the thread that
--     waits for a transfer, the end of the transfer, its callback, the changes of the status, and the
--     milliseconds. The end of a transfer and its callback are two steps. The semaphore is a flag, which the
--     thread takes in a step of its own. Usb/Wait and Usb/Loss have how a wait ends, Usb/Free what it leaves.
--     Io/Transport is firmware/src/io/transport_usb.c, which is the same code on another interface.
--   Msos: firmware/src/usb_msos.c (`usb_msos_x` as `x`). Msos/Reader reads the descriptors by Microsoft's
--     format, as a host does; Msos/Serial has the serial number.
--   Util: `busy_wait_nanos` of firmware/src/util.h, over what the counter of cycles reads.
--
-- Numbers. A C integer is a natural number; where it wraps, the reduction is written out. Loops that C
-- bounds are structural. Others have a number of rounds: the request loops, whose number is an argument;
-- the wait for nreset, with a round for each microsecond of its timeout and one more; the wait for a
-- level of a pin, with a round for each millisecond and one more; the copy of SWO data, with 65537
-- rounds, where each but the last takes a byte of a buffer of 2048; and the loops of the interrupt, whose
-- number is an argument. The DAP request loop has no number that is enough for every request, since its
-- transfers write to the request buffer; what is stated of it and of the interrupt holds for every number.
--
-- An interrupt or a timer is a step between rounds of a thread, not inside one. The negative code of a
-- call that fails in an init or in the reset of the pins is not told apart from others. A packet of USB has
-- 512 bytes, as with high speed; with full speed it would have 64.
--
-- Not modelled: the registration for DNS; the flush of a UART whose buffer is full, which takes bytes that
-- nothing keeps; and firmware/src/main.c, which calls the init functions. The functions of a transport are
-- calls of the drivers, so that no transport is joined to a thread. Log messages are left out.
pub mod Base
pub mod Errno
pub mod Utf8
pub mod Zephyr
pub mod Nvs
pub mod Dap
pub mod Io
pub mod Vcp
pub mod Util
pub mod Usb
pub mod Msos
pub mod Mfg
