-- ===== src/Dap/Request.antt =====
-- firmware/src/dap/dap.c: the request handler, the reset of the driver, and the part of the driver's
-- thread between the receive and the send of a transport.
use riceprobe.Base.{
  ℕ, zero, suc, ◌+◌, ◌/◌, ◌%◌, Bool, true, false, not, ◌&&◌, ◌||◌, List, [], ◌∷◌, replicate, ltb,
  ◌==◌, if◌then◌else◌, none,
}
use riceprobe.Base.Int.{ℤ, pos, negsuc, is_negative}
use riceprobe.Errno.{enotsup}
use riceprobe.Nvs.{Nvs}
use riceprobe.Zephyr.{
  tck_swclk, tms_swdio, tdo, tdi, nreset, led_connect, led_running, input, jtag_pins, request,
  response, swo, buf_put, buf_reset, buf_get_claim, pin_configure, timer_stop, uart_rx_disable,
  uart_err_disable, uart_configure,
}
use riceprobe.Zephyr.Prog.{
  Prog, Outcome, ok, err, oops, no_fuel, pure, fail, stop, ask, gets, modify, fatal_check, then_do,
  ◌>>=◌, ◌>>◌,
}
use riceprobe.Dap.{
  Driver, Action, port_disabled, default_swj_clock_rate, max_device_count, ring_buf_size,
  response_error, get_u8, respond, set_pin, configure_pin,
}
use riceprobe.Dap.General.{
  Config, handle_info, handle_host_status, handle_connect, handle_disconnect, handle_delay,
  handle_reset_target, handle_swj_pins, handle_swj_clock, handle_swj_sequence,
}
use riceprobe.Dap.Swd.{handle_swd_configure, handle_swd_sequence}
use riceprobe.Dap.Jtag.{handle_jtag_configure, handle_jtag_sequence, handle_jtag_idcode}
use riceprobe.Dap.Swo.{
  handle_swo_transport, handle_swo_mode, handle_swo_baudrate, handle_swo_control, handle_swo_status,
  handle_swo_extended_status, handle_swo_data,
}
use riceprobe.Dap.Transfer.{
  handle_transfer_configure, handle_transfer, handle_transfer_abort, handle_write_abort,
}
use riceprobe.Dap.Transfer.Block.{handle_transfer_block}

-- The chain of tests on the command of `dap_handle_request`, in two halves.
unfoldable pub dispatch_swo : ℕ → Action (Unit {0})
dispatch_swo c =
    if c == 0x17
    then handle_swo_transport
    else if c == 0x18
    then handle_swo_mode
    else if c == 0x19
    then handle_swo_baudrate
    else if c == 0x1a
    then handle_swo_control
    else if c == 0x1b
    then handle_swo_status
    else if c == 0x1c
    then handle_swo_data
    else if c == 0x1d
    then handle_swd_sequence
    else if c == 0x1e
    then handle_swo_extended_status
    else fail enotsup

unfoldable pub dispatch : Config → Nvs → ℕ → Action (Unit {0})
unfolding dispatch_swo
dispatch config nvs c =
    if c == 0x00
    then handle_info config nvs
    else if c == 0x01
    then handle_host_status
    else if c == 0x02
    then handle_connect
    else if c == 0x03
    then handle_disconnect
    else if c == 0x04
    then handle_transfer_configure
    else if c == 0x05
    then handle_transfer
    else if c == 0x06
    then handle_transfer_block
    else if c == 0x07
    then handle_transfer_abort
    else if c == 0x08
    then handle_write_abort
    else if c == 0x09
    then handle_delay
    else if c == 0x0a
    then handle_reset_target
    else if c == 0x10
    then handle_swj_pins
    else if c == 0x11
    then handle_swj_clock
    else if c == 0x12
    then handle_swj_sequence
    else if c == 0x13
    then handle_swd_configure
    else if c == 0x14
    then handle_jtag_sequence
    else if c == 0x15
    then handle_jtag_configure
    else if c == 0x16
    then handle_jtag_idcode
    else dispatch_swo c

-- The head of a round: the number of commands left, a `uint8_t`, and the command to handle.
unfoldable pub next_command : ℕ → ℕ → Action (ℕ × ℕ)
next_command num command =
    if command == 0x7e || command == 0x7f
    then (do
      num' ← get_u8
      respond (0x7f ∷ [])
      respond (num' ∷ [])
      command' ← get_u8
      pure (num', command'))
    else pure (num, command)

-- The loop of `dap_handle_request`, with the rounds that are left to it. A queue that has run out of
-- commands asks for one more.
unfoldable pub request_loop : Config → Nvs → ℕ → ℕ → Bool → Action (Unit {0})
request_loop config nvs zero num queued = stop no_fuel
request_loop config nvs (suc fuel) num queued = do
  let again = queued && num == 0
  command ← get_u8
  let queued' = (queued && not again) || command == 0x7e
  (num', command') ← next_command (if again then 1 else num) command
  dispatch config nvs command'
  let left = (num' + 255) % 256
  elim (ltb 0 left || queued') [
    | true ↦ request_loop config nvs fuel left queued'
    | false ↦ pure tt
  ]

-- `dap_handle_request`
unfoldable pub handle_request : Config → Nvs → ℕ → Action (Unit {0})
unfolding request_loop next_command dispatch
handle_request config nvs fuel = request_loop config nvs fuel 1 false

-- What becomes of a request that was handled: one that failed leaves one byte 0xff.
unfoldable pub settle_response : Outcome (Unit {0}) × Driver → Prog (Outcome (Unit {0}) × Driver)
settle_response (ok a, d) = pure a d
settle_response (err e, d) =
    (do
      ask (buf_reset response)
      n ← ask (buf_put response (response_error ∷ []))
      fatal_check (n == 1))
      d
settle_response (oops, d) = stop oops d
settle_response (no_fuel, d) = stop no_fuel d

unfoldable pub recover : Action (Unit {0}) → Action (Unit {0})
unfolding settle_response
recover m d = then_do (m d) settle_response

-- The answer to a request that was received, as it is handed to the transport.
unfoldable pub answer_request : Config → Nvs → ℕ → Action (List ℕ)
unfolding handle_request recover
answer_request config nvs fuel = do
  ask (buf_reset response)
  recover (handle_request config nvs fuel)
  ask (buf_get_claim response ring_buf_size)

-- What `dap_reset` writes to the driver's state; whether the leds are one is left as it is.
unfoldable pub reset_state : Driver → Driver
reset_state d = record {
  swj = record {
    port = port_disabled;
    clock = default_swj_clock_rate;
    delay_ns = 1000000000 / default_swj_clock_rate / 2;
  };
  jtag = record {
    count = 0;
    index = 0;
    ir_length = replicate max_device_count 0;
    ir_before = replicate max_device_count 0;
    ir_after = replicate max_device_count 0;
  };
  swd = record { turnaround_cycles = 1; data_phase = false };
  swo = record {
    transport = 0;
    mode = 0;
    baudrate = 1000000;
    capture = false;
    error = false;
    overrun = false;
  };
  transfer = record { idle_cycles = 0; wait_retries = 100; match_retries = 0; match_mask = 0 };
  led = record (d.led) { connected = false; running = false };
  transport_used = none;
}

abbrev is_zero : ℤ → Bool
is_zero (pos n) = n == 0
is_zero (negsuc n) = false

-- What `dap_reset` does once its state is written.
unfoldable pub clear : Action (Unit {0})
unfolding ◌>>=◌
clear = do
  ask timer_stop
  set_pin led_connect 0
  set_pin led_running 0
  ask uart_rx_disable
  ask uart_err_disable
  rate ← gets (λ d. d.swo.baudrate)
  done ← ask (uart_configure rate)
  fatal_check (not (is_negative done))
  ask (buf_reset request)
  ask (buf_reset response)
  ask (buf_reset swo)

-- `dap_reset`
unfoldable pub reset : Action (Unit {0})
reset = do
  ret ← ask (pin_configure jtag_pins)
  fatal_check (is_zero ret)
  configure_pin tck_swclk (input ∷ [])
  configure_pin tms_swdio (input ∷ [])
  configure_pin tdo (input ∷ [])
  configure_pin tdi (input ∷ [])
  configure_pin nreset (input ∷ [])
  modify reset_state
  clear
