-- ===== src/Dap/Swo.antt =====
-- firmware/src/dap/commands_swo.c.
pub mod Moves
pub mod Loop
pub mod Count
pub mod Data
use riceprobe.Base.{
  ℕ, zero, suc, ◌+◌, ◌%◌, Bool, true, false, not, ◌&&◌, ◌||◌, [], ◌∷◌, length, take, ltb, leb, ◌==◌,
  ◌/=◌, if◌then◌else◌,
}
use riceprobe.Base.Int.{ℤ, pos, negsuc, is_negative}
use riceprobe.Base.Bits.{has_bit, le16}
use riceprobe.Errno.{enobufs}
use riceprobe.Zephyr.{
  response, swo, buf_get_claim, buf_get_finish, buf_put_claim, buf_put_finish, buf_store, buf_reset,
  buf_size, buf_space, uart_rx_enable, uart_rx_disable, uart_err_enable, uart_err_disable,
  uart_configure,
}
use riceprobe.Zephyr.Prog.{pure, stop, no_fuel, ask, gets, modify, require, when, ◌>>=◌, ◌>>◌}
use riceprobe.Dap.{
  SwoState, Action, port_swd, response_ok, response_error, get_u8, get_u16, ring_get_le32,
  ring_put_le32, respond,
}

abbrev pub mode_uart : ℕ
mode_uart = 1

abbrev pub mode_manchester : ℕ
mode_manchester = 2

abbrev pub set_swo : (SwoState → SwoState) → Action (Unit {0})
set_swo f = modify (λ d. record d { swo = f d.swo })

-- `swo_capture_control`
unfoldable pub capture_control : Bool → Action (Unit {0})
capture_control true = do
  set_swo (λ s. record s { capture = true; overrun = false })
  ask (buf_reset swo)
  ask uart_err_enable
  ask uart_rx_enable
capture_control false = do
  ask uart_rx_disable
  ask uart_err_disable
  set_swo (λ s. record s { capture = false; error = false })

-- `dap_handle_cmd_swo_transport`
unfoldable pub handle_swo_transport : Action (Unit {0})
handle_swo_transport = do
  transport ← get_u8
  if transport == 1 || transport == 0
      then (do set_swo (λ s. record s { transport = transport }); respond (0x17 ∷ response_ok ∷ []))
      else respond (0x17 ∷ response_error ∷ [])

-- A mode that is allowed: the capture of the old one ends.
unfoldable pub set_mode : ℕ → ℕ → Action (Unit {0})
unfolding capture_control
set_mode mode old = do
  when (old == mode_uart) (capture_control false)
  set_swo (λ s. record s { mode = mode })
  respond (0x18 ∷ response_ok ∷ [])

-- `dap_handle_cmd_swo_mode`
unfoldable pub handle_swo_mode : Action (Unit {0})
unfolding set_mode
handle_swo_mode = do
  mode ← get_u8
  port ← gets (λ d. d.swj.port)
  old ← gets (λ d. d.swo.mode)
  if port /= port_swd || leb mode_manchester mode
      then respond (0x18 ∷ response_error ∷ [])
      else set_mode mode old

-- The rate that `uart_configure` leaves, 0 where it fails.
abbrev pub configured_rate : ℤ → ℕ → ℕ
configured_rate (pos zero) rate = rate
configured_rate (pos (suc n)) rate = 0
configured_rate (negsuc n) rate = 0

-- `dap_handle_cmd_swo_baudrate`
unfoldable pub handle_swo_baudrate : Action (Unit {0})
handle_swo_baudrate = do
  baudrate ← ring_get_le32
  respond (0x19 ∷ [])
  mode ← gets (λ d. d.swo.mode)
  when (mode == mode_uart) (do
    ret ← ask (uart_configure baudrate)
    set_swo (λ s. record s { baudrate = configured_rate ret baudrate }))
  rate ← gets (λ d. d.swo.baudrate)
  ring_put_le32 response rate

-- A capture that is allowed, on or off.
unfoldable pub set_capture : ℕ → Action (Unit {0})
unfolding capture_control
set_capture control = do capture_control (control == 1); respond (0x1a ∷ response_ok ∷ [])

-- `dap_handle_cmd_swo_control`
unfoldable pub handle_swo_control : Action (Unit {0})
unfolding set_capture
handle_swo_control = do
  control ← get_u8
  port ← gets (λ d. d.swj.port)
  mode ← gets (λ d. d.swo.mode)
  if port /= port_swd || (control == 1 && mode /= mode_uart)
      then respond (0x1a ∷ response_error ∷ [])
      else set_capture control

-- The status byte: the three bits are apart.
abbrev pub trace_status : SwoState → ℕ
trace_status s =
    (if s.capture then 0x01 else 0)
    + (if s.error then 0x40 else 0)
    + (if s.overrun then 0x80 else 0)

-- `dap_handle_cmd_swo_status`
unfoldable pub handle_swo_status : Action (Unit {0})
handle_swo_status = do
  respond (0x1b ∷ [])
  status ← gets (λ d. trace_status d.swo)
  respond (status ∷ [])
  count ← ask (buf_size swo)
  ring_put_le32 response count

-- `dap_handle_cmd_swo_extended_status`
unfoldable pub handle_swo_extended_status : Action (Unit {0})
handle_swo_extended_status = do
  control ← get_u8
  respond (0x1e ∷ [])
  status ← gets (λ d. trace_status d.swo)
  when (has_bit control 0) (respond (status ∷ []))
  when (has_bit control 1) (do count ← ask (buf_size swo); ring_put_le32 response count)

abbrev pub is_zero : ℤ → Bool
is_zero (pos n) = n == 0
is_zero (negsuc n) = false

-- One round of the loop of `dap_handle_cmd_swo_data`: how many bytes it moved.
unfoldable pub move_swo : ℕ → Action ℕ
move_swo max_count = do
  xs ← ask (buf_get_claim swo max_count)
  (size, at) ← ask (buf_put_claim response (length xs))
  ask (buf_store response at (take size xs))
  get_ret ← ask (buf_get_finish swo size)
  put_ret ← ask (buf_put_finish response size)
  require (is_zero get_ret && is_zero put_ret) enobufs
  pure size

-- The loop, with the rounds left to it; `count` is a `uint16_t`.
unfoldable pub move_swo_loop : ℕ → ℕ → ℕ → Action ℕ
move_swo_loop zero max_count count = stop no_fuel
move_swo_loop (suc fuel) max_count count = do
  size ← move_swo max_count
  let count' = (count + size) % 0x10000
  left ← ask (buf_size swo)
  space ← ask (buf_space response)
  elim (ltb count' max_count && ltb 0 left && ltb 0 space) [
    | true ↦ move_swo_loop fuel max_count count'
    | false ↦ pure count'
  ]

-- `dap_handle_cmd_swo_data`. Each round but the last takes a byte of the trace buffer at least, which holds fewer
-- than there are rounds.
unfoldable pub handle_swo_data : Action (Unit {0})
unfolding move_swo_loop move_swo
handle_swo_data = do
  max_count ← get_u16
  respond (0x1c ∷ [])
  status ← gets (λ d. trace_status d.swo)
  respond (status ∷ [])
  (size, at) ← ask (buf_put_claim response 2)
  require (size == 2) enobufs
  ret ← ask (buf_put_finish response 2)
  require (not (is_negative ret)) enobufs
  count ← move_swo_loop 0x10001 max_count 0
  ask (buf_store response at (le16 count))
