-- ===== src/Io/Pins.antt =====
-- firmware/src/io/commands_pinctrl.c.
use riceprobe.Base.{
  ℕ, zero, suc, ◌+◌, ◌%◌, Bool, true, false, not, ◌&&◌, List, [], ◌∷◌, ◌++◌, ltb, ◌==◌, ◌/=◌,
  bit_or, if◌then◌else◌, Option, none, some,
}
use riceprobe.Base.Int.{is_negative}
use riceprobe.Base.Bits.{has_bit}
use riceprobe.Errno.{enobufs}
use riceprobe.Zephyr.{
  Flag, input, pull_up, pull_down, gpios, gpio_configure, pin_write, response, buf_put_claim,
  buf_put_finish, buf_store,
}
use riceprobe.Zephyr.Prog.{pure, ask, gets, modify, require, ◌>>=◌, ◌>>◌}
use riceprobe.Dap.{get_u8, respond}
use riceprobe.Io.{
  Action, Board, PinFunction, respond_command, respond_status, response_ok, response_eio,
  response_enotsup, func_gpio,
}
use riceprobe.Io.Gpio.{refuse_flags}

-- The functions of a pin, each written behind the others and then counted at `at`, a `uint8_t`.
unfoldable pub list_functions : ℕ → ℕ → List PinFunction → ℕ → Action (Unit {0})
unfolding ◌>>=◌
list_functions at pin [] count = pure tt
list_functions at pin (f ∷ fs) count = elim (f.pin == pin) [
  | false ↦ list_functions at pin fs count
  | true ↦ (do
    respond (f.function ∷ f.index ∷ [])
    ask (buf_store response at ((count + 1) % 256 ∷ []))
    list_functions at pin fs ((count + 1) % 256))
]

unfoldable pub respond_functions : ℕ → Action (Unit {0})
unfolding list_functions
respond_functions pin = do
  (size, at) ← ask (buf_put_claim response 1)
  require (size == 1) enobufs
  ret ← ask (buf_put_finish response 1)
  require (not (is_negative ret)) enobufs
  ask (buf_store response at (0 ∷ []))
  pinctrls ← gets (λ d. d.pinctrls)
  list_functions at pin pinctrls 0

-- `io_handle_cmd_pins_caps`
unfoldable pub handle_pins_caps : Board → Action (Unit {0})
unfolding respond_functions
handle_pins_caps board = do
  respond_command 0x09
  pin ← get_u8
  if ltb board.gpios pin then respond_status response_enotsup else (do
    respond_status response_ok
    respond (1 ∷ (if board.open_drain == 0 then 0x03 else 0x07) ∷ [])
    respond_functions pin)

-- The two loops of a reset of the pins: whether every call of theirs went well. `left` pins are to go.
unfoldable pub input_gpios : ℕ → ℕ → Action Bool
unfolding ◌>>=◌
input_gpios i zero = pure true
input_gpios i (suc left) = do
  ret ← ask (gpio_configure (gpios i) (input ∷ []))
  elim (is_negative ret) [ true ↦ pure false | false ↦ input_gpios (i + 1) left ]

unfoldable pub write_gpio_pins : List PinFunction → Action Bool
unfolding ◌>>=◌
write_gpio_pins [] = pure true
write_gpio_pins (f ∷ fs) = elim (f.function == func_gpio) [
  | false ↦ write_gpio_pins fs
  | true ↦ (do
    ret ← ask (pin_write f.pinctrl)
    elim (is_negative ret) [ true ↦ pure false | false ↦ write_gpio_pins fs ])
]

unfoldable pub default_pins : Board → Action Bool
unfolding input_gpios write_gpio_pins
default_pins board = do
  done ← input_gpios 0 board.gpios
  elim done [
    | false ↦ pure false
    | true ↦ (do pinctrls ← gets (λ d. d.pinctrls); write_gpio_pins pinctrls)
  ]

-- `io_handle_cmd_pins_default`
unfoldable pub handle_pins_default : Board → Action (Unit {0})
unfolding default_pins
handle_pins_default board = do
  respond_command 0x0a
  done ← default_pins board
  respond_status (if done then response_ok else response_eio)

abbrev pub is_function : ℕ → ℕ → ℕ → PinFunction → Bool
is_function pin function index f = f.pin == pin && (f.function == function && f.index == index)

-- Where the last function that matches stands.
abbrev pub last_match : ℕ → ℕ → ℕ → ℕ → List PinFunction → Option ℕ
last_match pin function index i [] = none
last_match pin function index i (f ∷ fs) =
    let rest = last_match pin function index (i + 1) fs in
    elim rest [ some j ↦ some j | none ↦ if is_function pin function index f then some i else none ]

-- `*pinctrl |= ...` for each flag that is set.
abbrev pub with_flags : Board → ℕ → ℕ → ℕ
with_flags board flags value =
    let up = if has_bit flags 0 then bit_or value board.pull_up else value in
    let down = if has_bit flags 1 then bit_or up board.pull_down else up in
    if has_bit flags 2 then bit_or down board.open_drain else down

abbrev pub adjust_at : Board → ℕ → ℕ → List PinFunction → List PinFunction
adjust_at board flags at [] = []
adjust_at board flags zero (f ∷ fs) = record f { pinctrl = with_flags board flags f.pinctrl } ∷ fs
adjust_at board flags (suc at) (f ∷ fs) = f ∷ adjust_at board flags at fs

abbrev pub pinctrl_at : ℕ → List PinFunction → ℕ
pinctrl_at at [] = 0
pinctrl_at zero (f ∷ fs) = f.pinctrl
pinctrl_at (suc at) (f ∷ fs) = pinctrl_at at fs

abbrev pub gpio_flags : ℕ → List Flag
gpio_flags flags =
    input
    ∷ ((if has_bit flags 0 then pull_up ∷ [] else [])
        ++ (if has_bit flags 1 then pull_down ∷ [] else []))

-- The control value of the function goes to its pin.
unfoldable pub write_function : ℕ → Action (Unit {0})
unfolding ◌>>=◌
write_function at = do
  value ← gets (λ d. pinctrl_at at d.pinctrls)
  ret ← ask (pin_write value)
  respond_status (if is_negative ret then response_eio else response_ok)

-- What `io_handle_cmd_pins_cfg` does with the function that it found: its control value keeps the flags,
-- a pin that becomes a GPIO is an input first.
unfoldable pub configure_function : Board → ℕ → ℕ → ℕ → Option ℕ → Action (Unit {0})
unfolding write_function
configure_function board function index flags none = respond_status response_enotsup
configure_function board function index flags (some at) = do
  modify (λ d. record d { pinctrls = adjust_at board flags at d.pinctrls })
  elim (function == func_gpio) [
    | true ↦ (do
      ret ← ask (gpio_configure (gpios index) (gpio_flags flags))
      if is_negative ret then respond_status response_eio else write_function at)
    | false ↦ write_function at
  ]

-- `io_handle_cmd_pins_cfg`
unfoldable pub handle_pins_cfg : Board → Action (Unit {0})
unfolding configure_function
handle_pins_cfg board = do
  respond_command 0x0b
  pin ← get_u8
  function ← get_u8
  index ← get_u8
  flags_len ← get_u8
  if flags_len /= 1 then refuse_flags flags_len else (do
    flags ← get_u8
    found ← gets (λ d. last_match pin function index 0 d.pinctrls)
    configure_function board function index flags found)
