-- ===== src/Dap/General.antt =====
-- firmware/src/dap/commands_general.c.
use riceprobe.Base.{
  ℕ, zero, suc, ◌+◌, ◌*◌, ◌/◌, ◌%◌, ◌^◌, Bool, true, false, not, ◌&&◌, ◌||◌, List, [], ◌∷◌, length,
  bit_or, ltb, leb, ◌==◌, ◌/=◌, if◌then◌else◌, min,
}
use riceprobe.Base.Int.{ℤ, pos, negsuc, to_u32}
use riceprobe.Base.Bits.{bit, has_bit, le16, le32}
use riceprobe.Errno.{emsgsize, enobufs, einval, Result}
use riceprobe.Errno
use riceprobe.Nvs.{Nvs, strncpy, get_serial_number}
use riceprobe.Zephyr.{
  Pin, tck_swclk, tms_swdio, tdo, tdi, nreset, vtref, led_connect, led_running, input,
  output_active, pull_up, pull_down, jtag_pins, swd_pins, response, gpio_get, pin_configure,
  timer_start, timer_stop, sleep_us, wait_us, timepoint, expired, buf_put_claim, buf_put_finish,
  buf_store,
}
use riceprobe.Zephyr.Prog.{pure, fail, stop, no_fuel, ask, gets, modify, require, when, ◌>>=◌, ◌>>◌}
use riceprobe.Dap.{
  LedState, Action, port_disabled, port_jtag, port_swd, response_ok, response_error,
  max_packet_size, ring_buf_size, get_u8, ring_get_le16, ring_get_le32, respond, set_pin,
  configure_pin, delay,
}
use riceprobe.Dap.Swo.{capture_control}

-- The strings of the build's configuration, each with its NUL, as `sizeof` counts it.
pub record Config : Type 0 where
  pub manufacturer : List ℕ
  pub descriptor : List ℕ
  pub serial_format : List ℕ
  pub version : List ℕ

abbrev is_zero : ℤ → Bool
is_zero (pos n) = n == 0
is_zero (negsuc n) = false

-- A string answer: its length, a `uint8_t`, and the characters, in one piece.
unfoldable pub respond_string : ℕ → List ℕ → Action (Unit {0})
unfolding strncpy
respond_string len text = do
  respond (len ∷ [])
  (space, at) ← ask (buf_put_claim response len)
  require (space == len) enobufs
  ask (buf_store response at (strncpy space text))
  ret ← ask (buf_put_finish response space)
  require (is_zero ret) enobufs

abbrev pub size_of : List ℕ → ℕ
size_of text = length text % 256

-- "2.1.1"
abbrev protocol_version : List ℕ
protocol_version = 50 ∷ 46 ∷ 49 ∷ 46 ∷ 49 ∷ 0 ∷ []

unfoldable pub respond_serial : Config → Nvs → Action (Unit {0})
unfolding respond_string get_serial_number
respond_serial config nvs = elim (get_serial_number nvs (length config.serial_format)) [
  | Errno.err e ↦ fail einval
  | Errno.ok serial ↦ respond_string (size_of config.serial_format) serial
]

-- `dap_handle_cmd_info`. The capabilities are SWD, JTAG, SWO UART, atomic commands and SWO trace;
-- `VCP_RING_BUF_SIZE` is 1024.
unfoldable pub handle_info : Config → Nvs → Action (Unit {0})
unfolding respond_serial
handle_info config nvs = do
  id ← get_u8
  respond (0x00 ∷ [])
  if id == 0x01
      then respond_string (size_of config.manufacturer) config.manufacturer
      else if id == 0x02
      then respond_string (size_of config.descriptor) config.descriptor
      else if id == 0x03
      then respond_serial config nvs
      else if id == 0x04
      then respond_string (size_of protocol_version) protocol_version
      else if leb 0x05 id && leb id 0x08
      then respond (0 ∷ [])
      else if id == 0x09
      then respond_string (size_of config.version) config.version
      else if id == 0xf0
      then respond (1 ∷ 0x57 ∷ [])
      else if id == 0xf1
      then respond (0x08 ∷ 0 ∷ 0 ∷ 0 ∷ 0 ∷ [])
      else if id == 0xfb || id == 0xfc
      then respond (0x04 ∷ le32 1024)
      else if id == 0xfd
      then respond (0x04 ∷ le32 2048)
      else if id == 0xfe
      then respond (0x01 ∷ ring_buf_size / max_packet_size % 256 ∷ [])
      else if id == 0xff
      then respond (0x02 ∷ le16 max_packet_size)
      else respond (0 ∷ [])

abbrev set_led : (LedState → LedState) → Action (Unit {0})
set_led f = modify (λ d. record d { led = f d.led })

-- The 'connect' status, on the running led if the leds are one.
unfoldable pub host_connected : Bool → Action (Unit {0})
host_connected on = do
  combined ← gets (λ d. d.led.combined)
  set_led (λ l. record l { connected = on })
  set_pin (if combined then led_running else led_connect) (if on then 1 else 0)

-- The 'running' status.
unfoldable pub host_running : Bool → Action (Unit {0})
host_running true = do set_led (λ l. record l { running = true }); ask timer_start
host_running false = do
  set_led (λ l. record l { running = false })
  ask timer_stop
  lit ← gets (λ d. d.led.combined && d.led.connected)
  set_pin led_running (if lit then 1 else 0)

-- `dap_handle_cmd_host_status`
unfoldable pub handle_host_status : Action (Unit {0})
unfolding host_connected host_running
handle_host_status = do
  type ← get_u8
  status ← get_u8
  if ltb 1 type || ltb 1 status then respond (0x01 ∷ response_error ∷ []) else (do
    if type == 0 then host_connected (status /= 0) else host_running (status /= 0)
    respond (0x01 ∷ response_ok ∷ []))

abbrev set_port : ℕ → Action (Unit {0})
set_port p = modify (λ d. record d { swj = record (d.swj) { port = p } })

-- The pins of an SWD port.
unfoldable pub connect_swd : Action ℕ
unfolding capture_control
connect_swd = do
  capture_control false
  ret ← ask (pin_configure swd_pins)
  if is_zero ret
      then (do
        configure_pin tck_swclk (input ∷ output_active ∷ [])
        configure_pin tms_swdio (input ∷ output_active ∷ [])
        configure_pin nreset (input ∷ output_active ∷ [])
        configure_pin tdi (input ∷ [])
        set_port port_swd
        pure 1)
      else pure 0

-- The pins of a JTAG port.
unfoldable pub connect_jtag : Action ℕ
unfolding capture_control
connect_jtag = do
  capture_control false
  ret ← ask (pin_configure jtag_pins)
  if is_zero ret
      then (do
        configure_pin tck_swclk (input ∷ output_active ∷ pull_down ∷ [])
        configure_pin tms_swdio (input ∷ output_active ∷ pull_up ∷ [])
        configure_pin tdi (input ∷ output_active ∷ pull_up ∷ [])
        configure_pin nreset (input ∷ output_active ∷ [])
        configure_pin tdo (input ∷ pull_up ∷ [])
        set_port port_jtag
        pure 2)
      else pure 0

abbrev is_one : ℤ → Bool
is_one (pos n) = n == 1
is_one (negsuc n) = false

-- `dap_handle_cmd_connect`
unfoldable pub handle_connect : Action (Unit {0})
unfolding connect_swd connect_jtag
handle_connect = do
  port ← get_u8
  voltage ← ask (gpio_get vtref)
  response_port ←
      (if not (is_one voltage)
        then pure 0
        else if port == 0 || port == 1
        then connect_swd
        else if port == 2
        then connect_jtag
        else pure 0)
  respond (0x02 ∷ response_port ∷ [])

-- `dap_handle_cmd_disconnect`
unfoldable pub handle_disconnect : Action (Unit {0})
unfolding capture_control
handle_disconnect = do
  capture_control false
  ret ← ask (pin_configure jtag_pins)
  set_port port_disabled
  configure_pin tck_swclk (input ∷ [])
  configure_pin tms_swdio (input ∷ [])
  configure_pin tdo (input ∷ [])
  configure_pin tdi (input ∷ [])
  configure_pin nreset (input ∷ [])
  respond (0x03 ∷ (if is_zero ret then response_ok else response_error) ∷ [])

-- `dap_handle_cmd_delay`
unfoldable pub handle_delay : Action (Unit {0})
handle_delay = do
  delay_us ← ring_get_le16
  ask (sleep_us delay_us)
  respond (0x09 ∷ response_ok ∷ [])

-- `dap_handle_cmd_reset_target`
unfoldable pub handle_reset_target : Action (Unit {0})
handle_reset_target = respond (0x0a ∷ response_ok ∷ 0 ∷ [])

-- `if ((pin_mask & BIT(k)) != 0) gpio_pin_set_dt(p, (pin_output & BIT(k)) == 0 ? 0 : 1);`
abbrev drive : Pin → ℕ → ℕ → ℕ → Action (Unit {0})
drive p k mask output_bits = when (has_bit mask k) (set_pin p (bit output_bits k))

-- The wait for nreset to settle, with the rounds left.
unfoldable pub settle : ℕ → ℕ → ℕ → Action (Unit {0})
settle zero until output_bits = stop no_fuel
settle (suc left) until output_bits = do
  level ← ask (gpio_get nreset)
  elim (bit output_bits 7 * 128 /= to_u32 level * 128 % 0x100000000) [
    | false ↦ pure tt
    | true ↦ do
      ask (wait_us 1)
      over ← ask (expired until)
      elim over [ true ↦ pure tt | false ↦ settle left until output_bits ]
  ]

abbrev level_bits : ℤ → ℕ → ℕ
level_bits level k = to_u32 level * 2 ^ k % 0x100000000

-- The levels of the pins in one byte.
unfoldable pub read_pins : Action ℕ
read_pins = do
  a ← ask (gpio_get tck_swclk)
  b ← ask (gpio_get tms_swdio)
  c ← ask (gpio_get tdi)
  d ← ask (gpio_get tdo)
  e ← ask (gpio_get nreset)
  pure (
      bit_or
        (bit_or (bit_or (bit_or (level_bits a 0) (level_bits b 1)) (level_bits c 2))
          (level_bits d 3))
        (level_bits e 7)
      % 256)

-- `dap_handle_cmd_swj_pins`. A round of the wait takes a microsecond at least.
unfoldable pub handle_swj_pins : Action (Unit {0})
unfolding settle read_pins
handle_swj_pins = do
  pin_output ← get_u8
  pin_mask ← get_u8
  wanted_us ← ring_get_le32
  drive tck_swclk 0 pin_mask pin_output
  drive tms_swdio 1 pin_mask pin_output
  drive tdi 2 pin_mask pin_output
  drive tdo 3 pin_mask pin_output
  drive nreset 7 pin_mask pin_output
  let delay_us = min wanted_us 3000000
  when (ltb 0 delay_us && has_bit pin_mask 7)
      (do until ← ask (timepoint delay_us); settle (delay_us + 1) until pin_output)
  pin_input ← read_pins
  respond (0x10 ∷ pin_input ∷ [])

-- `dap_handle_cmd_swj_clock`
unfoldable pub handle_swj_clock : Action (Unit {0})
handle_swj_clock = do
  clock ← ring_get_le32
  if clock == 0 then respond (0x11 ∷ response_error ∷ []) else (do
    modify (λ d. record d {
      swj = record (d.swj) { clock = clock; delay_ns = 1000000000 / clock / 2 };
    })
    respond (0x11 ∷ response_ok ∷ []))

-- The loop of `dap_handle_cmd_swj_sequence` from cycle `i` on.
unfoldable pub swj_bits : ℕ → ℕ → ℕ → Action (Unit {0})
swj_bits zero i bits = pure tt
swj_bits (suc left) i bits = do
  now ← (if i % 8 == 0 then get_u8 else pure bits)
  set_pin tms_swdio (now % 2)
  set_pin tck_swclk 0
  delay
  set_pin tck_swclk 1
  delay
  swj_bits left (i + 1) (now / 2)

-- `dap_handle_cmd_swj_sequence`
unfoldable pub handle_swj_sequence : Action (Unit {0})
unfolding swj_bits
handle_swj_sequence = do
  count ← get_u8
  swj_bits (if count == 0 then 256 else count) 0 0
  respond (0x12 ∷ response_ok ∷ [])
