-- ===== src/Dap/Jtag.antt =====
-- firmware/src/dap/commands_jtag.c.
use riceprobe.Base.{
  ℕ, zero, suc, ◌+◌, ◌-◌, ◌*◌, ◌/◌, ◌%◌, ◌^◌, min, Bool, false, not, ◌||◌, [], ◌∷◌, length, get_or,
  set, ltb, leb, ◌==◌, ◌/=◌, if◌then◌else◌,
}
use riceprobe.Base.Int.{ℤ, pos, negsuc, to_u8, is_negative}
use riceprobe.Base.Bits.{bit, has_bit, le32}
use riceprobe.Errno.{emsgsize, enobufs}
use riceprobe.Zephyr.{
  tck_swclk, tms_swdio, tdo, tdi, request, response, gpio_get, buf_put, buf_get_claim,
  buf_get_finish, buf_put_claim, buf_put_finish, buf_store,
}
use riceprobe.Zephyr.Prog.{pure, ask, gets, modify, require, when, repeat, ◌>>=◌, ◌>>◌}
use riceprobe.Dap.{
  Driver, JtagState, Action, max_device_count, port_jtag, response_ok, response_error, get_u8,
  respond, set_pin, delay,
}
use riceprobe.Dap.Swd.{cycles_of}

-- `jtag_tck_cycle`
unfoldable pub tck_cycle : Action (Unit {0})
tck_cycle = do set_pin tck_swclk 0; delay; set_pin tck_swclk 1; delay

-- `jtag_tdi_cycle`
unfoldable pub tdi_cycle : ℕ → Action (Unit {0})
tdi_cycle x = do set_pin tdi (x % 2); set_pin tck_swclk 0; delay; set_pin tck_swclk 1; delay

-- `jtag_tdo_cycle`
unfoldable pub tdo_cycle : Action ℕ
tdo_cycle = do
  set_pin tck_swclk 0
  delay
  level ← ask (gpio_get tdo)
  set_pin tck_swclk 1
  delay
  pure (to_u8 level % 2)

-- `jtag_tdio_cycle`
unfoldable pub tdio_cycle : ℕ → Action ℕ
tdio_cycle x = do
  set_pin tdi (x % 2)
  set_pin tck_swclk 0
  delay
  level ← ask (gpio_get tdo)
  set_pin tck_swclk 1
  delay
  pure (to_u8 level % 2)

-- The bits of a word on tdi, lowest first; what is left of the word.
unfoldable pub tdi_bits : ℕ → ℕ → Action ℕ
tdi_bits zero x = pure x
tdi_bits (suc k) x = do tdi_cycle x; tdi_bits k (x / 2)

-- Bits from tdo, the next of weight `2 ^ i`: `x |= bit << i`.
unfoldable pub tdo_bits : ℕ → ℕ → ℕ → Action ℕ
tdo_bits zero i acc = pure acc
tdo_bits (suc k) i acc = do b ← tdo_cycle; tdo_bits k (i + 1) (acc + b * 2 ^ i)

abbrev ir_before_at : Driver → ℕ
ir_before_at d = get_or d.jtag.ir_before d.jtag.index 0

abbrev ir_length_at : Driver → ℕ
ir_length_at d = get_or d.jtag.ir_length d.jtag.index 0

abbrev ir_after_at : Driver → ℕ
ir_after_at d = get_or d.jtag.ir_after d.jtag.index 0

-- `jtag_set_ir`. The arithmetic of the bounds is on `int`, so `ir_length - 1` is no round at 0.
unfoldable pub set_ir : ℕ → Action (Unit {0})
unfolding tck_cycle tdi_cycle tdi_bits
set_ir ir = do
  before ← gets ir_before_at
  len ← gets ir_length_at
  after ← gets ir_after_at
  set_pin tms_swdio 1
  tck_cycle
  tck_cycle
  set_pin tms_swdio 0
  tck_cycle
  tck_cycle
  set_pin tdi 1
  repeat before tck_cycle
  last ← tdi_bits (len - 1) ir
  if after == 0 then (do set_pin tms_swdio 1; tdi_cycle last) else (do
    tdi_cycle last
    set_pin tdi 1
    repeat (after - 1) tck_cycle
    set_pin tms_swdio 1
    tck_cycle)
  tck_cycle
  set_pin tms_swdio 0
  tck_cycle
  set_pin tdi 1

abbrev set_jtag : (JtagState → JtagState) → Action (Unit {0})
set_jtag f = modify (λ d. record d { jtag = f d.jtag })

-- The first loop of `dap_handle_cmd_jtag_configure`, from device `i` on: the sum of the lengths, a
-- `uint16_t`.
unfoldable pub read_lengths : ℕ → ℕ → ℕ → Action ℕ
read_lengths zero i sum = pure sum
read_lengths (suc left) i sum = do
  len ← get_u8
  set_jtag (λ j. record j { ir_before = set j.ir_before i sum; ir_length = set j.ir_length i len })
  read_lengths left (i + 1) ((sum + len) % 0x10000)

-- The second loop.
unfoldable pub set_after : ℕ → ℕ → ℕ → Action (Unit {0})
set_after zero i sum = pure tt
set_after (suc left) i sum = do
  len ← gets (λ d. get_or d.jtag.ir_length i 0)
  let sum' = (sum + 0x10000 - len) % 0x10000
  set_jtag (λ j. record j { ir_after = set j.ir_after i sum' })
  set_after left (i + 1) sum'

abbrev is_zero : ℤ → Bool
is_zero (pos n) = n == 0
is_zero (negsuc n) = false

-- `dap_handle_cmd_jtag_configure`
unfoldable pub handle_jtag_configure : Action (Unit {0})
unfolding read_lengths set_after
handle_jtag_configure = do
  count ← get_u8
  if ltb max_device_count count
      then (do
        xs ← ask (buf_get_claim request count)
        require (length xs == count) emsgsize
        ret ← ask (buf_get_finish request count)
        require (is_zero ret) emsgsize
        respond (0x15 ∷ response_error ∷ []))
      else (do
        set_jtag (λ j. record j { count = count })
        sum ← read_lengths count 0 0
        set_after count 0 sum
        respond (0x15 ∷ response_ok ∷ []))

-- The bits of one byte out on tdi and in from tdo.
unfoldable pub shift_bits : ℕ → ℕ → ℕ → Action ℕ
shift_bits zero x acc = pure acc
shift_bits (suc k) x acc = do b ← tdio_cycle x; shift_bits k (x / 2) (acc / 2 + b * 128)

-- The loop over the bytes of a sequence: `cycles` are left, `rounds` of eight or fewer.
unfoldable pub shift_sequence : Bool → ℕ → ℕ → Action (Unit {0})
shift_sequence capture zero cycles = pure tt
shift_sequence capture (suc rounds) cycles = do
  x ← get_u8
  acc ← shift_bits (min 8 cycles) x 0
  when capture (respond (acc / 2 ^ (8 - min 8 cycles) ∷ []))
  shift_sequence capture rounds (cycles - 8)

-- One sequence: the status after it.
unfoldable pub sequence : ℕ → Action ℕ
unfolding shift_sequence shift_bits tdio_cycle
sequence status = do
  info ← get_u8
  let cycles = cycles_of info
  port ← gets (λ d. d.swj.port)
  if port /= port_jtag
      then (do repeat ((cycles + 7) / 8) (do _ ← get_u8; pure tt); pure response_error)
      else (do
        set_pin tms_swdio (bit info 6)
        shift_sequence (has_bit info 7) ((cycles + 7) / 8) cycles
        pure status)

unfoldable pub sequences : ℕ → ℕ → Action ℕ
sequences zero status = pure status
sequences (suc n) status = do status' ← sequence status; sequences n status'

-- `dap_handle_cmd_jtag_sequence`
unfoldable pub handle_jtag_sequence : Action (Unit {0})
unfolding sequences sequence
handle_jtag_sequence = do
  n ← ask (buf_put response (0x14 ∷ []))
  require (n == 1) emsgsize
  (size, at) ← ask (buf_put_claim response 1)
  require (size == 1) enobufs
  ret ← ask (buf_put_finish response 1)
  require (not (is_negative ret)) enobufs
  seq_count ← get_u8
  status ← sequences seq_count response_ok
  ask (buf_store response at (status ∷ []))

-- The walk of `dap_handle_cmd_jtag_idcode` from the idle state to the idcode and back.
unfoldable pub read_idcode : Action ℕ
unfolding set_ir tdo_bits tdo_cycle
read_idcode = do
  set_ir 0x0e
  set_pin tms_swdio 1
  tck_cycle
  set_pin tms_swdio 0
  tck_cycle
  tck_cycle
  index ← gets (λ d. d.jtag.index)
  repeat index tck_cycle
  low ← tdo_bits 31 0 0
  set_pin tms_swdio 1
  idcode ← tdo_bits 1 31 low
  tck_cycle
  set_pin tms_swdio 0
  tck_cycle
  pure idcode

-- The idcode of the device at an index of the chain.
unfoldable pub answer_idcode : ℕ → Action (Unit {0})
unfolding read_idcode
answer_idcode index = do
  set_jtag (λ j. record j { index = index })
  idcode ← read_idcode
  respond (0x16 ∷ response_ok ∷ le32 idcode)

-- `dap_handle_cmd_jtag_idcode`
unfoldable pub handle_jtag_idcode : Action (Unit {0})
unfolding answer_idcode
handle_jtag_idcode = do
  index ← get_u8
  port ← gets (λ d. d.swj.port)
  count ← gets (λ d. d.jtag.count)
  if port /= port_jtag || leb count index
      then respond (0x16 ∷ response_error ∷ le32 0)
      else answer_idcode index
