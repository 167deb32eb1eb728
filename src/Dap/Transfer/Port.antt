-- ===== src/Dap/Transfer/Port.antt =====
-- firmware/src/dap/commands_transfer.c: one transfer over JTAG or SWD, and its retries.
use riceprobe.Base.{
  ℕ, zero, suc, ◌+◌, ◌-◌, ◌*◌, ◌/◌, ◌%◌, ◌^◌, Bool, true, false, not, ◌&&◌, ◌||◌, [], ◌∷◌, ◌==◌,
  ◌/=◌, if◌then◌else◌,
}
use riceprobe.Base.Bits.{has_bit, shr}
use riceprobe.Zephyr.{tms_swdio, tdi, input, output}
use riceprobe.Zephyr.Prog.{pure, gets, when, repeat, ◌>>=◌, ◌>>◌}
use riceprobe.Dap.{Driver, Action, port_jtag, port_swd, set_pin, configure_pin}
use riceprobe.Dap.Swd.{read_cycle, write_cycle, swclk_cycle}
use riceprobe.Dap.Jtag.{tck_cycle, tdi_cycle, tdo_cycle, tdio_cycle, tdi_bits, tdo_bits, set_ir}

abbrev pub ir_abort : ℕ
ir_abort = 0x08

abbrev pub ir_dpacc : ℕ
ir_dpacc = 0x0a

abbrev pub ir_apacc : ℕ
ir_apacc = 0x0b

-- `transfer_response_ack_ok` and its kin.
abbrev pub ack_ok : ℕ
ack_ok = 1

abbrev pub ack_wait : ℕ
ack_wait = 2

abbrev pub ack_fault : ℕ
ack_fault = 4

abbrev pub ack_error : ℕ
ack_error = 8

abbrev pub value_mismatch : ℕ
value_mismatch = 0x10

-- Bits of a transfer request.
abbrev pub is_ap : ℕ → Bool
is_ap request = has_bit request 0

abbrev pub is_read : ℕ → Bool
is_read request = has_bit request 1

abbrev pub is_match_value : ℕ → Bool
is_match_value request = has_bit request 4

abbrev pub is_match_mask : ℕ → Bool
is_match_mask request = has_bit request 5

-- A read of the debug port's RDBUFF: `transfer_request_rnw | dp_addr_rdbuff`.
abbrev pub read_rdbuff : ℕ
read_rdbuff = 0x0e

-- `(uint8_t) (dap->jtag.count - dap->jtag.index - 1)`
abbrev after_index_at : Driver → ℕ
after_index_at d = (d.jtag.count + 0x1ff - d.jtag.index) % 0x100

-- The data register of a read: bits 0 to 30, and bit 31 with the bypass of the devices behind.
unfoldable pub jtag_read : Action ℕ
unfolding tdo_bits tdo_cycle tck_cycle
jtag_read = do
  low ← tdo_bits 31 0 0
  after_index ← gets after_index_at
  if after_index == 0 then (do set_pin tms_swdio 1; tdo_bits 1 31 low) else (do
    dr ← tdo_bits 1 31 low
    repeat (after_index - 1) tck_cycle
    set_pin tms_swdio 1
    tck_cycle
    pure dr)

-- The data register of a write.
unfoldable pub jtag_write : ℕ → Action (Unit {0})
unfolding tdi_bits tdi_cycle tck_cycle
jtag_write word = do
  top ← tdi_bits 31 word
  after_index ← gets after_index_at
  if after_index == 0
      then (do set_pin tms_swdio 1; tdi_cycle top)
      else (do tdi_cycle top; repeat (after_index - 1) tck_cycle; set_pin tms_swdio 1; tck_cycle)

-- `jtag_transfer`: the ack, and `*transfer_data` after it. The low two bits of the ack are swapped.
unfoldable pub jtag_transfer : ℕ → ℕ → Action (ℕ × ℕ)
unfolding jtag_read jtag_write tdio_cycle
jtag_transfer request word = do
  set_pin tms_swdio 1
  tck_cycle
  set_pin tms_swdio 0
  tck_cycle
  tck_cycle
  index ← gets (λ d. d.jtag.index)
  repeat index tck_cycle
  ack1 ← tdio_cycle (shr request 1)
  ack0 ← tdio_cycle (shr request 2)
  ack2 ← tdio_cycle (shr request 3)
  let ack = ack1 * 2 + ack0 + ack2 * 4
  word' ←
      (if ack /= ack_ok
        then (do set_pin tms_swdio 1; tck_cycle; pure word)
        else if is_read request
        then jtag_read
        else (do jtag_write word; pure word))
  tck_cycle
  set_pin tms_swdio 0
  tck_cycle
  set_pin tdi 1
  idle ← gets (λ d. d.transfer.idle_cycles)
  repeat idle tck_cycle
  pure (ack, word')

-- 32 bits from swdio, the next of weight `2 ^ i`, with the sum of the bits.
unfoldable pub swd_read_word : ℕ → ℕ → ℕ → ℕ → Action (ℕ × ℕ)
swd_read_word zero i word parity = pure (word, parity)
swd_read_word (suc k) i word parity = do
  b ← read_cycle
  swd_read_word k (i + 1) (word + b * 2 ^ i) (parity + b)

-- The bits of a word on swdio, with the sum of the shifted words, a `uint32_t`, of which the last bit
-- counts.
unfoldable pub swd_write_word : ℕ → ℕ → ℕ → Action ℕ
swd_write_word zero word parity = pure parity
swd_write_word (suc k) word parity = do
  write_cycle word
  swd_write_word k (word / 2) ((parity + word) % 0x100000000)

-- `swdio` as an input, and as an output that can be read.
abbrev swdio_in : Action (Unit {0})
swdio_in = configure_pin tms_swdio (input ∷ [])

abbrev swdio_out : Action (Unit {0})
swdio_out = configure_pin tms_swdio (input ∷ output ∷ [])

-- The eight bits of a request, up to the turnaround.
unfoldable pub swd_request : ℕ → Action (Unit {0})
unfolding write_cycle
swd_request request = do
  write_cycle 1
  write_cycle (shr request 0)
  write_cycle (shr request 1)
  write_cycle (shr request 2)
  write_cycle (shr request 3)
  write_cycle (shr request 0 + shr request 1 + shr request 2 + shr request 3)
  write_cycle 0
  write_cycle 1

-- The branch of `swd_transfer` for `ack == transfer_response_ack_ok`.
unfoldable pub swd_data : ℕ → ℕ → Action (ℕ × ℕ)
unfolding swd_read_word swd_write_word read_cycle write_cycle swclk_cycle
swd_data request word = do
  turnaround ← gets (λ d. d.swd.turnaround_cycles)
  (ack, word') ←
      (if is_read request
        then (do
          (got, parity) ← swd_read_word 32 0 0 0
          parity_bit ← read_cycle
          repeat turnaround swclk_cycle
          swdio_out
          pure (if parity % 2 /= parity_bit then ack_error else ack_ok, got))
        else (do
          repeat turnaround swclk_cycle
          swdio_out
          parity ← swd_write_word 32 word 0
          write_cycle parity
          pure (ack_ok, word)))
  idle ← gets (λ d. d.transfer.idle_cycles)
  repeat idle (write_cycle 0)
  set_pin tms_swdio 1
  pure (ack, word')

-- The branch for a wait or a fault.
unfoldable pub swd_refused : ℕ → Action (Unit {0})
unfolding swclk_cycle
swd_refused request = do
  turnaround ← gets (λ d. d.swd.turnaround_cycles)
  data_phase ← gets (λ d. d.swd.data_phase)
  when (data_phase && is_read request) (repeat 33 swclk_cycle)
  repeat turnaround swclk_cycle
  swdio_out
  when (data_phase && not (is_read request)) (do set_pin tms_swdio 0; repeat 33 swclk_cycle)
  set_pin tms_swdio 1

-- `swd_transfer`
unfoldable pub swd_transfer : ℕ → ℕ → Action (ℕ × ℕ)
unfolding swd_request swd_data swd_refused
swd_transfer request word = do
  swd_request request
  swdio_in
  turnaround ← gets (λ d. d.swd.turnaround_cycles)
  repeat turnaround swclk_cycle
  ack0 ← read_cycle
  ack1 ← read_cycle
  ack2 ← read_cycle
  let ack = ack0 + ack1 * 2 + ack2 * 4
  if ack == ack_ok
      then swd_data request word
      else if ack == ack_wait || ack == ack_fault
      then (do swd_refused request; pure (ack, word))
      else (do
        repeat (turnaround + 33) swclk_cycle
        swdio_out
        set_pin tms_swdio 1
        pure (ack, word))

-- One round of `port_transfer`; a disabled port leaves the ack as it was.
unfoldable pub transfer_once : ℕ → ℕ → ℕ → Action (ℕ × ℕ)
unfolding jtag_transfer swd_transfer
transfer_once request ack word = do
  port ← gets (λ d. d.swj.port)
  if port == port_jtag
      then jtag_transfer request word
      else if port == port_swd
      then swd_transfer request word
      else pure (ack, word)

-- The loop of `port_transfer`, with the rounds left.
unfoldable pub transfer_retry : ℕ → ℕ → ℕ → ℕ → Action (ℕ × ℕ)
transfer_retry zero request ack word = pure (ack, word)
transfer_retry (suc left) request ack word = do
  (ack', word') ← transfer_once request ack word
  elim (ack' == ack_wait) [
    | true ↦ transfer_retry left request ack' word'
    | false ↦ pure (ack', word')
  ]

-- `port_transfer`
unfoldable pub port_transfer : ℕ → ℕ → Action (ℕ × ℕ)
unfolding transfer_retry transfer_once
port_transfer request word = do
  retries ← gets (λ d. d.transfer.wait_retries)
  transfer_retry (retries + 1) request ack_fault word

-- `port_set_ir`, where `last_ir` is not NULL: the value that it holds afterwards.
unfoldable pub port_set_ir : ℕ → ℕ → Action ℕ
unfolding set_ir
port_set_ir last_ir desired_ir = do
  port ← gets (λ d. d.swj.port)
  if port == port_jtag && last_ir /= desired_ir
      then (do set_ir desired_ir; pure desired_ir)
      else pure last_ir

-- `port_set_ir(dap, NULL, desired_ir)`
unfoldable pub port_force_ir : ℕ → Action (Unit {0})
unfolding set_ir
port_force_ir desired_ir = do
  port ← gets (λ d. d.swj.port)
  when (port == port_jtag) (set_ir desired_ir)
