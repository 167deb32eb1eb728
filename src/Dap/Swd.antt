-- ===== src/Dap/Swd.antt =====
-- firmware/src/dap/commands_swd.c.
use riceprobe.Base.{
  ℕ, zero, suc, ◌+◌, ◌-◌, ◌*◌, ◌/◌, ◌%◌, ◌^◌, min, not, [], ◌∷◌, ◌==◌, ◌/=◌, if◌then◌else◌,
}
use riceprobe.Base.Int.{to_u8, is_negative}
use riceprobe.Base.Bits.{low_bits, has_bit}
use riceprobe.Errno.{enobufs}
use riceprobe.Zephyr.{
  tck_swclk, tms_swdio, input, output, response, gpio_get, buf_put_claim, buf_put_finish, buf_store,
}
use riceprobe.Zephyr.Prog.{pure, ask, gets, modify, require, when, repeat, ◌>>=◌, ◌>>◌}
use riceprobe.Dap.{
  Action, port_swd, response_ok, response_error, get_u8, respond, set_pin, configure_pin, delay,
}

-- `swd_read_cycle`
unfoldable pub read_cycle : Action ℕ
read_cycle = do
  set_pin tck_swclk 0
  delay
  level ← ask (gpio_get tms_swdio)
  set_pin tck_swclk 1
  delay
  pure (to_u8 level % 2)

-- `swd_swclk_cycle`
unfoldable pub swclk_cycle : Action (Unit {0})
swclk_cycle = do set_pin tck_swclk 0; delay; set_pin tck_swclk 1; delay

-- `swd_write_cycle`
unfoldable pub write_cycle : ℕ → Action (Unit {0})
write_cycle swdio = do
  set_pin tms_swdio (swdio % 2)
  set_pin tck_swclk 0
  delay
  set_pin tck_swclk 1
  delay

-- `dap_handle_cmd_swd_configure`
unfoldable pub handle_swd_configure : Action (Unit {0})
handle_swd_configure = do
  configuration ← get_u8
  modify (λ d. record d {
    swd = record {
      turnaround_cycles = low_bits configuration 2 + 1;
      data_phase = has_bit configuration 2;
    };
  })
  respond (0x13 ∷ response_ok ∷ [])

-- A bit that is read goes in from the top: `swdio >>= 1; swdio |= bit << 7`.
unfoldable pub read_bits : ℕ → ℕ → Action ℕ
read_bits zero acc = pure acc
read_bits (suc k) acc = do b ← read_cycle; read_bits k (acc / 2 + b * 128)

-- Up to eight bits, moved to the bottom of the byte.
unfoldable pub read_byte : ℕ → Action ℕ
unfolding read_bits read_cycle
read_byte k = do acc ← read_bits k 0; pure (acc / 2 ^ (8 - k))

-- The loop over the bytes of a read: `cycles` are left, `rounds` of eight or fewer.
unfoldable pub read_sequence : ℕ → ℕ → Action (Unit {0})
read_sequence zero cycles = pure tt
read_sequence (suc rounds) cycles = do
  x ← read_byte (min 8 cycles)
  respond (x ∷ [])
  read_sequence rounds (cycles - 8)

unfoldable pub write_bits : ℕ → ℕ → Action (Unit {0})
write_bits zero x = pure tt
write_bits (suc k) x = do write_cycle x; write_bits k (x / 2)

unfoldable pub write_sequence : ℕ → ℕ → Action (Unit {0})
write_sequence zero cycles = pure tt
write_sequence (suc rounds) cycles = do
  x ← get_u8
  write_bits (min 8 cycles) x
  write_sequence rounds (cycles - 8)

-- A count of 0 stands for 64.
abbrev pub cycles_of : ℕ → ℕ
cycles_of info = if low_bits info 6 == 0 then 64 else low_bits info 6

-- One sequence: the status after it.
unfoldable pub sequence : ℕ → Action ℕ
unfolding read_sequence read_byte write_sequence write_bits write_cycle
sequence status = do
  info ← get_u8
  let cycles = cycles_of info
  port ← gets (λ d. d.swj.port)
  if port /= port_swd
      then (do
        repeat ((cycles + 7) / 8)
            (if has_bit info 7 then respond (0 ∷ []) else (do _ ← get_u8; pure tt))
        pure response_error)
      else if has_bit info 7
      then (do
        configure_pin tms_swdio (input ∷ [])
        read_sequence ((cycles + 7) / 8) cycles
        pure status)
      else (do
        configure_pin tms_swdio (input ∷ output ∷ [])
        write_sequence ((cycles + 7) / 8) cycles
        pure status)

unfoldable pub sequences : ℕ → ℕ → Action ℕ
sequences zero status = pure status
sequences (suc n) status = do status' ← sequence status; sequences n status'

-- `dap_handle_cmd_swd_sequence`
unfoldable pub handle_swd_sequence : Action (Unit {0})
unfolding sequences sequence
handle_swd_sequence = do
  respond (0x1d ∷ [])
  (size, at) ← ask (buf_put_claim response 1)
  require (size == 1) enobufs
  ret ← ask (buf_put_finish response 1)
  require (not (is_negative ret)) enobufs
  seq_count ← get_u8
  status ← sequences seq_count response_ok
  when (status == response_ok) (configure_pin tms_swdio (input ∷ output ∷ []))
  ask (buf_store response at (status ∷ []))
