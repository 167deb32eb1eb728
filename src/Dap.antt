-- ===== src/Dap.antt =====
-- The DAP driver: the state of `struct dap_driver` (firmware/src/dap/dap.h) and what its command
-- handlers share, the helpers of firmware/src/util.h among them.
pub mod Swo
pub mod Swd
pub mod Jtag
pub mod General
pub mod Transfer
pub mod Request
pub mod Thread
pub mod Tcp
pub mod Invariant
pub mod Reply
pub mod Wave
mod Tests
use riceprobe.Base.{
  ℕ, ◌+◌, ◌-◌, ◌*◌, ◌/◌, ◌%◌, Bool, true, false, not, List, [], ◌∷◌, length, ◌==◌, replicate,
  Option, none,
}
use riceprobe.Base.Int.{ℤ, pos, negsuc, is_negative}
use riceprobe.Base.Bits.{get_le16, get_le32, le32}
use riceprobe.Errno.{Errno, emsgsize, enobufs}
use riceprobe.Zephyr.{
  Pin, Flag, PinState, Buffer, request, response, Call, buf_get, buf_put, buf_get_claim,
  buf_get_finish, buf_put_claim, buf_put_finish, buf_store, gpio_set, gpio_get, gpio_configure,
  wait_nanos,
}
use riceprobe.Zephyr.Prog.{M, pure, fail, ask, gets, require, fatal_check, ◌>>=◌, ◌>>◌}

-- `DAP_JTAG_MAX_DEVICE_COUNT`, `DAP_MAX_PACKET_SIZE`, `DAP_RING_BUF_SIZE`.
abbrev pub max_device_count : ℕ
max_device_count = 4

abbrev pub max_packet_size : ℕ
max_packet_size = 512

abbrev pub ring_buf_size : ℕ
ring_buf_size = 2048

abbrev pub default_swj_clock_rate : ℕ
default_swj_clock_rate = 1000000

abbrev pub port_disabled : ℕ
port_disabled = 0

abbrev pub port_jtag : ℕ
port_jtag = 1

abbrev pub port_swd : ℕ
port_swd = 2

abbrev pub response_ok : ℕ
response_ok = 0

abbrev pub response_error : ℕ
response_error = 0xff

pub record SwjState : Type 0 where
  pub port : ℕ
  pub clock : ℕ
  pub delay_ns : ℕ

pub record JtagState : Type 0 where
  pub count : ℕ
  pub index : ℕ
  pub ir_length : List ℕ
  pub ir_before : List ℕ
  pub ir_after : List ℕ

pub record SwdState : Type 0 where
  pub turnaround_cycles : ℕ
  pub data_phase : Bool

-- `mode` 1 is UART.
pub record SwoState : Type 0 where
  pub transport : ℕ
  pub mode : ℕ
  pub baudrate : ℕ
  pub capture : Bool
  pub error : Bool
  pub overrun : Bool

pub record TransferState : Type 0 where
  pub idle_cycles : ℕ
  pub wait_retries : ℕ
  pub match_retries : ℕ
  pub match_mask : ℕ

pub record LedState : Type 0 where
  pub combined : Bool
  pub connected : Bool
  pub running : Bool

-- `struct dap_driver` less its pins and buffers, which are the environment's. A transport is its number.
pub record Driver : Type 0 where
  pub swj : SwjState
  pub jtag : JtagState
  pub swd : SwdState
  pub swo : SwoState
  pub transfer : TransferState
  pub led : LedState
  pub transport_used : Option ℕ

abbrev pub Action : Type 0 → Type 0
Action A = M Driver A

module _ {S : Type 0} where
  unfoldable pub first_byte : List ℕ → M S ℕ
  unfolding pure fail
  first_byte (x ∷ []) = pure x
  first_byte _ = fail emsgsize

  -- `if (ring_buf_get(&dap->buf.request, &x, 1) != 1) return -EMSGSIZE;`
  unfoldable pub get_u8 : M S ℕ
  unfolding ◌>>=◌ first_byte
  get_u8 = do xs ← ask (buf_get request 1); first_byte xs

  unfoldable pub two_bytes : List ℕ → M S ℕ
  unfolding pure fail
  two_bytes (a ∷ b ∷ []) = pure (get_le16 a b)
  two_bytes _ = fail emsgsize

  unfoldable pub four_bytes : List ℕ → M S ℕ
  unfolding pure fail
  four_bytes (a ∷ b ∷ c ∷ d ∷ []) = pure (get_le32 a b c d)
  four_bytes _ = fail emsgsize

  -- `ring_buf_get(&dap->buf.request, (uint8_t*) &x, 2)` and `4` on a little-endian processor.
  unfoldable pub get_u16 : M S ℕ
  unfolding ◌>>=◌ two_bytes
  get_u16 = do xs ← ask (buf_get request 2); two_bytes xs

  unfoldable pub get_u32 : M S ℕ
  unfolding ◌>>=◌ four_bytes
  get_u32 = do xs ← ask (buf_get request 4); four_bytes xs

  -- `ring_buf_get_le16` and `ring_buf_get_le32` on the request buffer, and `return -EMSGSIZE` where
  -- they fail: they want the bytes in one piece.
  unfoldable pub ring_get_le16 : M S ℕ
  unfolding ◌>>=◌ two_bytes
  ring_get_le16 = do
    xs ← ask (buf_get_claim request 2)
    x ← two_bytes xs
    ret ← ask (buf_get_finish request 2)
    require (not (is_negative ret)) emsgsize
    pure x

  unfoldable pub ring_get_le32 : M S ℕ
  unfolding ◌>>=◌ four_bytes
  ring_get_le32 = do
    xs ← ask (buf_get_claim request 4)
    x ← four_bytes xs
    ret ← ask (buf_get_finish request 4)
    require (not (is_negative ret)) emsgsize
    pure x

  -- `if (ring_buf_put_le32(b, x) < 0) return -ENOBUFS;`
  unfoldable pub ring_put_le32 : Buffer → ℕ → M S (Unit {0})
  unfolding ◌>>=◌
  ring_put_le32 b x = do
    (size, at) ← ask (buf_put_claim b 4)
    require (size == 4) enobufs
    ask (buf_store b at (le32 x))
    ret ← ask (buf_put_finish b 4)
    require (not (is_negative ret)) enobufs

  -- `if (ring_buf_put(&dap->buf.response, xs, n) != n) return -ENOBUFS;`
  unfoldable pub respond : List ℕ → M S (Unit {0})
  unfolding ◌>>=◌
  respond xs = do n ← ask (buf_put response xs); require (n == length xs) enobufs

  -- A call whose status is dropped.
  unfoldable pub set_pin : Pin → ℕ → M S (Unit {0})
  unfolding ◌>>=◌
  set_pin p v = do _ ← ask (gpio_set p v); pure tt

  -- `FATAL_CHECK(gpio_pin_configure_dt(p, flags) >= 0, ...)`
  unfoldable pub configure_pin : Pin → List Flag → M S (Unit {0})
  unfolding ◌>>=◌
  configure_pin p flags = do ret ← ask (gpio_configure p flags); fatal_check (not (is_negative ret))

-- `busy_wait_nanos(dap->swj.delay_ns)`
unfoldable pub delay : Action (Unit {0})
unfolding ◌>>=◌
delay = do n ← gets (λ d. d.swj.delay_ns); ask (wait_nanos n)
