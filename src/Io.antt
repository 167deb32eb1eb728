-- ===== src/Io.antt =====
-- The IO driver: the state of `struct io_driver` (firmware/src/io/io.h) and what its command handlers
-- share.
pub mod General
pub mod Gpio
pub mod Pins
pub mod Request
pub mod Transport
pub mod Calls
pub mod Finish
pub mod Reply
mod Tests
use riceprobe.Base.{ℕ, ◌∷◌, [], List, Option, ◌==◌, not}
use riceprobe.Base.Int.{is_negative}
use riceprobe.Errno.{emsgsize}
use riceprobe.Zephyr.{request, response, buf_get_claim, buf_get_finish}
use riceprobe.Zephyr.Prog.{M, ask, pure, require, ◌>>=◌, ◌>>◌}
use riceprobe.Base.{length}
use riceprobe.Utf8.Rbuf.{rbuf_put}
use riceprobe.Dap.{respond}

-- `IO_RING_BUF_SIZE`, `IO_MAX_PACKET_SIZE`.
abbrev pub ring_buf_size : ℕ
ring_buf_size = 2048

abbrev pub max_packet_size : ℕ
max_packet_size = 512

abbrev pub response_ok : ℕ
response_ok = 0x00

abbrev pub response_etimedout : ℕ
response_etimedout = 0xfd

abbrev pub response_eio : ℕ
response_eio = 0xfe

abbrev pub response_enotsup : ℕ
response_enotsup = 0xff

-- `IO_PIN_FUNC_GPIO`
abbrev pub func_gpio : ℕ
func_gpio = 0

-- `struct io_driver_pin_function`
pub record PinFunction : Type 0 where
  pub pin : ℕ
  pub function : ℕ
  pub index : ℕ
  pub pinctrl : ℕ

-- What the devicetree gives: the number of `io->gpios`, and the bits of a pin's control value that pull
-- it up, pull it down and make it an open drain (0 where the board has none).
pub record Board : Type 0 where
  pub gpios : ℕ
  pub pull_up : ℕ
  pub pull_down : ℕ
  pub open_drain : ℕ

-- `struct io_driver` less its pins and buffers, which are the environment's. A transport is its number.
pub record Driver : Type 0 where
  pub pinctrls : List PinFunction
  pub transport : Option ℕ

abbrev pub Action : Type 0 → Type 0
Action A = M Driver A

module _ {S : Type 0} where
  -- `if ((ret = utf8_rbuf_put(&io->buf.response, command)) < 0) return ret;`
  unfoldable pub respond_command : ℕ → M S (Unit {0})
  unfolding ◌>>=◌
  respond_command command = do _ ← rbuf_put response command; pure tt

  unfoldable pub respond_status : ℕ → M S (Unit {0})
  respond_status status = respond (status ∷ [])

  -- `if (ring_buf_get_skip(&io->buf.request, len) < 0) return -EMSGSIZE;`
  unfoldable pub skip_request : ℕ → M S (Unit {0})
  unfolding ◌>>=◌
  skip_request len = do
    xs ← ask (buf_get_claim request len)
    require (length xs == len) emsgsize
    ret ← ask (buf_get_finish request len)
    require (not (is_negative ret)) emsgsize
