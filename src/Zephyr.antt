-- ===== src/Zephyr.antt =====
-- The calls that the firmware makes of Zephyr, whose code is not in the repository: a call is data,
-- and what it answers is left to a server (Zephyr.Prog). Writes of the firmware itself through a
-- pointer that `ring_buf_put_claim` gave are calls too, since they change the buffer.
pub mod Prog
pub mod Ring
pub mod Bench
pub mod Always
pub mod Obeys
pub mod Ends
pub mod Clock
pub mod Stage
pub mod Run
pub mod Reply
use riceprobe.Base.{ℕ, Bool, List}
use riceprobe.Base.Int.{ℤ}
use riceprobe.Errno.{Result}

-- The pins of `struct dap_driver`, and `io->gpios[i]`.
pub data Pin : Type 0 where
  tck_swclk tms_swdio tdo tdi nreset vtref led_connect led_running : Pin
  gpios : ℕ → Pin

-- The flags of `gpio_pin_configure_dt`.
pub data Flag : Type 0 where
  input output output_active output_inactive pull_up pull_down active_low open_drain : Flag

-- The two states of `dap->pinctrl`.
pub data PinState : Type 0 where
  jtag_pins swd_pins : PinState

-- The ring buffers of `dap->buf`, the first two also those of `io->buf`.
pub data Buffer : Type 0 where
  request response swo : Buffer

pub data Call : Type 0 where
  -- `ring_buf_get`, `ring_buf_put`
  buf_get : Buffer → ℕ → Call
  buf_put : Buffer → List ℕ → Call
  -- `ring_buf_get_claim`, `ring_buf_get_finish`, `ring_buf_put_claim`, `ring_buf_put_finish`
  buf_get_claim : Buffer → ℕ → Call
  buf_get_finish : Buffer → ℕ → Call
  buf_put_claim : Buffer → ℕ → Call
  buf_put_finish : Buffer → ℕ → Call
  -- a write of bytes through a pointer into the buffer
  buf_store : Buffer → ℕ → List ℕ → Call
  -- a read of one byte, and of some, through such a pointer
  buf_peek : Buffer → ℕ → Call
  buf_load : Buffer → ℕ → ℕ → Call
  -- `ring_buf_init` on the storage that stands beside the buffer in its driver
  buf_init : Buffer → Call
  -- `ring_buf_reset`, `ring_buf_size_get`, `ring_buf_space_get`
  buf_reset : Buffer → Call
  buf_size : Buffer → Call
  buf_space : Buffer → Call
  -- `gpio_pin_set_dt`, `gpio_pin_get_dt`, `gpio_pin_configure_dt`
  gpio_set : Pin → ℕ → Call
  gpio_get : Pin → Call
  gpio_configure : Pin → List Flag → Call
  -- `pinctrl_configure_pins` on one pin
  pin_configure : PinState → Call
  -- the timer of the running led: `k_timer_start`, `k_timer_stop`
  timer_start : Call
  timer_stop : Call
  -- `uart_irq_rx_enable` and so on, and `uart_configure` with a baudrate and 8N1
  uart_rx_enable : Call
  uart_rx_disable : Call
  uart_err_enable : Call
  uart_err_disable : Call
  uart_configure : ℕ → Call
  -- `busy_wait_nanos`, `k_busy_wait` and `k_sleep` in microseconds
  wait_nanos : ℕ → Call
  wait_us : ℕ → Call
  sleep_us : ℕ → Call
  -- `sys_timepoint_calc` in microseconds, `sys_timepoint_expired`
  timepoint : ℕ → Call
  expired : ℕ → Call
  -- `gpio_pin_toggle_dt`, and `pinctrl_configure_pins` on a value
  gpio_toggle : Pin → Call
  pin_write : ℕ → Call
  -- `k_sleep` and `sys_timepoint_calc` in milliseconds
  sleep_ms : ℕ → Call
  timepoint_ms : ℕ → Call
  -- the functions of the transport with this number: `recv` with its pointer into the request buffer
  -- and the room behind it, `send` with the bytes
  transport_init : ℕ → Call
  transport_configure : ℕ → Call
  transport_recv : ℕ → ℕ → ℕ → Call
  transport_send : ℕ → List ℕ → Call
  -- `uart_err_check`, `uart_irq_update`, `uart_irq_rx_ready`, `uart_fifo_read`, `uart_irq_tx_disable`
  uart_err_check : Call
  uart_update : Call
  uart_rx_ready : Call
  uart_read : ℕ → Call
  uart_tx_disable : Call
  -- `gpio_is_ready_dt`, `device_is_ready` of the UART, `k_thread_start`
  gpio_ready : Pin → Call
  uart_ready : Call
  thread_start : Call

-- What each call answers: the bytes that were read or that a claim shows, a count, a size with the
-- pointer to it, a status, a level.
abbrev pub Answer : Call → Type 0
Answer (buf_get b n) = List ℕ
Answer (buf_put b xs) = ℕ
Answer (buf_get_claim b n) = List ℕ
Answer (buf_get_finish b n) = ℤ
Answer (buf_put_claim b n) = ℕ × ℕ
Answer (buf_put_finish b n) = ℤ
Answer (buf_size b) = ℕ
Answer (buf_space b) = ℕ
Answer (gpio_set p v) = ℤ
Answer (gpio_get p) = ℤ
Answer (gpio_configure p fs) = ℤ
Answer (pin_configure s) = ℤ
Answer (uart_configure r) = ℤ
Answer (timepoint n) = ℕ
Answer (expired t) = Bool
Answer (buf_peek b at) = ℕ
Answer (buf_load b at n) = List ℕ
Answer (gpio_toggle p) = ℤ
Answer (pin_write v) = ℤ
Answer (timepoint_ms n) = ℕ
Answer (transport_init i) = ℤ
Answer (transport_configure i) = ℤ
Answer (transport_recv i at n) = ℤ
Answer (transport_send i xs) = ℤ
Answer uart_err_check = ℤ
Answer uart_update = Bool
Answer uart_rx_ready = Bool
Answer (uart_read n) = Result (List ℕ)
Answer (gpio_ready p) = Bool
Answer uart_ready = Bool
Answer _ = Unit {0}
