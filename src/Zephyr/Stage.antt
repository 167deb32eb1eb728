-- ===== src/Zephyr/Stage.antt =====
-- A bench to play runs on.
use riceprobe.Base.{ℕ, false, true, List, []}
use riceprobe.Base.Int.{pos}
use riceprobe.Errno
use riceprobe.Zephyr.{
  buf_get, buf_put, buf_get_claim, buf_get_finish, buf_put_claim, buf_put_finish, buf_size,
  buf_space, gpio_set, gpio_get, gpio_configure, pin_configure, uart_configure, timepoint, expired,
  buf_store, buf_reset, timer_start, timer_stop, uart_rx_enable, uart_rx_disable, uart_err_enable,
  uart_err_disable, wait_nanos, wait_us, sleep_us, buf_peek, buf_load, buf_init, gpio_toggle,
  pin_write, sleep_ms, timepoint_ms, transport_init, transport_configure, transport_recv,
  transport_send, uart_err_check, uart_update, uart_rx_ready, uart_read, uart_tx_disable,
  gpio_ready, uart_ready, thread_start,
}
use riceprobe.Zephyr.Bench.{Bench, Env}

-- Every level is low, every status is 0 and every wait is over.
abbrev pub quiet_env : Env
quiet_env (buf_get b n) cs = []
quiet_env (buf_put b xs) cs = 0
quiet_env (buf_get_claim b n) cs = []
quiet_env (buf_get_finish b n) cs = pos 0
quiet_env (buf_put_claim b n) cs = (0, 0)
quiet_env (buf_put_finish b n) cs = pos 0
quiet_env (buf_size b) cs = 0
quiet_env (buf_space b) cs = 0
quiet_env (gpio_set p v) cs = pos 0
quiet_env (gpio_get p) cs = pos 0
quiet_env (gpio_configure p fs) cs = pos 0
quiet_env (pin_configure s) cs = pos 0
quiet_env (uart_configure r) cs = pos 0
quiet_env (timepoint n) cs = 0
quiet_env (expired t) cs = true
quiet_env (buf_store b at xs) cs = tt
quiet_env (buf_reset b) cs = tt
quiet_env timer_start cs = tt
quiet_env timer_stop cs = tt
quiet_env uart_rx_enable cs = tt
quiet_env uart_rx_disable cs = tt
quiet_env uart_err_enable cs = tt
quiet_env uart_err_disable cs = tt
quiet_env (wait_nanos n) cs = tt
quiet_env (wait_us n) cs = tt
quiet_env (sleep_us n) cs = tt
quiet_env (buf_peek b k) cs = 0
quiet_env (buf_load b k n) cs = []
quiet_env (buf_init b) cs = tt
quiet_env (gpio_toggle p) cs = pos 0
quiet_env (pin_write k) cs = pos 0
quiet_env (sleep_ms k) cs = tt
quiet_env (timepoint_ms k) cs = 0
quiet_env (transport_init i) cs = pos 0
quiet_env (transport_configure i) cs = pos 0
quiet_env (transport_recv i k n) cs = pos 0
quiet_env (transport_send i xs) cs = pos 0
quiet_env uart_err_check cs = pos 0
quiet_env uart_update cs = false
quiet_env uart_rx_ready cs = false
quiet_env (uart_read k) cs = Errno.ok []
quiet_env uart_tx_disable cs = tt
quiet_env (gpio_ready p) cs = true
quiet_env uart_ready cs = true
quiet_env thread_start cs = tt

-- A request in the buffer of the firmware's size, and nothing else.
abbrev pub bench_of : List ℕ → Bench
bench_of bytes = record {
  request_ring = record {
    cap = 2048;
    head = 0;
    bytes = bytes;
    taken = 0;
    claimed = [];
    stale = λ i. 0;
  };
  response_ring = record {
    cap = 2048;
    head = 0;
    bytes = [];
    taken = 0;
    claimed = [];
    stale = λ i. 0;
  };
  swo_ring = record { cap = 2048; head = 0; bytes = []; taken = 0; claimed = []; stale = λ i. 0 };
  trace = [];
}
