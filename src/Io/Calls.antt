-- ===== src/Io/Calls.antt =====
-- Which calls the commands of the IO driver make, and which of these are plain: what the shared helpers do
-- is plain, with any predicate on calls that lets plain calls through.
pub mod Rules
pub mod Handlers
pub mod Config
pub mod Table
pub mod Pins
use riceprobe.Base.{ℕ, ◌≡◌, ◌≤◌, ◌<◌, ◌⊎◌, true, false, ◌&&◌, not}
use riceprobe.Zephyr.{
  Call, Flag, Pin, gpios, request, response, swo, input, output, pull_up, pull_down, open_drain,
  buf_get, buf_put, buf_get_claim, buf_get_finish, buf_put_claim, buf_put_finish, buf_store,
  buf_reset, buf_load, transport_configure, transport_recv, transport_send, gpio_set, gpio_get,
  gpio_configure, gpio_toggle, pin_write, sleep_us, sleep_ms, timepoint_ms, expired, Buffer,
}
use riceprobe.Io.Gpio.{has_flag}

abbrev IsOwn : Buffer → Type 0
IsOwn swo = ⊥
IsOwn b = Unit {0}

-- A call of the driver's own two buffers, or of the clock.
abbrev pub IsPlain : Call → Type 0
IsPlain (buf_get b n) = IsOwn b
IsPlain (buf_put b xs) = IsOwn b
IsPlain (buf_get_claim b n) = IsOwn b
IsPlain (buf_get_finish b n) = IsOwn b
IsPlain (buf_put_claim b n) = IsOwn b
IsPlain (buf_put_finish b n) = IsOwn b
IsPlain (buf_store b at xs) = IsOwn b
IsPlain (buf_reset b) = IsOwn b
IsPlain (sleep_us n) = Unit {0}
IsPlain (sleep_ms n) = Unit {0}
IsPlain (timepoint_ms n) = Unit {0}
IsPlain (expired t) = Unit {0}
IsPlain (buf_load b at n) = IsOwn b
IsPlain _ = ⊥

-- One of the `n` pins of `io->gpios`.
abbrev IsGpio : ℕ → Pin → Type 0
IsGpio n (gpios i) = i < n
IsGpio n _ = ⊥

-- A control value written to a pin, or a configuration that makes one of the `n` pins an input at least.
abbrev pub IsPinCall : ℕ → Call → Type 0
IsPinCall n (gpio_configure p fs) = IsGpio n p × (has_flag input fs ≡ true)
IsPinCall n (pin_write v) = Unit {0}
IsPinCall n _ = ⊥

-- What a command of the pins may do.
abbrev pub IsPinsCall : ℕ → Call → Type 0
IsPinsCall n c = IsPlain c ⊎ IsPinCall n c

-- One of the `n` pins of `io->gpios`, or the pin right behind them, that the code takes for known too.
abbrev IsKnown : ℕ → Pin → Type 0
IsKnown n (gpios i) = i ≤ n
IsKnown n _ = ⊥

-- A configuration of a known pin, with flags that do not pull it both ways and make it no open drain without
-- an output.
abbrev pub IsSoundConfig : ℕ → Call → Type 0
IsSoundConfig n (gpio_configure p fs) =
    IsKnown n p
    × ((has_flag pull_up fs && has_flag pull_down fs) ≡ false)
    × ((has_flag open_drain fs && not (has_flag output fs)) ≡ false)
IsSoundConfig n _ = ⊥

abbrev pub IsSound : ℕ → Call → Type 0
IsSound n c = IsPlain c ⊎ IsSoundConfig n c
