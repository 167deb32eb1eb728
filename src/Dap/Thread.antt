-- ===== src/Dap/Thread.antt =====
-- firmware/src/dap/dap.c: a round of the driver's thread, its interrupt, its timer and its start.
use riceprobe.Base.{
  ℕ, zero, suc, ◌+◌, Bool, true, false, List, [], ◌∷◌, length, ltb, ◌==◌, if◌then◌else◌, Option,
  none, some,
}
use riceprobe.Base.Int.{ℤ, pos, negsuc, is_negative, to_u32}
use riceprobe.Errno.{enodev, eio, Result}
use riceprobe.Errno
use riceprobe.Nvs.{Nvs}
use riceprobe.Zephyr.{
  request, response, swo, led_connect, led_running, vtref, input, output_inactive, buf_init,
  buf_reset, buf_get_finish, buf_put_claim, buf_put_finish, buf_store, buf_peek, gpio_toggle,
  transport_init, transport_configure, transport_recv, transport_send, sleep_ms, uart_err_check,
  uart_update, uart_rx_ready, uart_read, uart_rx_disable, uart_tx_disable, uart_ready, thread_start,
}
use riceprobe.Zephyr.Prog.{
  pure, fail, stop, no_fuel, ask, gets, modify, fatal_check, require, when, ◌>>=◌, ◌>>◌,
}
use riceprobe.Dap.{Action, max_packet_size, configure_pin}
use riceprobe.Dap.General.{Config}
use riceprobe.Dap.Swo.{set_swo}
use riceprobe.Dap.Request.{answer_request, reset}

abbrev is_zero : ℤ → Bool
is_zero (pos n) = n == 0
is_zero (negsuc n) = false

abbrev is_positive : ℤ → Bool
is_positive (pos n) = ltb 0 n
is_positive (negsuc n) = false

-- `handle_running_led_timer`
unfoldable pub running_led_timer : Action (Unit {0})
unfolding ◌>>=◌
running_led_timer = do _ ← ask (gpio_toggle led_running); pure tt

unfoldable pub drain_more : Action (Unit {0}) → Result (List ℕ) → Action (Unit {0})
unfolding pure
drain_more more (Errno.err e) = pure tt
drain_more more (Errno.ok []) = pure tt
drain_more more (Errno.ok (b ∷ bs)) = more

-- The bytes that do not fit are read one by one until there is none, with the rounds that are left.
unfoldable pub drain : ℕ → Action (Unit {0})
unfolding ◌>>=◌ drain_more
drain zero = stop no_fuel
drain (suc fuel) = do let more = drain fuel; read ← ask (uart_read 1); drain_more more read

-- What was read, which is nothing where the read failed, is put into the storage that was claimed.
unfoldable pub keep_read : ℕ → Result (List ℕ) → Action (Unit {0})
unfolding ◌>>=◌
keep_read at (Errno.err e) = do ret ← ask (buf_put_finish swo 0); fatal_check (is_zero ret)
keep_read at (Errno.ok bytes) = do
  ask (buf_store swo at bytes)
  ret ← ask (buf_put_finish swo (length bytes))
  fatal_check (is_zero ret)

-- The loop of `swo_uart_isr`, with the rounds that are left to it.
unfoldable pub swo_loop : ℕ → Action (Unit {0})
unfolding ◌>>=◌ drain keep_read
swo_loop zero = stop no_fuel
swo_loop (suc fuel) = do
  let again = swo_loop fuel
  updated ← ask uart_update
  elim updated [
    | false ↦ pure tt
    | true ↦ (do
      ready ← ask uart_rx_ready
      elim ready [
        | false ↦ pure tt
        | true ↦ (do
          (space, at) ← ask (buf_put_claim swo 2048)
          elim (space == 0) [
            | true ↦ (do set_swo (λ s. record s { overrun = true }); drain fuel)
            | false ↦ (do read ← ask (uart_read space); keep_read at read; again)
          ])
      ])
  ]

-- `swo_uart_isr`
unfoldable pub swo_uart_isr : ℕ → Action (Unit {0})
unfolding swo_loop
swo_uart_isr fuel = do
  ret ← ask uart_err_check
  when (is_positive ret) (set_swo (λ s. record s { error = true }))
  swo_loop fuel

-- The transports from number `i` on, of which `left` are to go: the last one that is configured is taken.
unfoldable pub choose_transport : ℕ → ℕ → Action (Unit {0})
unfolding ◌>>=◌
choose_transport i zero = pure tt
choose_transport i (suc left) = do
  ret ← ask (transport_configure i)
  when (is_zero ret) (modify (λ d. record d { transport_used = some i }))
  choose_transport (i + 1) left

unfoldable pub find_transport : ℕ → Option ℕ → Action (Unit {0})
unfolding choose_transport
find_transport transports (some i) = pure tt
find_transport transports none = do choose_transport 0 transports; ask (sleep_ms 50)

-- The send of an answer and what follows it.
unfoldable pub send_answer : ℕ → List ℕ → Action (Unit {0})
unfolding reset
send_answer i answer = do
  ret ← ask (transport_send i answer)
  if is_negative ret
      then reset
      else (do _ ← ask (buf_get_finish response (to_u32 ret)); ask (buf_reset request))

-- The receive of a request and what follows it. One whose first byte queues it starts the next receive.
unfoldable pub serve_request : Config → Nvs → ℕ → ℕ → Action (Unit {0})
unfolding answer_request send_answer reset
serve_request config nvs fuel i = do
  (request_len, at) ← ask (buf_put_claim request max_packet_size)
  ret ← ask (transport_recv i at request_len)
  if is_negative ret then reset else (do
    _ ← ask (buf_put_finish request (to_u32 ret))
    command ← ask (buf_peek request at)
    if command == 0x7e
        then pure tt
        else (do answer ← answer_request config nvs fuel; send_answer i answer))

unfoldable pub serve_transport : Config → Nvs → ℕ → Option ℕ → Action (Unit {0})
unfolding serve_request
serve_transport config nvs fuel none = pure tt
serve_transport config nvs fuel (some i) = serve_request config nvs fuel i

-- One round of the loop of `dap_thread_fn`.
unfoldable pub round : Config → Nvs → ℕ → ℕ → Action (Unit {0})
unfolding serve_transport find_transport
round config nvs transports fuel = do
  before ← gets (λ d. d.transport_used)
  find_transport transports before
  now ← gets (λ d. d.transport_used)
  serve_transport config nvs fuel now

unfoldable pub init_transports : ℕ → ℕ → Action (Unit {0})
unfolding ◌>>=◌
init_transports i zero = pure tt
init_transports i (suc left) = do
  ret ← ask (transport_init i)
  if is_negative ret then fail eio else pure tt
  init_transports (i + 1) left

-- `dap_init`; whether both leds are on one pin is the build's. The status of a transport that fails is
-- not told apart here.
unfoldable pub init : Bool → ℕ → Action (Unit {0})
init one_led transports = do
  modify (λ d. record d { led = record (d.led) { combined = one_led } })
  configure_pin led_connect (output_inactive ∷ [])
  configure_pin led_running (output_inactive ∷ [])
  configure_pin vtref (input ∷ [])
  ready ← ask uart_ready
  require ready enodev
  ask uart_rx_disable
  ask uart_tx_disable
  ask (buf_init request)
  ask (buf_init response)
  ask (buf_init swo)
  reset
  init_transports 0 transports
  ask thread_start
