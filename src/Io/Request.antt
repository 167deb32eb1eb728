-- ===== src/Io/Request.antt =====
-- firmware/src/io/io.c: the request handler, the reset, the start, and a round of the driver's thread.
use riceprobe.Base.{
  ℕ, zero, suc, ◌+◌, ◌%◌, Bool, true, false, not, ◌&&◌, ◌||◌, List, [], ◌∷◌, ltb, ◌==◌,
  if◌then◌else◌, Option, none, some,
}
use riceprobe.Base.Int.{ℤ, pos, negsuc, is_negative, to_u32}
use riceprobe.Errno.{enotsup, eio}
use riceprobe.Nvs.{Nvs}
use riceprobe.Zephyr.{
  request, response, gpios, gpio_ready, buf_init, buf_reset, buf_put, buf_get_claim, buf_get_finish,
  buf_put_claim, buf_put_finish, buf_load, transport_init, transport_configure, transport_recv,
  transport_send, sleep_ms, thread_start,
}
use riceprobe.Zephyr.Prog.{
  Prog, Outcome, ok, err, oops, no_fuel, pure, fail, stop, ask, gets, modify, fatal_check, when,
  then_do, ◌>>=◌, ◌>>◌,
}
use riceprobe.Utf8.{decode_into}
use riceprobe.Utf8.Rbuf.{rbuf_get}
use riceprobe.Dap.{get_u8, respond}
use riceprobe.Dap.General.{Config}
use riceprobe.Io.{
  Action, Board, Driver, respond_command, response_enotsup, ring_buf_size, max_packet_size,
}
use riceprobe.Io.General.{handle_info, handle_delay}
use riceprobe.Io.Gpio.{handle_gpio_caps, handle_gpio_cfg, handle_gpio_ctrl}
use riceprobe.Io.Pins.{handle_pins_caps, handle_pins_default, handle_pins_cfg, default_pins}

-- The chain of tests on the command of `io_handle_request`.
unfoldable pub dispatch : Board → Config → Nvs → ℕ → Action (Unit {0})
unfolding handle_info handle_delay handle_gpio_ctrl
dispatch board config nvs c =
    if c == 0x01
    then handle_info board config nvs
    else if c == 0x04
    then handle_delay
    else if c == 0x09
    then handle_pins_caps board
    else if c == 0x0a
    then handle_pins_default board
    else if c == 0x0b
    then handle_pins_cfg board
    else if c == 0x10
    then handle_gpio_caps board
    else if c == 0x11
    then handle_gpio_cfg board
    else if c == 0x12
    then handle_gpio_ctrl
    else fail enotsup

-- The head of a round: the number of commands left, a `uint8_t`, and the command to handle.
unfoldable pub next_command : ℕ → ℕ → Action (ℕ × ℕ)
unfolding ◌>>=◌
next_command num command =
    if command == 0x03 || command == 0x02
    then (do
      num' ← get_u8
      respond_command 0x02
      respond (num' ∷ [])
      command' ← rbuf_get request 0x02
      pure (num', command'))
    else pure (num, command)

-- The loop of `io_handle_request`, with the rounds that are left to it. A queue that has run out of
-- commands asks for one more.
unfoldable pub request_loop : Board → Config → Nvs → ℕ → ℕ → Bool → Action (Unit {0})
unfolding dispatch next_command
request_loop board config nvs zero num queued = stop no_fuel
request_loop board config nvs (suc fuel) num queued = do
  let again = queued && num == 0
  command ← rbuf_get request 0xffffffff
  let queued' = (queued && not again) || command == 0x03
  (num', command') ← next_command (if again then 1 else num) command
  dispatch board config nvs command'
  let left = (num' + 255) % 256
  elim (ltb 0 left || queued') [
    | true ↦ request_loop board config nvs fuel left queued'
    | false ↦ pure tt
  ]

-- `io_handle_request`
unfoldable pub handle_request : Board → Config → Nvs → ℕ → Action (Unit {0})
unfolding request_loop
handle_request board config nvs fuel = request_loop board config nvs fuel 1 false

-- `io_reset`; its status is that of the first call that fails, which is not told apart here.
unfoldable pub reset : Board → Action (Unit {0})
unfolding default_pins
reset board = do
  modify (λ d. record d { transport = none })
  done ← default_pins board
  if done then (do ask (buf_reset request); ask (buf_reset response)) else fail eio

-- What becomes of a request that was handled: one that failed leaves one byte 0xff.
unfoldable pub settle_response : Outcome (Unit {0}) × Driver → Prog (Outcome (Unit {0}) × Driver)
unfolding ◌>>=◌
settle_response (ok a, d) = pure a d
settle_response (err e, d) =
    (do
      ask (buf_reset response)
      n ← ask (buf_put response (response_enotsup ∷ []))
      fatal_check (n == 1))
      d
settle_response (oops, d) = stop oops d
settle_response (no_fuel, d) = stop no_fuel d

unfoldable pub recover : Action (Unit {0}) → Action (Unit {0})
unfolding settle_response
recover m d = then_do (m d) settle_response

-- The answer to a request that was received, as it is handed to the transport.
unfoldable pub answer_request : Board → Config → Nvs → ℕ → Action (List ℕ)
unfolding handle_request recover
answer_request board config nvs fuel = do
  ask (buf_reset response)
  recover (handle_request board config nvs fuel)
  ask (buf_get_claim response ring_buf_size)

-- A call of `io_reset` whose status is dropped.
unfoldable pub settle_reset : Outcome (Unit {0}) × Driver → Prog (Outcome (Unit {0}) × Driver)
unfolding pure stop
settle_reset (ok a, d) = pure a d
settle_reset (err e, d) = pure tt d
settle_reset (oops, d) = stop oops d
settle_reset (no_fuel, d) = stop no_fuel d

unfoldable pub reset_anyway : Board → Action (Unit {0})
unfolding settle_reset reset
reset_anyway board d = then_do (reset board d) settle_reset

abbrev is_zero : ℤ → Bool
is_zero (pos n) = n == 0
is_zero (negsuc n) = false

-- The transports from number `i` on, of which `left` are to go: the last one that is configured is taken.
unfoldable pub choose_transport : ℕ → ℕ → Action (Unit {0})
unfolding ◌>>=◌
choose_transport i zero = pure tt
choose_transport i (suc left) = do
  ret ← ask (transport_configure i)
  when (is_zero ret) (modify (λ d. record d { transport = some i }))
  choose_transport (i + 1) left

-- The send of an answer and what follows it.
unfoldable pub send_answer : Board → ℕ → List ℕ → Action (Unit {0})
unfolding reset_anyway
send_answer board i answer = do
  ret ← ask (transport_send i answer)
  if is_negative ret
      then reset_anyway board
      else (do _ ← ask (buf_get_finish response (to_u32 ret)); ask (buf_reset request))

-- The receive of a request and what follows it. The command is decoded from the room that there was for
-- the request, and one that queues starts the next receive.
unfoldable pub serve_request : Board → Config → Nvs → ℕ → ℕ → Action (Unit {0})
unfolding answer_request send_answer reset_anyway
serve_request board config nvs fuel i = do
  (request_len, at) ← ask (buf_put_claim request max_packet_size)
  ret ← ask (transport_recv i at request_len)
  if is_negative ret then reset_anyway board else (do
    _ ← ask (buf_put_finish request (to_u32 ret))
    bytes ← ask (buf_load request at request_len)
    if (decode_into bytes 0xffffffff).1 == 0x03
        then pure tt
        else (do answer ← answer_request board config nvs fuel; send_answer board i answer))

unfoldable pub serve_transport : Board → Config → Nvs → ℕ → Option ℕ → Action (Unit {0})
unfolding serve_request
serve_transport board config nvs fuel none = pure tt
serve_transport board config nvs fuel (some i) = serve_request board config nvs fuel i

unfoldable pub find_transport : ℕ → Option ℕ → Action (Unit {0})
unfolding choose_transport
find_transport transports (some i) = pure tt
find_transport transports none = do choose_transport 0 transports; ask (sleep_ms 50)

-- One round of the loop of `io_thread_fn`.
unfoldable pub round : Board → Config → Nvs → ℕ → ℕ → Action (Unit {0})
unfolding serve_transport find_transport
round board config nvs transports fuel = do
  before ← gets (λ d. d.transport)
  find_transport transports before
  now ← gets (λ d. d.transport)
  serve_transport board config nvs fuel now

unfoldable pub check_gpios : ℕ → ℕ → Action (Unit {0})
unfolding ◌>>=◌
check_gpios i zero = pure tt
check_gpios i (suc left) = do
  ready ← ask (gpio_ready (gpios i))
  fatal_check ready
  check_gpios (i + 1) left

-- `io_init` up to the transports, and then their `init`, which ends at the first that fails.
unfoldable pub init_transports : ℕ → ℕ → Action (Unit {0})
unfolding ◌>>=◌
init_transports i zero = pure tt
init_transports i (suc left) = do
  ret ← ask (transport_init i)
  if is_negative ret then fail eio else pure tt
  init_transports (i + 1) left

unfoldable pub init : Board → ℕ → Action (Unit {0})
unfolding check_gpios reset init_transports
init board transports = do
  check_gpios 0 board.gpios
  ask (buf_init request)
  ask (buf_init response)
  reset board
  init_transports 0 transports
  ask thread_start
