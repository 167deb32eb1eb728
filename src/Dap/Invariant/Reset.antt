-- ===== src/Dap/Invariant/Reset.antt =====
-- What a reset leaves, where it is done, and the states that the driver reaches.
use riceprobe.Base.{
  ℕ, zero, suc, ◌+◌, ◌≡◌, refl, arith, Bool, true, false, if◌then◌else◌, [], ◌∷◌, none,
}
use riceprobe.Base.Int.{is_negative}
use riceprobe.Errno.{eio}
use riceprobe.Nvs.{Nvs}
use riceprobe.Zephyr.{request, transport_init, transport_recv, buf_put_claim, thread_start}
use riceprobe.Zephyr.Prog.{Server, run, ask, modify, ◌>>=◌, ◌>>◌}
use riceprobe.Zephyr.Always.{
  Always-run, Keeps, Keeps-bind, Keeps-if, Keeps-ask, Keeps-pure, Keeps-fail, IsOk, Yields,
  Yields-modify, Yields-last, Yields-kept,
}
use riceprobe.Dap.{Driver, Action}
use riceprobe.Dap.General.{Config}
use riceprobe.Dap.Request.{reset, reset_state}
use riceprobe.Dap.Thread.{
  swo_uart_isr, running_led_timer, serve_request, round, init_transports, init,
}
use riceprobe.Dap.Invariant.{IsValid}
use riceprobe.Dap.Invariant.Thread.{
  Keeps-clear, Keeps-running_led_timer, round-Keeps, swo_uart_isr-Keeps,
}

-- The values of a driver that was reset: no port and no transport is chosen, nothing is captured, no led is
-- on, the chain of JTAG devices is empty, and every setting is its default.
pub record IsReset (d : Driver) : Type 0 where
  pub port : d.swj.port ≡ 0
  pub clock : d.swj.clock ≡ 1000000
  pub delay_ns : d.swj.delay_ns ≡ 500
  pub count : d.jtag.count ≡ 0
  pub index : d.jtag.index ≡ 0
  pub ir_length : d.jtag.ir_length ≡ 0 ∷ 0 ∷ 0 ∷ 0 ∷ []
  pub ir_before : d.jtag.ir_before ≡ 0 ∷ 0 ∷ 0 ∷ 0 ∷ []
  pub ir_after : d.jtag.ir_after ≡ 0 ∷ 0 ∷ 0 ∷ 0 ∷ []
  pub turnaround_cycles : d.swd.turnaround_cycles ≡ 1
  pub data_phase : d.swd.data_phase ≡ false
  pub transport : d.swo.transport ≡ 0
  pub mode : d.swo.mode ≡ 0
  pub baudrate : d.swo.baudrate ≡ 1000000
  pub capture : d.swo.capture ≡ false
  pub error : d.swo.error ≡ false
  pub overrun : d.swo.overrun ≡ false
  pub idle_cycles : d.transfer.idle_cycles ≡ 0
  pub wait_retries : d.transfer.wait_retries ≡ 100
  pub match_retries : d.transfer.match_retries ≡ 0
  pub match_mask : d.transfer.match_mask ≡ 0
  pub connected : d.led.connected ≡ false
  pub running : d.led.running ≡ false
  pub transport_used : d.transport_used ≡ none

modify-IsReset : Yields IsReset (modify reset_state)
unfolding reset_state
modify-IsReset = Yields-modify reset_state (λ d. record {
  port = refl;
  clock = refl;
  delay_ns = refl;
  count = refl;
  index = refl;
  ir_length = refl;
  ir_before = refl;
  ir_after = refl;
  turnaround_cycles = refl;
  data_phase = refl;
  transport = refl;
  mode = refl;
  baudrate = refl;
  capture = refl;
  error = refl;
  overrun = refl;
  idle_cycles = refl;
  wait_retries = refl;
  match_retries = refl;
  match_mask = refl;
  connected = refl;
  running = refl;
  transport_used = refl;
})

reset-IsReset : Yields IsReset reset
unfolding reset
reset-IsReset = Yields-last _ (λ _. Yields-last _ (λ _. Yields-last _ (λ _. Yields-last _ (λ _.
    Yields-last _ (λ _.
      Yields-last _ (λ _. Yields-last _ (λ _. Yields-kept modify-IsReset (λ _. Keeps-clear))))))))

init_transports-Keeps : {P : Driver → Type 0} (i left : ℕ) → Keeps P (init_transports i left)
unfolding init_transports
init_transports-Keeps i zero = Keeps-pure tt
init_transports-Keeps i (suc left) = Keeps-bind (Keeps-ask (transport_init i)) (λ r.
    Keeps-bind (Keeps-if (is_negative r) (Keeps-fail eio) (Keeps-pure tt))
      (λ _. init_transports-Keeps (i + 1) left))

start_rest : {P : Driver → Type 0} (n : ℕ) → Keeps P (init_transports 0 n >> ask thread_start)
start_rest n = Keeps-bind (init_transports-Keeps 0 n) (λ _. Keeps-ask thread_start)

init-IsReset : (one_led : Bool) (n : ℕ) → Yields IsReset (init one_led n)
unfolding init
init-IsReset one_led n = Yields-last _ (λ _. Yields-last _ (λ _. Yields-last _ (λ _.
    Yields-last _ (λ _. Yields-last _ (λ _. Yields-last _ (λ _. Yields-last _ (λ _.
      Yields-last _ (λ _. Yields-last _ (λ _.
        Yields-last _
          (λ _. Yields-last _ (λ _. Yields-kept reset-IsReset (λ _. start_rest n))))))))))))

if_reset :
    {W : Type 0} (server : Server W) (b : Bool) (m : Action (Unit {0})) (d : Driver) (w : W)
    → b ≡ true
    → IsOk (run server ((if b then reset else m) d) w).0.0
    → IsReset (run server ((if b then reset else m) d) w).0.1
if_reset server true m d w h is_ok = Always-run _ server (reset d) w (reset-IsReset.at d) is_ok
if_reset server false m d w h is_ok = ground arith

module _ {W : Type 0} (server : Server W) (config : Config) (nvs : Nvs) where
  -- A receive that fails resets the driver, or the thread ends: where the round goes on, whatever the driver
  -- was, no port and no transport is chosen, no data is captured, the chain of JTAG devices is empty, and
  -- every setting is its default: 1 MHz and a pin delay of 500 ns, one turnaround cycle, 100 retries.
  pub serve_request-IsReset :
      (fuel i : ℕ) (d : Driver) (w : W)
      → is_negative
          (server
            (transport_recv i
              (server (buf_put_claim request 512) w).0.1
              (server (buf_put_claim request 512) w).0.0)
            (server (buf_put_claim request 512) w).1).0
        ≡ true
      → IsOk (run server (serve_request config nvs fuel i d) w).0.0
      → IsReset (run server (serve_request config nvs fuel i d) w).0.1
  unfolding serve_request ◌>>=◌
  serve_request-IsReset fuel i d w failed = if_reset server _ _ d _ failed

  -- The states that the driver reaches from its start, with its environment free to change in between: the
  -- state after a start that succeeds, and the states after a round of the thread, after an interrupt of
  -- the UART and after the timer of the running led, in any order.
  pub data Reach (one_led : Bool) (transports : ℕ) : Driver → Type 0 where
    started :
        (d : Driver) (w : W)
        → IsOk (run server (init one_led transports d) w).0.0
        → Reach one_led transports (run server (init one_led transports d) w).0.1
    round_made :
        (fuel : ℕ) (d : Driver) (w : W)
        → Reach one_led transports d
        → Reach one_led transports (run server (round config nvs transports fuel d) w).0.1
    interrupted :
        (fuel : ℕ) (d : Driver) (w : W)
        → Reach one_led transports d
        → Reach one_led transports (run server (swo_uart_isr fuel d) w).0.1
    timer_run :
        (d : Driver) (w : W)
        → Reach one_led transports d
        → Reach one_led transports (run server (running_led_timer d) w).0.1

IsReset-IsValid : (d : Driver) → IsReset d → IsValid d
IsReset-IsValid d h = ground (arith, h.port, h.clock, h.delay_ns, h.count, h.index)

-- Every state that the driver reaches is well-formed: after a start that succeeds, from whatever memory
-- held before, through any order of rounds of the thread, interrupts of the UART and runs of the timer,
-- with any requests and with any answers to the calls, in states of the environment that are free to
-- change in between.
pub Reach-IsValid :
    {W : Type 0} (server : Server W) (config : Config) (nvs : Nvs) (one_led : Bool) (transports : ℕ)
    (d : Driver)
    → Reach server config nvs one_led transports d
    → IsValid d
Reach-IsValid server config nvs one_led n d (started d' w is_ok) =
    IsReset-IsValid _
      (Always-run _ server (init one_led n d') w ((init-IsReset one_led n).at d') is_ok)
Reach-IsValid server config nvs one_led n d (round_made fuel d' w r) =
    Always-run _ server (round config nvs n fuel d') w
      ((round-Keeps config nvs n fuel).at d' (Reach-IsValid server config nvs one_led n d' r))
Reach-IsValid server config nvs one_led n d (interrupted fuel d' w r) =
    Always-run _ server (swo_uart_isr fuel d') w
      ((swo_uart_isr-Keeps fuel).at d' (Reach-IsValid server config nvs one_led n d' r))
Reach-IsValid server config nvs one_led n d (timer_run d' w r) =
    Always-run _ server (running_led_timer d') w (
      (Keeps-running_led_timer {P = IsValid}).at d'
        (Reach-IsValid server config nvs one_led n d' r))
