-- ===== src/Dap/Invariant/Thread.antt =====
-- A round of the driver's thread, its interrupt and its timer keep the driver well-formed.
use riceprobe.Base.{ℕ, zero, suc, ◌+◌, ◌==◌, true, List, [], ◌∷◌, Option, none, some}
use riceprobe.Errno.{Result}
use riceprobe.Errno
use riceprobe.Base.{arith}
use riceprobe.Nvs.{Nvs}
use riceprobe.Zephyr.{
  transport_configure, sleep_ms, swo, uart_read, buf_store, uart_update, uart_rx_ready,
  buf_put_claim,
}
use riceprobe.Zephyr.Prog.{modify, ◌>>=◌}
use riceprobe.Zephyr.Always.{
  Keeps, Keeps-bind, Keeps-elim, Keeps-ask, Keeps-stop, Keeps-pure, Keeps-modify, Keeps-when,
  keeps_rules,
}
use riceprobe.Dap.{Driver, Action}
use riceprobe.Dap.General.{Config}
use riceprobe.Dap.Request.{clear, reset, reset_state}
use riceprobe.Dap.Thread.{
  running_led_timer, drain, drain_more, keep_read, swo_loop, swo_uart_isr, choose_transport,
  find_transport, send_answer, serve_request, serve_transport, round,
}
use riceprobe.Dap.Invariant.{IsValid, dap_rules}
use riceprobe.Dap.Invariant.Request.{answer_request-Keeps, reset_state-IsValid}

reset_state-Keeps : Keeps IsValid (modify reset_state)
reset_state-Keeps = Keeps-modify reset_state (λ d h. reset_state-IsValid d)

pub Keeps-clear : {P : Driver → Type 0} → Keeps P clear
unfolding clear ◌>>=◌
Keeps-clear = search dap_rules depth 80

pub reset-Keeps : Keeps IsValid reset
unfolding reset
reset-Keeps = search (dap_rules, reset_state-Keeps, Keeps-clear) depth 80

pub Keeps-running_led_timer : {P : Driver → Type 0} → Keeps P running_led_timer
unfolding running_led_timer
Keeps-running_led_timer = search keeps_rules

module _ {P : Driver → Type 0} where
  Keeps-drain_more :
      {m : Action (Unit {0})} → Keeps P m → (r : Result (List ℕ)) → Keeps P (drain_more m r)
  unfolding drain_more
  Keeps-drain_more k (Errno.err e) = Keeps-pure tt
  Keeps-drain_more k (Errno.ok []) = Keeps-pure tt
  Keeps-drain_more k (Errno.ok (b ∷ bs)) = k

  Keeps-drain : (fuel : ℕ) → Keeps P (drain fuel)
  unfolding drain
  Keeps-drain zero = Keeps-stop _
  Keeps-drain (suc fuel) =
      Keeps-bind (Keeps-ask (uart_read 1)) (λ r. Keeps-drain_more (Keeps-drain fuel) r)

  Keeps-keep_read : (at : ℕ) (r : Result (List ℕ)) → Keeps P (keep_read at r)
  unfolding keep_read
  Keeps-keep_read at (Errno.err e) = search keeps_rules
  Keeps-keep_read at (Errno.ok bytes) =
      Keeps-bind (Keeps-ask (buf_store swo at bytes)) (λ _. search keeps_rules)

set_overrun-Keeps :
    Keeps IsValid (modify (λ d. record d { swo = record (d.swo) { overrun = true } }))
set_overrun-Keeps = Keeps-modify _ (λ d h. ground arith)

set_error-Keeps : Keeps IsValid (modify (λ d. record d { swo = record (d.swo) { error = true } }))
set_error-Keeps = Keeps-modify _ (λ d h. ground arith)

swo_loop-Keeps : (fuel : ℕ) → Keeps IsValid (swo_loop fuel)
unfolding swo_loop
swo_loop-Keeps zero = Keeps-stop _
swo_loop-Keeps (suc fuel) = Keeps-bind (Keeps-ask uart_update) (λ updated.
    Keeps-elim updated
      (Keeps-bind (Keeps-ask uart_rx_ready) (λ ready.
        Keeps-elim ready
          (Keeps-bind (Keeps-ask (buf_put_claim swo 2048)) (λ claim.
            Keeps-elim (claim.0 == 0) (Keeps-bind set_overrun-Keeps (λ _. Keeps-drain fuel)) (
              Keeps-bind (Keeps-ask (uart_read claim.0))
                (λ r. Keeps-bind (Keeps-keep_read claim.1 r) (λ _. swo_loop-Keeps fuel)))))
          (Keeps-pure tt)))
      (Keeps-pure tt))

pub swo_uart_isr-Keeps : (fuel : ℕ) → Keeps IsValid (swo_uart_isr fuel)
unfolding swo_uart_isr
swo_uart_isr-Keeps fuel = search (keeps_rules, set_error-Keeps, swo_loop-Keeps) depth 20

choose_transport-Keeps : (i left : ℕ) → Keeps IsValid (choose_transport i left)
unfolding choose_transport
choose_transport-Keeps i zero = Keeps-pure tt
choose_transport-Keeps i (suc left) = Keeps-bind (Keeps-ask (transport_configure i)) (λ r.
    Keeps-bind
      (Keeps-when _
        (Keeps-modify (λ d. record d { transport_used = some i }) (λ d h. ground arith)))
      (λ _. choose_transport-Keeps (i + 1) left))

find_transport-Keeps : (n : ℕ) (t : Option ℕ) → Keeps IsValid (find_transport n t)
unfolding find_transport
find_transport-Keeps n (some i) = Keeps-pure tt
find_transport-Keeps n none = Keeps-bind (choose_transport-Keeps 0 n) (λ _. Keeps-ask (sleep_ms 50))

send_answer-Keeps : (i : ℕ) (answer : List ℕ) → Keeps IsValid (send_answer i answer)
unfolding send_answer ◌>>=◌
send_answer-Keeps i answer = search (keeps_rules, reset-Keeps) depth 20

serve_transport-Keeps :
    (config : Config) (nvs : Nvs) (fuel : ℕ) (t : Option ℕ)
    → Keeps IsValid (serve_transport config nvs fuel t)
unfolding serve_transport serve_request
serve_transport-Keeps config nvs fuel none = Keeps-pure tt
serve_transport-Keeps config nvs fuel (some i) =
    search (keeps_rules, reset-Keeps, answer_request-Keeps, send_answer-Keeps) depth 40

pub round-Keeps :
    (config : Config) (nvs : Nvs) (transports fuel : ℕ)
    → Keeps IsValid (round config nvs transports fuel)
unfolding round
round-Keeps config nvs transports fuel =
    search (keeps_rules, find_transport-Keeps, serve_transport-Keeps) depth 40
