-- ===== src/Dap/Invariant/Request.antt =====
-- A whole request of firmware/src/dap/dap.c, whatever it holds and whatever is answered to the calls it
-- makes, keeps the driver well-formed.
use riceprobe.Base.{ℕ, zero, suc, arith, Bool, false, List, [], ◌∷◌, ◌==◌}
use riceprobe.Nvs.{Nvs}
use riceprobe.Zephyr.Prog.{
  Server, run, Outcome, ok, err, oops, no_fuel, ask, fatal_check, ◌>>=◌, ◌>>◌,
}
use riceprobe.Zephyr.Always.{
  Always, Always-run, Always-then_do, Keeps, Keeps-bind, Keeps-elim, Keeps-if, Keeps-ask,
  Keeps-stop, Keeps-pure, Keeps-fail, Keeps-fatal_check,
}
use riceprobe.Zephyr.{buf_reset, buf_put, buf_get_claim, response}
use riceprobe.Dap.{Driver, Action, ring_buf_size}
use riceprobe.Dap.General.{Config}
use riceprobe.Dap.Request.{
  dispatch_swo, dispatch, next_command, request_loop, handle_request, settle_response, recover,
  answer_request, reset_state,
}
use riceprobe.Dap.Invariant.{IsValid, dap_rules, Keeps-get_u8}
use riceprobe.Dap.Invariant.Sequences.{
  handle_swd_configure-IsValid, handle_jtag_configure-IsValid, handle_jtag_idcode-IsValid,
  Keeps-handle_swd_sequence, Keeps-handle_jtag_sequence,
}
use riceprobe.Dap.Invariant.Swo.{
  handle_swo_mode-IsValid, handle_swo_control-IsValid, handle_swo_transport-IsValid,
  handle_swo_baudrate-IsValid, Keeps-handle_swo_status, Keeps-handle_swo_extended_status,
  Keeps-handle_swo_data,
}
use riceprobe.Dap.Invariant.General.{
  Keeps-handle_info, Keeps-handle_delay, Keeps-handle_reset_target, Keeps-handle_swj_pins,
  Keeps-handle_swj_sequence, handle_host_status-IsValid, handle_connect-IsValid,
  handle_disconnect-IsValid, handle_swj_clock-IsValid,
}
use riceprobe.Dap.Invariant.Transfer.{
  handle_transfer-IsValid, handle_transfer_block-IsValid, handle_write_abort-IsValid,
  handle_transfer_abort-IsValid, handle_transfer_configure-IsValid,
}

ruleset command_rules = (
  Keeps-handle_info, handle_host_status-IsValid, handle_connect-IsValid, handle_disconnect-IsValid,
  handle_transfer_configure-IsValid, handle_transfer-IsValid, handle_transfer_block-IsValid,
  handle_transfer_abort-IsValid, handle_write_abort-IsValid, Keeps-handle_delay,
  Keeps-handle_reset_target, Keeps-handle_swj_pins, handle_swj_clock-IsValid,
  Keeps-handle_swj_sequence, handle_swd_configure-IsValid, Keeps-handle_jtag_sequence,
  handle_jtag_configure-IsValid, handle_jtag_idcode-IsValid,
)

Keeps-dispatch_swo : (c : ℕ) → Keeps IsValid (dispatch_swo c)
unfolding dispatch_swo
Keeps-dispatch_swo c = Keeps-if _ handle_swo_transport-IsValid (
    Keeps-if _ handle_swo_mode-IsValid (
      Keeps-if _ handle_swo_baudrate-IsValid (
        Keeps-if _ handle_swo_control-IsValid (
          Keeps-if _ Keeps-handle_swo_status (
            Keeps-if _ Keeps-handle_swo_data (
              Keeps-if _ Keeps-handle_swd_sequence
                (Keeps-if _ Keeps-handle_swo_extended_status (Keeps-fail _))))))))

-- Each command keeps the driver well-formed, with any build's strings and any stored names.
pub dispatch-IsValid : (config : Config) (nvs : Nvs) (c : ℕ) → Keeps IsValid (dispatch config nvs c)
unfolding dispatch
dispatch-IsValid config nvs c = search (Keeps-if, Keeps-dispatch_swo, command_rules) depth 80

Keeps-next_command : {P : Driver → Type 0} (num command : ℕ) → Keeps P (next_command num command)
unfolding next_command ◌>>=◌
Keeps-next_command num command = search dap_rules depth 40

Keeps-request_loop :
    (config : Config) (nvs : Nvs) (fuel num : ℕ) (queued : Bool)
    → Keeps IsValid (request_loop config nvs fuel num queued)
unfolding request_loop
Keeps-request_loop config nvs zero num queued = Keeps-stop _
Keeps-request_loop config nvs (suc fuel) num queued = Keeps-bind Keeps-get_u8 (λ command.
    Keeps-bind (Keeps-next_command _ command) (λ (num', command').
      Keeps-bind (dispatch-IsValid config nvs command')
        (λ _. Keeps-elim _ (Keeps-request_loop config nvs fuel _ _) (Keeps-pure _))))

handle_request-IsValid :
    (config : Config) (nvs : Nvs) (fuel : ℕ) → Keeps IsValid (handle_request config nvs fuel)
unfolding handle_request
handle_request-IsValid config nvs fuel = Keeps-request_loop config nvs fuel 1 false

Keeps-report :
    Keeps IsValid (
      ask (buf_reset response)
      >> (ask (buf_put response (0xff ∷ [])) >>= λ n. fatal_check (n == 1)))
Keeps-report =
    Keeps-bind (Keeps-ask (buf_reset response))
      (λ _. Keeps-bind (Keeps-ask (buf_put response (0xff ∷ []))) (λ n. Keeps-fatal_check (n == 1)))

settle_response-IsValid :
    (x : Outcome (Unit {0}) × Driver)
    → IsValid x.1
    → Always (λ (y : Outcome (Unit {0}) × Driver). IsValid y.1) (settle_response x)
unfolding settle_response
settle_response-IsValid (ok a, d) h = (Keeps-pure a).at d h
settle_response-IsValid (err e, d) h = Keeps-report.at d h
settle_response-IsValid (oops, d) h = (Keeps-stop _).at d h
settle_response-IsValid (no_fuel, d) h = (Keeps-stop _).at d h

Keeps-recover : (m : Action (Unit {0})) → Keeps IsValid m → Keeps IsValid (recover m)
unfolding recover
Keeps-recover m k = record {
  at = λ d h. Always-then_do _ _ (m d) settle_response (k.at d h) settle_response-IsValid;
}

pub answer_request-Keeps :
    (config : Config) (nvs : Nvs) (fuel : ℕ) → Keeps IsValid (answer_request config nvs fuel)
unfolding answer_request
answer_request-Keeps config nvs fuel = Keeps-bind (Keeps-ask (buf_reset response)) (λ _.
    Keeps-bind (Keeps-recover _ (handle_request-IsValid config nvs fuel))
      (λ _. Keeps-ask (buf_get_claim response ring_buf_size)))

-- A request is handled by a well-formed driver: whatever the request holds, however often its loop may
-- run, and whatever any server answers to the calls, the driver is well-formed afterwards, also where
-- the request fails or the thread ends.
pub answer_request-IsValid :
    {W : Type 0} (server : Server W) (config : Config) (nvs : Nvs) (fuel : ℕ) (d : Driver) (w : W)
    → IsValid d
    → IsValid (run server (answer_request config nvs fuel d) w).0.1
answer_request-IsValid server config nvs fuel d w h =
    Always-run (λ (x : Outcome (List ℕ) × Driver). IsValid x.1) server
      (answer_request config nvs fuel d) w ((answer_request-Keeps config nvs fuel).at d h)

-- The state that a reset writes is well-formed, whatever the state was.
pub reset_state-IsValid : (d : Driver) → IsValid (reset_state d)
unfolding reset_state
reset_state-IsValid d = ground arith
