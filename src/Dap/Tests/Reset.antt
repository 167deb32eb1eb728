-- ===== src/Dap/Tests/Reset.antt =====
-- Starts, rounds and resets of the driver on a concrete bench.
use riceprobe.Base.{refl, true, [], ◌∷◌}
use riceprobe.Base.Int.{negsuc}
use riceprobe.Zephyr.{transport_recv}
use riceprobe.Zephyr.Prog.{run, ◌>>=◌}
use riceprobe.Zephyr.Always.{IsOk}
use riceprobe.Zephyr.Bench.{Env, serve}
use riceprobe.Zephyr.Stage.{quiet_env, bench_of}
use riceprobe.Dap.{configure_pin, set_pin}
use riceprobe.Dap.Request.{clear, reset, reset_state}
use riceprobe.Dap.Thread.{serve_request, round, swo_uart_isr, init, init_transports}
use riceprobe.Dap.Invariant.{IsValid}
use riceprobe.Dap.Invariant.Reset.{
  IsReset, serve_request-IsReset, started, round_made, interrupted, Reach-IsValid,
}
use riceprobe.Dap.Tests.{capturing, config, nvs}

-- The connection is lost.
abbrev lost_env : Env
lost_env (transport_recv i at n) cs = negsuc 107
lost_env c cs = quiet_env c cs

lost_goes_on :
    IsOk (run (serve lost_env) (serve_request config nvs 3 0 capturing) (bench_of [])).0.0
unfolding serve_request reset clear reset_state configure_pin set_pin ◌>>=◌
lost_goes_on = tt

serve_request-IsReset_example :
    IsReset (run (serve lost_env) (serve_request config nvs 3 0 capturing) (bench_of [])).0.1
serve_request-IsReset_example =
    serve_request-IsReset (serve lost_env) config nvs 3 0 capturing (bench_of []) refl lost_goes_on

starts : IsOk (run (serve quiet_env) (init true 2 capturing) (bench_of [])).0.0
unfolding init reset clear reset_state init_transports configure_pin set_pin ◌>>=◌
starts = tt

-- A start, an interrupt, and a round that receives a command.
Reach-IsValid_example :
    IsValid
      (run
        (serve quiet_env)
        (round config nvs 2 4
          (run
            (serve quiet_env)
            (swo_uart_isr 4 (run (serve quiet_env) (init true 2 capturing) (bench_of [])).0.1)
            (bench_of [])).0.1)
        (bench_of (0x18 ∷ 1 ∷ []))).0.1
Reach-IsValid_example = Reach-IsValid (serve quiet_env) config nvs true 2 _ (
    round_made 4 _ (bench_of (0x18 ∷ 1 ∷ []))
      (interrupted 4 _ (bench_of []) (started capturing (bench_of []) starts)))
