-- ===== src/Io/Finish/Request.antt =====
-- The request handler of firmware/src/io/io.c comes to an end.
use riceprobe.Base.{ℕ, zero, suc, ◌<◌, arith, Bool, false}
use riceprobe.Nvs.{Nvs}
use riceprobe.Zephyr.{request}
use riceprobe.Zephyr.Prog.{Server, run}
use riceprobe.Zephyr.Ends.{
  Laws, IsDone, Ends, Ends-if, Ends-fail, Ends-pure, EndsAt-bind, EndsUnder, EndsUnder-bind,
  EndsUnder-elim, EndsUnder-Ends,
}
use riceprobe.Dap.General.{Config}
use riceprobe.Io.{Driver, Board}
use riceprobe.Utf8.Rbuf.{rbuf_get}
use riceprobe.Io.Request.{dispatch, next_command, request_loop, handle_request}
use riceprobe.Io.Finish.{finish_rules, Ends-rbuf_get, rbuf_get-takes}
use riceprobe.Io.Finish.Handlers.{
  Ends-handle_info, Ends-handle_delay, Ends-handle_gpio_caps, Ends-handle_gpio_cfg,
  Ends-handle_gpio_ctrl, Ends-handle_pins_caps, Ends-handle_pins_default, Ends-handle_pins_cfg,
}

module _ {W : Type 0} (server : Server W) (laws : Laws server) (board : Board) (config : Config)
    (nvs : Nvs) where
  Ends-dispatch : (c : ℕ) → Ends server laws (dispatch board config nvs c)
  unfolding dispatch
  Ends-dispatch c =
      search
        (
          Ends-if, Ends-fail, Ends-handle_info, Ends-handle_delay, Ends-handle_pins_caps,
          Ends-handle_pins_default, Ends-handle_pins_cfg, Ends-handle_gpio_caps,
          Ends-handle_gpio_cfg, Ends-handle_gpio_ctrl,
        )
        depth 60

  Ends-next_command : (num command : ℕ) → Ends {S = Driver} server laws (next_command num command)
  unfolding next_command
  Ends-next_command num command = search finish_rules depth 40

  -- Each round takes a byte of the request at least.
  request_loop-ends :
      (fuel num : ℕ) (queued : Bool)
      → EndsUnder server laws fuel (request_loop board config nvs fuel num queued)
  unfolding request_loop
  request_loop-ends zero num queued = record { at = λ d w few. ground arith }
  request_loop-ends (suc fuel) num queued = record {
    at = λ d w few.
        EndsAt-bind server laws (rbuf_get request 0xffffffff) _ d w
          ((Ends-rbuf_get 0xffffffff).at d w)
          (λ command got.
            (EndsUnder-bind (Ends-next_command _ command) (λ next.
                EndsUnder-bind (Ends-dispatch next.1) (λ _.
                  EndsUnder-elim _ (request_loop-ends fuel _ _)
                    (EndsUnder-Ends (Ends-pure tt))))).at
              _ _ (under _ _ _ (rbuf_get-takes server laws 0xffffffff d w command got) few));
  }
    where
      under : (l k n : ℕ) → l < k → k < suc n → l < n
      under l k n taken few = omega arith

-- A request of the IO driver always comes to an end: with a server that keeps the documented laws of a
-- request buffer and of a clock, and with one round more than there are bytes in the request, the handler
-- never runs out of rounds, whatever the request holds, be it a command that counts or queues further
-- commands, and whatever levels a pin has that is waited for.
pub handle_request-IsDone :
    {W : Type 0} (server : Server W) (laws : Laws server) (board : Board) (config : Config)
    (nvs : Nvs) (fuel : ℕ) (d : Driver) (w : W)
    → laws.left w < fuel
    → IsDone (run server (handle_request board config nvs fuel d) w).0.0
unfolding handle_request
handle_request-IsDone server laws board config nvs fuel d w enough =
    ((request_loop-ends server laws board config nvs fuel 1 false).at d w enough).done
