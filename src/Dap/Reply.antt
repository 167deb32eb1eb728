-- ===== src/Dap/Reply.antt =====
-- What the host gets for a request of the debug port that fails.
use riceprobe.Base.{ℕ, ◌≡◌, ap, arith, [], ◌∷◌}
use riceprobe.Errno.{Errno}
use riceprobe.Nvs.{Nvs}
use riceprobe.Zephyr.{response, buf_reset}
use riceprobe.Zephyr.Prog.{Server, run, ok, err, then_do, ◌>>=◌}
use riceprobe.Zephyr.Run.{run-then_do, run-keeps}
use riceprobe.Zephyr.Reply.{ReplyBuffer, replied, run-reply}
use riceprobe.Dap.{Driver}
use riceprobe.Dap.General.{Config}
use riceprobe.Dap.Request.{handle_request, settle_response, recover, answer_request}

module _ {W : Type 0} (server : Server W) (laws : ReplyBuffer server) where
  settle_response-error :
      (e : Errno) (d : Driver) (w : W)
      → laws.IsReady w
      → run server (settle_response (err e, d)) w ≡ ((ok tt, d), replied server 0xff w)
  unfolding settle_response ◌>>=◌
  settle_response-error e d w h = run-reply server laws 0xff d w h

  -- A request that fails is answered by the byte 0xff alone, whatever it had written to the response
  -- before it failed: with any server that keeps the documented laws of a response buffer and any
  -- answers of its to all other calls, a handler that ends with a negative code leads to the answer
  -- `0xff`, and the driver is as the handler left it.
  pub answer_request-error :
      (config : Config) (nvs : Nvs) (fuel : ℕ) (d d' : Driver) (w : W) (e : Errno)
      → laws.IsReady w
      → (run server (handle_request config nvs fuel d) (server (buf_reset response) w).1).0
        ≡ (err e, d')
      → (run server (answer_request config nvs fuel d) w).0 ≡ (ok (0xff ∷ []), d')
  unfolding answer_request recover ◌>>=◌
  answer_request-error config nvs fuel d d' w e ready h =
      rw
        (
          run-then_do server (then_do (handle_request config nvs fuel d) settle_response) _ begun,
          run-then_do server (handle_request config nvs fuel d) settle_response begun,
          h,
          settle_response-error e d' after still,
        )
        (ap (λ xs. (ok xs, d'))
          (laws.shows 2048 0xff _ (omega arith) (laws.puts 0xff _ (laws.resets after still)).1))
    where
      begun : W
      begun = (server (buf_reset response) w).1

      after : W
      after = (run server (handle_request config nvs fuel d) begun).1

      still : laws.IsReady after
      still =
          run-keeps laws.IsReady server laws.stays_ready (handle_request config nvs fuel d) begun
            (laws.stays_ready (buf_reset response) w ready)
