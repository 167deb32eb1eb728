-- ===== src/Zephyr/Bench.antt =====
-- A test bench for the firmware's code: three ring buffers, and for all else an environment that may
-- answer each call by the whole history of calls. Every call that is not a buffer's is recorded.
use riceprobe.Base.{List, ◌∷◌, length}
use riceprobe.Zephyr.{
  Buffer, request, response, swo, Call, Answer, buf_get, buf_put, buf_get_claim, buf_get_finish,
  buf_put_claim, buf_put_finish, buf_store, buf_reset, buf_size, buf_space, buf_peek, buf_load,
  buf_init,
}
use riceprobe.Zephyr.Ring
use riceprobe.Zephyr.Ring.{Ring}
use riceprobe.Zephyr.Prog.{Server}

pub record Bench : Type 0 where
  pub request_ring : Ring
  pub response_ring : Ring
  pub swo_ring : Ring
  -- the calls made of the environment, the last one first
  pub trace : List Call

abbrev pub Env : Type 0
Env = (c : Call) → List Call → Answer c

abbrev pub ring : Buffer → Bench → Ring
ring request w = w.request_ring
ring response w = w.response_ring
ring swo w = w.swo_ring

abbrev pub set_ring : Buffer → Bench → Ring → Bench
set_ring request w r = record w { request_ring = r }
set_ring response w r = record w { response_ring = r }
set_ring swo w r = record w { swo_ring = r }

abbrev pub on_ring : {A : Type 0} → Buffer → (Ring → A × Ring) → Bench → A × Bench
on_ring b f w = let (a, r) = f (ring b w) in (a, set_ring b w r)

abbrev pub serve : Env → Server Bench
serve env (buf_get b n) w = on_ring b (λ r. Ring.get r n) w
serve env (buf_put b xs) w = on_ring b (λ r. Ring.put r xs) w
serve env (buf_get_claim b n) w = on_ring b (λ r. Ring.get_claim r n) w
serve env (buf_get_finish b n) w = on_ring b (λ r. Ring.get_finish r n) w
serve env (buf_put_claim b n) w = on_ring b (λ r. Ring.put_claim r n) w
serve env (buf_put_finish b n) w = on_ring b (λ r. Ring.put_finish r n) w
serve env (buf_store b at xs) w = on_ring b (λ r. (tt, Ring.store r at xs)) w
serve env (buf_reset b) w = on_ring b (λ r. (tt, Ring.reset r)) w
serve env (buf_peek b at) w = (Ring.peek (ring b w) at, w)
serve env (buf_load b at n) w = (Ring.load (ring b w) at n, w)
serve env (buf_init b) w = on_ring b (λ r. (tt, Ring.reset r)) w
serve env (buf_size b) w = (length (ring b w).bytes, w)
serve env (buf_space b) w = (Ring.free (ring b w), w)
serve env c w = (env c w.trace, record w { trace = c ∷ w.trace })
