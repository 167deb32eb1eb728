-- ===== src/Zephyr/Clock.antt =====
-- The bench keeps the laws of Zephyr.Ends, with an environment that keeps time by the sleeps.
use riceprobe.Base.{
  ℕ, zero, suc, ◌+◌, ◌-◌, ◌%◌, ◌≤◌, ◌<◌, ◌≡◌, refl, arith, min, true, List, [], ◌∷◌, length,
  length-take, drop, leb, le→leb, sym, ltb, Bool-cases, inl, inr,
}
use riceprobe.Zephyr.{
  Call, request, response, swo, buf_get, buf_put, buf_get_claim, buf_get_finish, buf_put_claim,
  buf_put_finish, buf_store, buf_peek, buf_load, buf_init, buf_reset, buf_size, buf_space, gpio_set,
  gpio_get, gpio_configure, pin_configure, timer_start, timer_stop, uart_rx_enable, uart_rx_disable,
  uart_err_enable, uart_err_disable, uart_configure, wait_nanos, wait_us, sleep_us, timepoint,
  expired, gpio_toggle, pin_write, sleep_ms, timepoint_ms, transport_init, transport_configure,
  transport_recv, transport_send, uart_err_check, uart_update, uart_rx_ready, uart_read,
  uart_tx_disable, gpio_ready, uart_ready, thread_start,
}
use riceprobe.Zephyr.Ring
use riceprobe.Zephyr.Ring.{Ring, overwrite}
use riceprobe.Zephyr.Bench.{Bench, Env, serve}
use riceprobe.Zephyr.Ends.{IsCalm, Laws}

abbrev took : Call → ℕ
took (sleep_ms n) = n
took _ = 0

-- The milliseconds that were slept.
abbrev pub elapsed : List Call → ℕ
elapsed [] = 0
elapsed (c ∷ cs) = took c + elapsed cs

fewer : (n : ℕ) (xs : List ℕ) → length (drop n xs) ≤ length xs
fewer zero xs = omega arith
fewer (suc n) [] = omega arith
fewer (suc n) (x ∷ xs) = omega (arith, fewer n xs)

dropped : (n : ℕ) (xs : List ℕ) → n ≤ length xs → length (drop n xs) + n ≤ length xs
dropped zero xs h = omega arith
dropped (suc n) [] h = omega (arith, h)
dropped (suc n) (x ∷ xs) h = omega (arith, dropped n xs (omega (arith, h)))

overwritten : (xs : List ℕ) (at : ℕ) (ys : List ℕ) → length (overwrite xs at ys) ≡ length xs
overwritten [] at ys = refl
overwritten (x ∷ xs) zero [] = refl
overwritten (x ∷ xs) zero (y ∷ ys) = omega (arith, overwritten xs zero ys)
overwritten (x ∷ xs) (suc at) ys = omega (arith, overwritten xs at ys)

get_finish-left : (r : Ring) (n : ℕ) → length (Ring.get_finish r n).1.bytes ≤ length r.bytes
get_finish-left r n = elim (Bool-cases (leb n r.taken)) [
  | inl e ↦ rw e (fewer n r.bytes)
  | inr e ↦ rw e (omega arith)
]

store-left : (r : Ring) (at : ℕ) (xs : List ℕ) → length (Ring.store r at xs).bytes ≤ length r.bytes
store-left r at xs = elim (Bool-cases (ltb at (length r.bytes))) [
  | inl e ↦ rw e (omega (arith, overwritten r.bytes at xs))
  | inr e ↦ rw e (omega arith)
]

abbrev left : Bench → ℕ
left w = length w.request_ring.bytes

-- No calm call adds to the request.
serve-left : (env : Env) (c : Call) (w : Bench) → IsCalm c → left (serve env c w).1 ≤ left w
serve-left env (buf_get request x1) w calm = fewer x1 w.request_ring.bytes
serve-left env (buf_get response x1) w calm = omega arith
serve-left env (buf_get swo x1) w calm = omega arith
serve-left env (buf_put request x1) w calm = absurd calm
serve-left env (buf_put response x1) w calm = omega arith
serve-left env (buf_put swo x1) w calm = omega arith
serve-left env (buf_get_claim request x1) w calm = omega arith
serve-left env (buf_get_claim response x1) w calm = omega arith
serve-left env (buf_get_claim swo x1) w calm = omega arith
serve-left env (buf_get_finish request x1) w calm = get_finish-left w.request_ring x1
serve-left env (buf_get_finish response x1) w calm = omega arith
serve-left env (buf_get_finish swo x1) w calm = omega arith
serve-left env (buf_put_claim request x1) w calm = omega arith
serve-left env (buf_put_claim response x1) w calm = omega arith
serve-left env (buf_put_claim swo x1) w calm = omega arith
serve-left env (buf_put_finish request x1) w calm = absurd calm
serve-left env (buf_put_finish response x1) w calm = omega arith
serve-left env (buf_put_finish swo x1) w calm = omega arith
serve-left env (buf_store request x1 x2) w calm = store-left w.request_ring x1 x2
serve-left env (buf_store response x1 x2) w calm = omega arith
serve-left env (buf_store swo x1 x2) w calm = omega arith
serve-left env (buf_peek request x1) w calm = omega arith
serve-left env (buf_peek response x1) w calm = omega arith
serve-left env (buf_peek swo x1) w calm = omega arith
serve-left env (buf_load request x1 x2) w calm = omega arith
serve-left env (buf_load response x1 x2) w calm = omega arith
serve-left env (buf_load swo x1 x2) w calm = omega arith
serve-left env (buf_init request) w calm = omega arith
serve-left env (buf_init response) w calm = omega arith
serve-left env (buf_init swo) w calm = omega arith
serve-left env (buf_reset request) w calm = omega arith
serve-left env (buf_reset response) w calm = omega arith
serve-left env (buf_reset swo) w calm = omega arith
serve-left env (buf_size request) w calm = omega arith
serve-left env (buf_size response) w calm = omega arith
serve-left env (buf_size swo) w calm = omega arith
serve-left env (buf_space request) w calm = omega arith
serve-left env (buf_space response) w calm = omega arith
serve-left env (buf_space swo) w calm = omega arith
serve-left env (gpio_set x0 x1) w calm = omega arith
serve-left env (gpio_get x0) w calm = omega arith
serve-left env (gpio_configure x0 x1) w calm = omega arith
serve-left env (pin_configure x0) w calm = omega arith
serve-left env timer_start w calm = omega arith
serve-left env timer_stop w calm = omega arith
serve-left env uart_rx_enable w calm = omega arith
serve-left env uart_rx_disable w calm = omega arith
serve-left env uart_err_enable w calm = omega arith
serve-left env uart_err_disable w calm = omega arith
serve-left env (uart_configure x0) w calm = omega arith
serve-left env (wait_nanos x0) w calm = omega arith
serve-left env (wait_us x0) w calm = omega arith
serve-left env (sleep_us x0) w calm = omega arith
serve-left env (timepoint x0) w calm = omega arith
serve-left env (expired x0) w calm = omega arith
serve-left env (gpio_toggle x0) w calm = omega arith
serve-left env (pin_write x0) w calm = omega arith
serve-left env (sleep_ms x0) w calm = omega arith
serve-left env (timepoint_ms x0) w calm = omega arith
serve-left env (transport_init x0) w calm = omega arith
serve-left env (transport_configure x0) w calm = omega arith
serve-left env (transport_recv x0 x1 x2) w calm = omega arith
serve-left env (transport_send x0 x1) w calm = omega arith
serve-left env uart_err_check w calm = omega arith
serve-left env uart_update w calm = omega arith
serve-left env uart_rx_ready w calm = omega arith
serve-left env (uart_read x0) w calm = omega arith
serve-left env uart_tx_disable w calm = omega arith
serve-left env (gpio_ready x0) w calm = omega arith
serve-left env uart_ready w calm = omega arith
serve-left env thread_start w calm = omega arith

serve-elapsed :
    (env : Env) (c : Call) (w : Bench) → elapsed w.trace ≤ elapsed (serve env c w).1.trace
serve-elapsed env (buf_get request x1) w = omega arith
serve-elapsed env (buf_get response x1) w = omega arith
serve-elapsed env (buf_get swo x1) w = omega arith
serve-elapsed env (buf_put request x1) w = omega arith
serve-elapsed env (buf_put response x1) w = omega arith
serve-elapsed env (buf_put swo x1) w = omega arith
serve-elapsed env (buf_get_claim request x1) w = omega arith
serve-elapsed env (buf_get_claim response x1) w = omega arith
serve-elapsed env (buf_get_claim swo x1) w = omega arith
serve-elapsed env (buf_get_finish request x1) w = omega arith
serve-elapsed env (buf_get_finish response x1) w = omega arith
serve-elapsed env (buf_get_finish swo x1) w = omega arith
serve-elapsed env (buf_put_claim request x1) w = omega arith
serve-elapsed env (buf_put_claim response x1) w = omega arith
serve-elapsed env (buf_put_claim swo x1) w = omega arith
serve-elapsed env (buf_put_finish request x1) w = omega arith
serve-elapsed env (buf_put_finish response x1) w = omega arith
serve-elapsed env (buf_put_finish swo x1) w = omega arith
serve-elapsed env (buf_store request x1 x2) w = omega arith
serve-elapsed env (buf_store response x1 x2) w = omega arith
serve-elapsed env (buf_store swo x1 x2) w = omega arith
serve-elapsed env (buf_peek x0 x1) w = omega arith
serve-elapsed env (buf_load x0 x1 x2) w = omega arith
serve-elapsed env (buf_init request) w = omega arith
serve-elapsed env (buf_init response) w = omega arith
serve-elapsed env (buf_init swo) w = omega arith
serve-elapsed env (buf_reset request) w = omega arith
serve-elapsed env (buf_reset response) w = omega arith
serve-elapsed env (buf_reset swo) w = omega arith
serve-elapsed env (buf_size x0) w = omega arith
serve-elapsed env (buf_space x0) w = omega arith
serve-elapsed env (gpio_set x0 x1) w = omega arith
serve-elapsed env (gpio_get x0) w = omega arith
serve-elapsed env (gpio_configure x0 x1) w = omega arith
serve-elapsed env (pin_configure x0) w = omega arith
serve-elapsed env timer_start w = omega arith
serve-elapsed env timer_stop w = omega arith
serve-elapsed env uart_rx_enable w = omega arith
serve-elapsed env uart_rx_disable w = omega arith
serve-elapsed env uart_err_enable w = omega arith
serve-elapsed env uart_err_disable w = omega arith
serve-elapsed env (uart_configure x0) w = omega arith
serve-elapsed env (wait_nanos x0) w = omega arith
serve-elapsed env (wait_us x0) w = omega arith
serve-elapsed env (sleep_us x0) w = omega arith
serve-elapsed env (timepoint x0) w = omega arith
serve-elapsed env (expired x0) w = omega arith
serve-elapsed env (gpio_toggle x0) w = omega arith
serve-elapsed env (pin_write x0) w = omega arith
serve-elapsed env (sleep_ms x0) w = omega arith
serve-elapsed env (timepoint_ms x0) w = omega arith
serve-elapsed env (transport_init x0) w = omega arith
serve-elapsed env (transport_configure x0) w = omega arith
serve-elapsed env (transport_recv x0 x1 x2) w = omega arith
serve-elapsed env (transport_send x0 x1) w = omega arith
serve-elapsed env uart_err_check w = omega arith
serve-elapsed env uart_update w = omega arith
serve-elapsed env uart_rx_ready w = omega arith
serve-elapsed env (uart_read x0) w = omega arith
serve-elapsed env uart_tx_disable w = omega arith
serve-elapsed env (gpio_ready x0) w = omega arith
serve-elapsed env uart_ready w = omega arith
serve-elapsed env thread_start w = omega arith

ring-takes :
    (r : Ring) (n k : ℕ)
    → k ≤ length (Ring.get_claim r n).0
    → length (Ring.get_finish (Ring.get_claim r n).1 k).1.bytes + k ≤ length r.bytes
ring-takes r n k h =
    rw (le→leb k (r.taken + min shown (length rest)) (omega (arith, fits)))
      (dropped k r.bytes (omega (arith, fits, fewer r.taken r.bytes)))
  where
    shown : ℕ
    shown = min n (r.cap - (r.head + r.taken) % r.cap)

    rest : List ℕ
    rest = drop r.taken r.bytes

    fits : k ≤ min shown (length rest)
    fits = rw (sym (length-take shown rest)) h

pub bench-Laws :
    (env : Env)
    → ((n : ℕ) (cs : List Call) → env (timepoint_ms n) cs ≤ elapsed cs + n)
    → ((t : ℕ) (cs : List Call) → t ≤ elapsed cs → env (expired t) cs ≡ true)
    → Laws (serve env)
bench-Laws env deadline over = record {
  left = left;
  now = λ w. elapsed w.trace;
  calm = serve-left env;
  takes = λ n k w h. ring-takes w.request_ring n k h;
  goes_on = serve-elapsed env;
  sleeps = λ n w. omega arith;
  ends_at = λ n w. deadline n w.trace;
  expires = λ t w h. over t w.trace h;
}

pub bench_enough :
    (env : Env) (deadline : (n : ℕ) (cs : List Call) → env (timepoint_ms n) cs ≤ elapsed cs + n)
    (over : (t : ℕ) (cs : List Call) → t ≤ elapsed cs → env (expired t) cs ≡ true) (w : Bench)
    (n : ℕ)
    → length w.request_ring.bytes < n
    → (bench-Laws env deadline over).left w < n
unfolding bench-Laws
bench_enough env deadline over w n h = h
