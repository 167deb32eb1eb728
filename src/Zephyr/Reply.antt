-- ===== src/Zephyr/Reply.antt =====
-- What a reply needs of the response buffer: the documented laws of the ring buffer, and that the one of
-- Zephyr.Ring keeps them.
use riceprobe.Base.{
  ℕ, zero, suc, ◌-◌, ◌%◌, min, take, ◌≤◌, ◌<◌, ◌≡◌, refl, arith, List, [], ◌∷◌, leb, ltb, length,
  Bool, true, false, ◌==◌, Bool-cases, inl, inr,
}
use native.Mathlib.Nat.{mod-lt}
use riceprobe.Zephyr.{
  Call, request, response, swo, buf_get, buf_put, buf_get_claim, buf_get_finish, buf_put_claim,
  buf_put_finish, buf_store, buf_reset, buf_size, buf_space, gpio_set, gpio_get, gpio_configure,
  pin_configure, timer_start, timer_stop, uart_rx_enable, uart_rx_disable, uart_err_enable,
  uart_err_disable, uart_configure, wait_nanos, wait_us, sleep_us, timepoint, expired, buf_peek,
  buf_load, buf_init, gpio_toggle, pin_write, sleep_ms, timepoint_ms, transport_init,
  transport_configure, transport_recv, transport_send, uart_err_check, uart_update, uart_rx_ready,
  uart_read, uart_tx_disable, gpio_ready, uart_ready, thread_start,
}
use riceprobe.Zephyr.Ring
use riceprobe.Zephyr.Ring.{Ring}
use riceprobe.Zephyr.Prog.{Server, run, ok, ask, fatal_check, ◌>>=◌, ◌>>◌}
use riceprobe.Zephyr.Bench.{Bench, Env, serve}

-- What the documents of `ring_buf_*` promise of a buffer that has just been reset: a byte fits, and a
-- claim then shows it. The server's state is ready if the buffer is of size 1 at least, which no call
-- changes; it is fresh if the response buffer holds just these bytes and nothing is claimed.
pub record ReplyBuffer {W : Type 0} (server : Server W) : Type 1 where
  pub IsReady : W → Type 0
  pub IsFresh : List ℕ → W → Type 0
  pub stays_ready : (c : Call) (w : W) → IsReady w → IsReady (server c w).1
  pub resets : (w : W) → IsReady w → IsFresh [] (server (buf_reset response) w).1
  pub puts :
      (x : ℕ) (w : W)
      → IsFresh [] w
      → ((server (buf_put response (x ∷ [])) w).0 ≡ 1)
        × IsFresh (x ∷ []) (server (buf_put response (x ∷ [])) w).1
  pub shows :
      (n x : ℕ) (w : W)
      → 0 < n
      → IsFresh (x ∷ []) w
      → (server (buf_get_claim response n) w).0 ≡ x ∷ []

-- A byte that replaces what was written so far: the server once it is in the buffer.
abbrev pub replied : {W : Type 0} → Server W → ℕ → W → W
replied server x w = (server (buf_put response (x ∷ [])) (server (buf_reset response) w).1).1

is_one : {n : ℕ} → n ≡ 1 → (n == 1) ≡ true
is_one h = ground arith

module _ {W S : Type 0} (server : Server W) where
  check_passes :
      (b : Bool) (d : S) (w : W) → b ≡ true → run server (fatal_check b d) w ≡ ((ok tt, d), w)
  unfolding fatal_check ◌>>=◌
  check_passes true d w h = refl
  check_passes false d w h = ground arith

  pub run-reply :
      (laws : ReplyBuffer server) (x : ℕ) (d : S) (w : W)
      → laws.IsReady w
      → run server
          ((do ask (buf_reset response); n ← ask (buf_put response (x ∷ [])); fatal_check (n == 1))
            d)
          w
        ≡ ((ok tt, d), replied server x w)
  unfolding ◌>>=◌
  run-reply laws x d w h =
      check_passes _ d (replied server x w) (is_one (laws.puts x _ (laws.resets w h)).0)

get_finish-cap : (r : Ring) (k n : ℕ) → r.cap ≡ n → (Ring.get_finish r k).1.cap ≡ n
get_finish-cap r k n h = elim (Bool-cases (leb k r.taken)) [ inl e ↦ rw e h | inr e ↦ rw e h ]

put_finish-cap : (r : Ring) (k n : ℕ) → r.cap ≡ n → (Ring.put_finish r k).1.cap ≡ n
put_finish-cap r k n h = elim (Bool-cases (leb k (length r.claimed))) [
  | inl e ↦ rw e h
  | inr e ↦ rw e h
]

store-cap : (r : Ring) (k n : ℕ) (xs : List ℕ) → r.cap ≡ n → (Ring.store r k xs).cap ≡ n
store-cap r k n xs h = elim (Bool-cases (ltb k (length r.bytes))) [
  | inl e ↦ rw e h
  | inr e ↦ rw e h
]

-- No call changes the size of the response buffer.
serve-cap :
    (env : Env) (n : ℕ) (c : Call) (w : Bench)
    → w.response_ring.cap ≡ n
    → (serve env c w).1.response_ring.cap ≡ n
serve-cap env n (buf_get request k) w h = h
serve-cap env n (buf_get swo k) w h = h
serve-cap env n (buf_get response k) w h = h
serve-cap env n (buf_put request k) w h = h
serve-cap env n (buf_put swo k) w h = h
serve-cap env n (buf_put response k) w h = h
serve-cap env n (buf_get_claim request k) w h = h
serve-cap env n (buf_get_claim swo k) w h = h
serve-cap env n (buf_get_claim response k) w h = h
serve-cap env n (buf_get_finish request k) w h = h
serve-cap env n (buf_get_finish swo k) w h = h
serve-cap env n (buf_get_finish response k) w h = get_finish-cap w.response_ring k n h
serve-cap env n (buf_put_claim request k) w h = h
serve-cap env n (buf_put_claim swo k) w h = h
serve-cap env n (buf_put_claim response k) w h = h
serve-cap env n (buf_put_finish request k) w h = h
serve-cap env n (buf_put_finish swo k) w h = h
serve-cap env n (buf_put_finish response k) w h = put_finish-cap w.response_ring k n h
serve-cap env n (buf_store request k xs) w h = h
serve-cap env n (buf_store swo k xs) w h = h
serve-cap env n (buf_store response k xs) w h = store-cap w.response_ring k n xs h
serve-cap env n (buf_reset request) w h = h
serve-cap env n (buf_reset swo) w h = h
serve-cap env n (buf_reset response) w h = h
serve-cap env n (buf_size b) w h = h
serve-cap env n (buf_space b) w h = h
serve-cap env n (gpio_set p v) w h = h
serve-cap env n (gpio_get p) w h = h
serve-cap env n (gpio_configure p fs) w h = h
serve-cap env n (pin_configure p) w h = h
serve-cap env n timer_start w h = h
serve-cap env n timer_stop w h = h
serve-cap env n uart_rx_enable w h = h
serve-cap env n uart_rx_disable w h = h
serve-cap env n uart_err_enable w h = h
serve-cap env n uart_err_disable w h = h
serve-cap env n (uart_configure k) w h = h
serve-cap env n (wait_nanos k) w h = h
serve-cap env n (wait_us k) w h = h
serve-cap env n (sleep_us k) w h = h
serve-cap env n (timepoint k) w h = h
serve-cap env n (expired k) w h = h
serve-cap env n (buf_peek b k) w h = h
serve-cap env n (buf_load b k l) w h = h
serve-cap env n (buf_init request) w h = h
serve-cap env n (buf_init swo) w h = h
serve-cap env n (buf_init response) w h = h
serve-cap env n (gpio_toggle p) w h = h
serve-cap env n (pin_write k) w h = h
serve-cap env n (sleep_ms k) w h = h
serve-cap env n (timepoint_ms k) w h = h
serve-cap env n (transport_init i) w h = h
serve-cap env n (transport_configure i) w h = h
serve-cap env n (transport_recv i k l) w h = h
serve-cap env n (transport_send i xs) w h = h
serve-cap env n uart_err_check w h = h
serve-cap env n uart_update w h = h
serve-cap env n uart_rx_ready w h = h
serve-cap env n (uart_read k) w h = h
serve-cap env n uart_tx_disable w h = h
serve-cap env n (gpio_ready p) w h = h
serve-cap env n uart_ready w h = h
serve-cap env n thread_start w h = h

-- One byte fits into an emptied buffer, and a claim then shows it.
one_fits : (r : Ring) → 0 < r.cap → r.bytes ≡ [] → r.claimed ≡ [] → min 1 (Ring.free r) ≡ 1
one_fits r h none unclaimed = rw (none, unclaimed) (omega arith)

take_one : (k x : ℕ) → 1 ≤ k → take {A = ℕ} k (x ∷ []) ≡ x ∷ []
take_one zero x h = ground arith
take_one (suc zero) x h = refl
take_one (suc (suc k)) x h = refl

one_shown : (n size : ℕ) → 0 < n → 0 < size → 1 ≤ min n (size - 0 % size)
one_shown n size room h = omega (arith, mod-lt 0 h)

-- The response ring holds these bytes from its first cell on, and nothing is claimed.
record Holds (xs : List ℕ) (w : Bench) : Type 0 where
  pub size : 0 < w.response_ring.cap
  pub head : w.response_ring.head ≡ 0
  pub bytes : w.response_ring.bytes ≡ xs
  pub taken : w.response_ring.taken ≡ 0
  pub claimed : w.response_ring.claimed ≡ []

put_fresh :
    (x : ℕ) (w : Bench)
    → Holds [] w
    → ((Ring.put w.response_ring (x ∷ [])).0 ≡ 1)
      × Holds (x ∷ []) (record w { response_ring = (Ring.put w.response_ring (x ∷ [])).1 })
put_fresh x w h = (
  fits,
  record {
    size = h.size;
    head = h.head;
    bytes = rw (fits, h.bytes) refl;
    taken = h.taken;
    claimed = refl;
  },
)
  where
    fits : min 1 (Ring.free w.response_ring) ≡ 1
    fits = one_fits w.response_ring h.size h.bytes h.claimed

-- The bench keeps the laws, with every environment.
pub bench-ReplyBuffer : (env : Env) → ReplyBuffer (serve env)
bench-ReplyBuffer env = record {
  IsReady = λ w. 0 < w.response_ring.cap;
  IsFresh = Holds;
  stays_ready = λ c w h. rw (serve-cap env w.response_ring.cap c w refl) h;
  resets = λ w h. record { size = h; head = refl; bytes = refl; taken = refl; claimed = refl };
  puts = λ x w h. put_fresh x w h;
  shows = λ n x w room h.
      rw (h.taken, h.head, h.bytes) (take_one _ x (one_shown n w.response_ring.cap room h.size));
}

pub bench_ready :
    (env : Env) (w : Bench) → 0 < w.response_ring.cap → (bench-ReplyBuffer env).IsReady w
unfolding bench-ReplyBuffer
bench_ready env w h = h
