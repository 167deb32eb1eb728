-- ===== src/Io/Finish/Wait.antt =====
-- The wait for a level of firmware/src/io/commands_gpio.c comes to an end.
use riceprobe.Base.{ℕ, zero, suc, ◌+◌, ◌/◌, ◌%◌, ◌≤◌, ◌<◌, ◌≡◌, arith, Bool, true, false, ◌==◌}
use native.Mathlib.Decide.{dec_lt}
use riceprobe.Base.Int.{ℤ, is_negative, to_u32}
use riceprobe.Base.Bits.{has_bit}
use riceprobe.Zephyr.{gpios, gpio_get, sleep_ms, timepoint_ms, expired}
use riceprobe.Zephyr.Prog.{Server, ask, pure, ◌>>=◌}
use riceprobe.Zephyr.Ends.{
  Laws, Ends, EndsAt, EndsAt-pure, Ends-if, EndsAt-ask, EndsAt-test, EndsAt-bind,
}
use riceprobe.Io.{Action, Driver}
use riceprobe.Io.Gpio.{wait_loop, after_wait, wait_input}
use riceprobe.Io.Finish.{finish_rules}

clash : (b : Bool) → b ≡ true → b ≡ false → ⊥
clash b is_true is_false = ground arith

module _ {W : Type 0} (server : Server W) (laws : Laws server) where
  -- A timepoint that has not expired is in the future.
  later : (end : ℕ) (w : W) → (server (expired end) w).0 ≡ false → laws.now w < end
  later end w h = elim (dec_lt (laws.now w) end) [
    | yes before ↦ before
    | no over ↦ absurd (clash _ (laws.expires end w (omega (arith, over))) h)
  ]

  -- The sleep and the look at the time, before what follows if the time is not over.
  sleep-ends :
      (rest : Action Bool) (end : ℕ) (d : Driver) (w : W)
      → ((w' : W) → laws.now w < laws.now w' → laws.now w + 1 < end → EndsAt server laws rest d w')
      → EndsAt server laws
          (ask (sleep_ms 1) >>= λ _.
            ask (expired end) >>= λ over. elim over [ true ↦ pure true | false ↦ rest ])
          d
          w
  sleep-ends rest end d w h = EndsAt-ask server laws (sleep_ms 1) _ d w tt (
      EndsAt-ask server laws (expired end) _ d slept tt (
        EndsAt-test server laws (server (expired end) slept).0 (pure true) rest d looked
          (λ over. EndsAt-pure server laws true d looked)
          (λ early.
            h looked (omega (arith, laws.sleeps 1 w, laws.goes_on (expired end) slept))
              (omega (arith, laws.sleeps 1 w, later end slept early)))))
    where
      slept : W
      slept = (server (sleep_ms 1) w).1

      looked : W
      looked = (server (expired end) slept).1

  round-ends :
      (fuel gpion wait_val end : ℕ) (d : Driver) (w : W)
      → ((w' : W)
          → laws.now w < laws.now w'
          → laws.now w + 1 < end
          → EndsAt server laws (wait_loop fuel gpion wait_val end) d w')
      → EndsAt server laws (wait_loop (suc fuel) gpion wait_val end) d w
  unfolding wait_loop
  round-ends fuel gpion wait_val end d w h =
      EndsAt-ask server laws (gpio_get (gpios gpion)) _ d w tt (
        EndsAt-test server laws (is_negative level) _ _ d seen
          (λ bad. EndsAt-pure server laws false d seen)
          (λ good.
            EndsAt-test server laws (to_u32 level == wait_val) _ _ d seen
              (λ match. EndsAt-pure server laws true d seen)
              (λ other.
                sleep-ends (wait_loop fuel gpion wait_val end) end d seen (λ w' passed early.
                  h w' (omega (arith, before, passed)) (omega (arith, before, early))))))
    where
      level : ℤ
      level = (server (gpio_get (gpios gpion)) w).0

      seen : W
      seen = (server (gpio_get (gpios gpion)) w).1

      before : laws.now w ≤ laws.now seen
      before = laws.goes_on (gpio_get (gpios gpion)) w

  -- With as many rounds behind the first as there are milliseconds left.
  wait_loop-ends :
      (fuel gpion wait_val end : ℕ) (d : Driver) (w : W)
      → end ≤ laws.now w + fuel
      → EndsAt server laws (wait_loop (suc fuel) gpion wait_val end) d w
  wait_loop-ends zero gpion wait_val end d w h =
      round-ends zero gpion wait_val end d w (λ w' passed early. absurd (omega (arith, h, early)))
  wait_loop-ends (suc fuel) gpion wait_val end d w h =
      round-ends (suc fuel) gpion wait_val end d w
        (λ w' passed early. wait_loop-ends fuel gpion wait_val end d w' (omega (arith, h, passed)))

  after_wait-Ends :
      (end : ℕ) (go : Action (Unit {0})) (seen : Bool)
      → Ends server laws go
      → Ends server laws (after_wait end go seen)
  unfolding after_wait
  after_wait-Ends end go true eg = search finish_rules
  after_wait-Ends end go false eg = search finish_rules

  waiting-Ends :
      (gpion val ms : ℕ) (go : Action (Unit {0}))
      → Ends server laws go
      → Ends server laws (
          ask (timepoint_ms ms) >>= λ end.
          wait_loop (suc ms) gpion val end >>= λ seen. after_wait end go seen)
  waiting-Ends gpion val ms go eg = record {
    at = λ d w. EndsAt-ask server laws (timepoint_ms ms) _ d w tt (
        EndsAt-bind server laws (wait_loop (suc ms) gpion val _) _ d _
          (wait_loop-ends ms gpion val _ d _
            (omega (arith, laws.ends_at ms w, laws.goes_on (timepoint_ms ms) w)))
          (λ seen same. (after_wait-Ends _ go seen eg).at _ _));
  }

  pub Ends-wait_input :
      (gpion cmd wait_state : ℕ) {go : Action (Unit {0})}
      → Ends server laws go
      → Ends server laws (wait_input gpion cmd wait_state go)
  unfolding wait_input
  Ends-wait_input gpion cmd wait_state {go} eg =
      Ends-if (has_bit cmd 4) (waiting-Ends gpion (wait_state % 2) (wait_state / 2) go eg) eg
