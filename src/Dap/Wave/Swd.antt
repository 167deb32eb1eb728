-- ===== src/Dap/Wave/Swd.antt =====
-- The SWD packets that firmware/src/dap/commands_transfer.c sends, as a target samples them.
use riceprobe.Base.{ℕ, zero, suc, ◌+◌, ◌/◌, ◌%◌, ◌≡◌, refl, ap, ◌∙◌, arith, List, [], ◌∷◌}
use riceprobe.Base.Bits.{bit, shr}
use riceprobe.Zephyr.{tck_swclk, tms_swdio, gpio_set, wait_nanos}
use riceprobe.Zephyr.Prog.{run, ok, pure, ◌>>=◌}
use riceprobe.Zephyr.Bench.{Bench, Env, serve}
use riceprobe.Zephyr.Run.{run-bind}
use riceprobe.Dap.{Driver, set_pin, delay}
use riceprobe.Dap.Swd.{write_cycle}
use riceprobe.Dap.Transfer.Port.{swd_request, swd_write_word}
use riceprobe.Dap.Wave.Tap.{pushed, bits_of}
use riceprobe.Dap.Wave.{swdio_samples}

-- A request of the debug port, from any state of the driver and the wires: a target that samples swdio
-- at the rising clock edges sees the start bit, APnDP, RnW, A2, A3, their even parity, the stop bit and
-- the park bit, in this order.
pub swd_request-waveform :
    (env : Env) (req : ℕ) (d : Driver) (w : Bench)
    → swdio_samples (run (serve env) (swd_request req d) w).1.trace
      ≡ 1
        ∷ 0
        ∷ (bit req 0 + bit req 1 + bit req 2 + bit req 3) % 2
        ∷ bit req 3
        ∷ bit req 2
        ∷ bit req 1
        ∷ bit req 0
        ∷ 1
        ∷ swdio_samples w.trace
unfolding swd_request write_cycle set_pin delay ◌>>=◌
swd_request-waveform env req d w =
    ap (λ p. 1 ∷ 0 ∷ p ∷ bit req 3 ∷ bit req 2 ∷ bit req 1 ∷ bit req 0 ∷ 1 ∷ swdio_samples w.trace)
      parity
  where
    parity :
        (shr req 0 + shr req 1 + shr req 2 + shr req 3) % 2
        ≡ (bit req 0 + bit req 1 + bit req 2 + bit req 3) % 2
    parity = omega arith

-- The sum of a list of bits.
abbrev pub total : List ℕ → ℕ
total [] = 0
total (x ∷ xs) = x + total xs

-- What the loop over the bits of a word leaves behind.
record Written (env : Env) (d : Driver) (w : Bench) (k word parity : ℕ) : Type 0 where
  pub sum : ℕ
  pub bench : Bench
  pub ends : run (serve env) (swd_write_word k word parity d) w ≡ ((ok sum, d), bench)
  pub samples : swdio_samples bench.trace ≡ pushed (bits_of k word) (swdio_samples w.trace)
  pub even : sum % 2 ≡ (parity + total (bits_of k word)) % 2

-- One bit of the word.
abbrev cycle_bench : Driver → ℕ → Bench → Bench
cycle_bench d x w = record w {
  trace =
      wait_nanos d.swj.delay_ns
      ∷ gpio_set tck_swclk 1
      ∷ wait_nanos d.swj.delay_ns
      ∷ gpio_set tck_swclk 0
      ∷ gpio_set tms_swdio (x % 2)
      ∷ w.trace;
}

write_cycle-run :
    (env : Env) (x : ℕ) (d : Driver) (w : Bench)
    → run (serve env) (write_cycle x d) w ≡ ((ok tt, d), cycle_bench d x w)
unfolding write_cycle set_pin delay ◌>>=◌
write_cycle-run env x d w = refl

write_word :
    (env : Env) (d : Driver) (w : Bench) (k word parity : ℕ) → Written env d w k word parity
unfolding swd_write_word
write_word env d w zero word parity = record {
  sum = parity;
  bench = w;
  ends = unfold pure in refl;
  samples = refl;
  even = omega arith;
}
write_word env d w (suc k) word parity =
    let rest =
      write_word env d (cycle_bench d word w) k (word / 2) ((parity + word) % 0x100000000) in
    record {
      sum = rest.sum;
      bench = rest.bench;
      ends =
          run-bind (serve env) (write_cycle word) _ d d w (cycle_bench d word w) tt
            (write_cycle-run env word d w)
          ∙ rest.ends;
      samples = rest.samples;
      even = rest.even ∙ carried;
    }
  where
    carried :
        ((parity + word) % 0x100000000 + total (bits_of k (word / 2))) % 2
        ≡ (parity + (word % 2 + total (bits_of k (word / 2)))) % 2
    carried = omega arith

plus_none : (t : ℕ) → (0 + t) % 2 ≡ t % 2
plus_none t = omega arith

-- The data phase of an SWD write, from any state of the driver and the wires: the loop ends normally
-- with the driver unchanged, a target samples the 32 bits of the word, the lowest first, and the last
-- bit of the sum that the loop returns is their even parity.
pub swd_write_word-waveform :
    (env : Env) (word : ℕ) (d : Driver) (w : Bench)
    → (sum : ℕ) × ((sum % 2 ≡ total (bits_of 32 word) % 2)
        × (((run (serve env) (swd_write_word 32 word 0 d) w).0 ≡ (ok sum, d))
            × (swdio_samples (run (serve env) (swd_write_word 32 word 0 d) w).1.trace
                ≡ pushed (bits_of 32 word) (swdio_samples w.trace))))
swd_write_word-waveform env word d w =
    let r = write_word env d w 32 word 0 in
    (r.sum, (r.even ∙ plus_none (total (bits_of 32 word)), rw r.ends (refl, r.samples)))
