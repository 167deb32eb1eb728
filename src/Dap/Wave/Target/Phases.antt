-- ===== src/Dap/Wave/Target/Phases.antt =====
-- The phases of a transfer over SWD.
use riceprobe.Base.{
  ℕ, zero, suc, ◌+◌, ◌*◌, ◌%◌, ◌/◌, ◌^◌, ◌≡◌, ◌∙◌, arith, Bool, true, false, [], ◌∷◌, ◌/=◌,
  if◌then◌else◌,
}
use riceprobe.Zephyr.{tms_swdio, input, output}
use riceprobe.Zephyr.Prog.{pure, gets, when, repeat, ◌>>=◌, ◌>>◌}
use riceprobe.Zephyr.Bench.{Env}
use riceprobe.Dap.{Driver, Action, set_pin, configure_pin}
use riceprobe.Dap.Swd.{read_cycle, write_cycle, swclk_cycle}
use riceprobe.Dap.Transfer.Port.{
  ack_ok, ack_error, is_read, swd_request, swd_read_word, swd_write_word, swd_data, swd_refused,
}
use riceprobe.Dap.Wave.Target.{
  Wires, driven, listening, Answers, bit_at, value_at, ones_at, Runs, Runs-bind, Runs-pure,
  Runs-gets, Runs-swclk, Runs-write, Runs-set, Runs-repeat, Runs-read, Runs-configure,
}
use riceprobe.Dap.Wave.Target.Reply.{next_power, horner, scaled}

module _ (env : Env) (levels : ℕ → ℕ) (target : Answers levels env) (d : Driver) where
  pub swdio_read :
      (n : ℕ) → Runs env read_cycle d (listening n) (bit_at levels n) (listening (suc n))
  swdio_read n = Runs-read env levels target d n

  read_word :
      (k i word parity n : ℕ)
      → (word' sum last : ℕ) × Runs env
          (swd_read_word k i word parity)
          d
          (listening n)
          (word', sum)
          (listening last)
        × (word' ≡ word + 2 ^ i * value_at levels n k)
        × (sum ≡ parity + ones_at levels n k)
        × (last ≡ k + n)
  unfolding swd_read_word value_at ones_at
  read_word zero i word parity n = (
    word,
    parity,
    n,
    Runs-pure (word, parity) (listening n),
    omega arith,
    omega arith,
    omega arith,
  )
  read_word (suc k) i word parity n =
      let b = bit_at levels n in
      let (word', sum, last, rest, value, ones, count) =
        read_word k (i + 1) (word + b * 2 ^ i) (parity + b) (suc n) in
      (
        word',
        sum,
        last,
        Runs-bind _ (swdio_read n) rest,
        value ∙ horner (2 ^ i) (2 ^ (i + 1)) b (value_at levels (suc n) k) word (next_power i),
        omega (arith, ones),
        omega (arith, count),
      )

  write_word :
      (k word parity n : ℕ)
      → (sum : ℕ) × Runs env (swd_write_word k word parity) d (driven n) sum (driven n)
  unfolding swd_write_word
  write_word zero word parity n = (parity, Runs-pure parity (driven n))
  write_word (suc k) word parity n =
      let (sum, rest) = write_word k (word / 2) ((parity + word) % 0x100000000) n in
      (sum, Runs-bind _ (Runs-write word n) rest)

  pub swclks : (k : ℕ) (s : Wires) → Runs env (repeat k swclk_cycle) d s tt s
  swclks k s = Runs-repeat k (Runs-swclk s)

  pub to_probe :
      (n : ℕ)
      → Runs env (configure_pin tms_swdio (input ∷ output ∷ [])) d (listening n) tt (driven n)
  to_probe n = Runs-configure env levels target d (input ∷ output ∷ []) (listening n)

  pub to_target :
      (n : ℕ) → Runs env (configure_pin tms_swdio (input ∷ [])) d (driven n) tt (listening n)
  to_target n = Runs-configure env levels target d (input ∷ []) (driven n)

  -- The end of the data phase: idle cycles, and the level that stays.
  idle_after :
      (a : ℕ × ℕ) (n : ℕ)
      → Runs env
          (do
            idle ← gets (λ d. d.transfer.idle_cycles)
            repeat idle (write_cycle 0)
            set_pin tms_swdio 1
            pure a)
          d
          (driven n)
          a
          (driven n)
  idle_after a n = Runs-bind _ (Runs-gets (λ d. d.transfer.idle_cycles) (driven n)) (
      Runs-bind _ (Runs-repeat d.transfer.idle_cycles (Runs-write 0 n))
        (Runs-bind _ (Runs-set 1 n) (Runs-pure a (driven n))))

  pub request_sent : (request n : ℕ) → Runs env (swd_request request) d (driven n) tt (driven n)
  unfolding swd_request
  request_sent request n = Runs-bind _ (Runs-write 1 n) (
      Runs-bind _ (Runs-write _ n) (
        Runs-bind _ (Runs-write _ n) (
          Runs-bind _ (Runs-write _ n) (
            Runs-bind _ (Runs-write _ n)
              (Runs-bind _ (Runs-write _ n) (Runs-bind _ (Runs-write 0 n) (Runs-write 1 n)))))))

  pub data_read :
      (request word m : ℕ)
      → is_read request ≡ true
      → (got sum last : ℕ) × Runs env
          (swd_data request word)
          d
          (listening m)
          (if sum % 2 /= bit_at levels last then ack_error else ack_ok, got)
          (driven (suc last))
        × (got ≡ value_at levels m 32)
        × (sum ≡ ones_at levels m 32)
        × (last ≡ 32 + m)
  unfolding swd_data
  data_read request word m reading =
      let (got, sum, last, runs, value, ones, count) = read_word 32 0 0 0 m in
      (
        got,
        sum,
        last,
        Runs-bind _ (Runs-gets (λ d. d.swd.turnaround_cycles) (listening m)) (
            rw reading (
              Runs-bind _
                (Runs-bind _ runs (
                  Runs-bind _ (swdio_read last) (
                    Runs-bind _ (swclks d.swd.turnaround_cycles (listening (suc last)))
                      (Runs-bind _ (to_probe (suc last)) (Runs-pure _ (driven (suc last)))))))
                (idle_after _ (suc last)))),
        value ∙ scaled (value_at levels m 32),
        omega (arith, ones),
        count,
      )

  pub data_written :
      (request word m : ℕ)
      → is_read request ≡ false
      → Runs env (swd_data request word) d (listening m) (ack_ok, word) (driven m)
  unfolding swd_data
  data_written request word m writing =
      let (sum, runs) = write_word 32 word 0 m in
      Runs-bind _ (Runs-gets (λ d. d.swd.turnaround_cycles) (listening m)) (
        rw writing (
          Runs-bind _
            (Runs-bind _ (swclks d.swd.turnaround_cycles (listening m)) (
              Runs-bind _ (to_probe m) (
                Runs-bind _ runs
                  (Runs-bind _ (Runs-write sum m) (Runs-pure (ack_ok, word) (driven m))))))
            (idle_after (ack_ok, word) m)))

  whether :
      (b : Bool) (m : Action (Unit {0})) (s : Wires)
      → Runs env m d s tt s
      → Runs env (when b m) d s tt s
  unfolding when
  whether true m s h = h
  whether false m s h = Runs-pure tt s

  pub refused : (request m : ℕ) → Runs env (swd_refused request) d (listening m) tt (driven m)
  unfolding swd_refused
  refused request m = Runs-bind _ (Runs-gets (λ d. d.swd.turnaround_cycles) (listening m)) (
      Runs-bind _ (Runs-gets (λ d. d.swd.data_phase) (listening m)) (
        Runs-bind _ (whether _ _ (listening m) (swclks 33 (listening m))) (
          Runs-bind _ (swclks d.swd.turnaround_cycles (listening m)) (
            Runs-bind _ (to_probe m) (
              Runs-bind _
                (whether _ _ (driven m) (Runs-bind _ (Runs-set 0 m) (swclks 33 (driven m))))
                (Runs-set 1 m))))))
