-- ===== src/Dap/Wave/Target/Transfer.antt =====
-- What a whole transfer over SWD returns, and that it leaves the wire to the target where the target answers.
use riceprobe.Base.{
  ℕ, suc, ◌+◌, ◌*◌, ◌≡◌, sym, arith, false, ◌||◌, [], ◌∷◌, ◌==◌, if◌then◌else◌, inl, inr,
  Bool-cases,
}
use riceprobe.Zephyr.{tms_swdio, input, output}
use riceprobe.Zephyr.Prog.{run, ok, pure, repeat, ◌>>◌}
use riceprobe.Zephyr.Bench.{Bench, Env, serve}
use riceprobe.Dap.{Driver, Action, set_pin, configure_pin}
use riceprobe.Dap.Swd.{swclk_cycle}
use riceprobe.Dap.Transfer.Port.{
  ack_ok, ack_wait, ack_fault, is_read, swd_data, swd_refused, swd_transfer,
}
use riceprobe.Dap.Wave.Target.{
  driven, listening, wires, Answers, bit_at, value_at, Runs, Runs-bind, Runs-pure, Runs-gets,
  Runs-set,
}
use riceprobe.Dap.Wave.Target.Reply.{
  reply, reply_to, reply_to-other, reply_to-writing, reply_to-reading, used, three, read_ack,
}
use riceprobe.Dap.Wave.Target.Phases.{
  swdio_read, swclks, to_probe, to_target, request_sent, data_read, data_written, refused,
}

module _ (env : Env) (levels : ℕ → ℕ) (target : Answers levels env) (d : Driver) where
  -- What `swd_transfer` does once it has the ack.
  abbrev settle : ℕ → ℕ → ℕ → Action (ℕ × ℕ)
  settle request word ack =
      if ack == ack_ok
      then swd_data request word
      else if ack == ack_wait || ack == ack_fault
      then (do swd_refused request; pure (ack, word))
      else (do
        repeat (d.swd.turnaround_cycles + 33) swclk_cycle
        configure_pin tms_swdio (input ∷ output ∷ [])
        set_pin tms_swdio 1
        pure (ack, word))

  not_ok :
      (request word ack m : ℕ)
      → (ack == ack_ok) ≡ false
      → Runs env (settle request word ack) d (listening m) (ack, word) (driven m)
  not_ok request word ack m other = elim (Bool-cases (ack == ack_wait || ack == ack_fault)) [
    | inl known ↦
        rw (other, known)
          (Runs-bind _ (refused env levels target d request m) (Runs-pure (ack, word) (driven m)))
    | inr unknown ↦
        rw (other, unknown)
          (Runs-bind _ (swclks env levels target d (d.swd.turnaround_cycles + 33) (listening m)) (
            Runs-bind _ (to_probe env levels target d m)
              (Runs-bind _ (Runs-set 1 m) (Runs-pure (ack, word) (driven m)))))
  ]

  abbrev Settles : ℕ → ℕ → ℕ → ℕ → Type 0
  Settles request word n ack =
      let r = reply_to levels n (is_read request) word ack in
      Runs env (settle request word ack) d (listening (3 + n)) (r.ack, r.word)
        (driven (r.levels_used + n))

  settled : (request word n ack : ℕ) → Settles request word n ack
  settled request word n ack = elim (Bool-cases (ack == 1)) [
    | inr other ↦
        rw (reply_to-other levels n (is_read request) word ack other)
          (not_ok request word ack (3 + n) other)
    | inl one ↦ (elim (Bool-cases (is_read request)) [
      | inl reading ↦
          rw (reading, reply_to-reading levels n word ack one)
            (rw one (
              let (got, sum, last, runs, value, ones, count) =
                data_read env levels target d request word (3 + n) reading in
              rw (sym (read_ack levels n sum last ones count), sym value, used n last count) runs))
      | inr writing ↦
          rw (writing, reply_to-writing levels n word ack one)
            (rw one (data_written env levels target d request word (3 + n) writing))
    ])
  ]

  ack_value :
      (n : ℕ)
      → bit_at levels n + bit_at levels (suc n) * 2 + bit_at levels (suc (suc n)) * 4
        ≡ value_at levels n 3
  unfolding value_at
  ack_value n = omega arith

  pub swd_transfer-Runs :
      (request word n : ℕ)
      → let r = reply levels n (is_read request) word in
        Runs env
          (swd_transfer request word)
          d
          (driven n)
          (r.ack, r.word)
          (driven (r.levels_used + n))
  unfolding swd_transfer reply
  swd_transfer-Runs request word n = Runs-bind _ (request_sent env levels target d request n) (
      Runs-bind _ (to_target env levels target d n) (
        Runs-bind _ (Runs-gets (λ d. d.swd.turnaround_cycles) (listening n)) (
          Runs-bind _ (swclks env levels target d d.swd.turnaround_cycles (listening n)) (
            Runs-bind _ (swdio_read env levels target d n) (
              Runs-bind _ (swdio_read env levels target d (suc n)) (
                Runs-bind _ (swdio_read env levels target d (suc (suc n)))
                  (rw (ack_value n, three n) (settled request word n (value_at levels n 3)))))))))

  -- A whole SWD transfer, against a target that puts any levels on swdio, one at each read: from wires that the
  -- probe drives, the code ends normally with the driver unchanged and returns what the protocol says of these
  -- levels: the first three are the ack; where this is OK, a read returns the value of the next 32 levels, the
  -- lowest bit first, with the ack replaced by an error where their parity differs from the level behind them,
  -- and a write returns OK; any other ack is returned with the word as it was. And the wire is never driven by
  -- both: the code reads it only while the probe does not drive it, sets it only while it does, and the probe
  -- drives it again at the end.
  pub swd_transfer-reply :
      (request word n : ℕ) (w : Bench)
      → wires w.trace ≡ driven n
      → let r = reply levels n (is_read request) word in
        (w' : Bench) × (run (serve env) (swd_transfer request word d) w
          ≡ ((ok (r.ack, r.word), d), w'))
        × (wires w'.trace ≡ driven (r.levels_used + n))
  swd_transfer-reply request word n w h = (swd_transfer-Runs request word n).from w h
