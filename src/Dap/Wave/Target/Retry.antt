-- ===== src/Dap/Wave/Target/Retry.antt =====
-- A transfer over SWD that the target asks to repeat.
use riceprobe.Base.{
  ℕ, zero, suc, ◌+◌, ◌*◌, ◌≤◌, ◌<◌, ◌≡◌, ◌≢◌, refl, sym, ap, ◌∙◌, arith, Bool, false, ◌==◌,
  if◌then◌else◌,
}
use riceprobe.Zephyr.Prog.{run, ok, pure}
use riceprobe.Zephyr.Bench.{Bench, Env, serve}
use riceprobe.Dap.{Driver, port_jtag, port_swd}
use riceprobe.Dap.Transfer.Port.{
  ack_fault, is_read, jtag_transfer, swd_transfer, transfer_once, transfer_retry, port_transfer,
}
use riceprobe.Dap.Wave.Target.{
  Wires, driven, wires, Answers, value_at, Runs, Runs-bind, Runs-pure, Runs-gets,
}
use riceprobe.Dap.Wave.Target.Reply.{reply, reply_to}
use riceprobe.Dap.Wave.Target.Transfer.{swd_transfer-Runs}

not_wait :
    (levels : ℕ → ℕ) (n : ℕ) (reading : Bool) (word ack : ℕ)
    → ack ≢ 2
    → ((reply_to levels n reading word ack).ack == 2) ≡ false
unfolding reply_to
not_wait levels n reading word ack h = ground arith

wait_reply :
    (levels : ℕ → ℕ) (n : ℕ) (reading : Bool) (word ack : ℕ)
    → ack ≡ 2
    → reply_to levels n reading word ack ≡ record { ack = 2; word = word; levels_used = 3 }
unfolding reply_to
wait_reply levels n reading word ack h = rw h refl

reply-not_wait :
    (levels : ℕ → ℕ) (n : ℕ) (reading : Bool) (word : ℕ)
    → value_at levels n 3 ≢ 2
    → ((reply levels n reading word).ack == 2) ≡ false
unfolding reply
reply-not_wait levels n reading word = not_wait levels n reading word (value_at levels n 3)

reply-wait :
    (levels : ℕ → ℕ) (n : ℕ) (reading : Bool) (word : ℕ)
    → value_at levels n 3 ≡ 2
    → reply levels n reading word ≡ record { ack = 2; word = word; levels_used = 3 }
unfolding reply
reply-wait levels n reading word = wait_reply levels n reading word (value_at levels n 3)

none_more : (n : ℕ) → n + 0 ≡ n
none_more n = omega arith

one_more : (n : ℕ) → n + 1 ≡ suc n
one_more n = omega arith

three_on : (n i : ℕ) → (3 + n) + 3 * i ≡ n + 3 * suc i
three_on n i = omega arith

-- The target asks to wait so many times from a level on, and then it does not.
abbrev pub Waits : (ℕ → ℕ) → ℕ → ℕ → Type 0
Waits levels n j =
    ((i : ℕ) → i < j → value_at levels (n + 3 * i) 3 ≡ 2) × (value_at levels (n + 3 * j) 3 ≢ 2)

module _ (env : Env) (levels : ℕ → ℕ) (target : Answers levels env) (d : Driver)
    (swd : d.swj.port ≡ port_swd) where
  on_swd :
      {a : ℕ × ℕ} {s t : Wires} (p request word ack : ℕ)
      → p ≡ port_swd
      → Runs env (swd_transfer request word) d s a t
      → Runs env
          (if p == port_jtag
            then jtag_transfer request word
            else if p == port_swd
            then swd_transfer request word
            else pure (ack, word))
          d
          s
          a
          t
  on_swd p request word ack h runs = rw h runs

  once :
      (request word ack n : ℕ)
      → let r = reply levels n (is_read request) word in
        Runs env
          (transfer_once request ack word)
          d
          (driven n)
          (r.ack, r.word)
          (driven (r.levels_used + n))
  unfolding transfer_once
  once request word ack n = Runs-bind _ (Runs-gets (λ d. d.swj.port) (driven n)) (
      on_swd d.swj.port request word ack swd (swd_transfer-Runs env levels target d request word n))

  later : (n j : ℕ) → Waits levels n (suc j) → Waits levels (3 + n) j
  later n j (waits, ends) = (
    λ i h. ap (λ k. value_at levels k 3) (three_on n i) ∙ waits (suc i) (omega (arith, h)),
    rw (three_on n j) ends,
  )

  answered :
      (left request word ack n : ℕ)
      → value_at levels n 3 ≢ 2
      → let r = reply levels n (is_read request) word in
        Runs env
          (transfer_retry (suc left) request ack word)
          d
          (driven n)
          (r.ack, r.word)
          (driven (r.levels_used + n))
  unfolding transfer_retry
  answered left request word ack n ends =
      Runs-bind _ (once request word ack n)
        (rw (reply-not_wait levels n (is_read request) word ends) (Runs-pure _ _))

  once_waiting :
      (request word ack n : ℕ)
      → value_at levels n 3 ≡ 2
      → Runs env (transfer_once request ack word) d (driven n) (2, word) (driven (3 + n))
  once_waiting request word ack n waits =
      rw (reply-wait levels n (is_read request) word waits) at (once request word ack n)

  again :
      (left request word ack n : ℕ) {a : ℕ × ℕ} {t : Wires}
      → value_at levels n 3 ≡ 2
      → Runs env (transfer_retry left request 2 word) d (driven (3 + n)) a t
      → Runs env (transfer_retry (suc left) request ack word) d (driven n) a t
  unfolding transfer_retry
  again left request word ack n waits rest =
      Runs-bind _ (once_waiting request word ack n waits) rest

  retry :
      (j left request word ack n : ℕ)
      → j ≤ left
      → Waits levels n j
      → let r = reply levels (n + 3 * j) (is_read request) word in
        Runs env
          (transfer_retry (suc left) request ack word)
          d
          (driven n)
          (r.ack, r.word)
          (driven (r.levels_used + (n + 3 * j)))
  retry zero left request word ack n few (waits, ends) =
      rw (none_more n) (answered left request word ack n (rw (none_more n) at ends))
  retry (suc j) zero request word ack n few waits = ground arith
  retry (suc j) (suc left) request word ack n few waits =
      again (suc left) request word ack n (rw (none_more n) at (waits.0 0 (omega arith))) (
        rw (sym (three_on n j))
          (retry j left request word 2 (3 + n) (omega (arith, few)) (later n j waits)))

  retried :
      (request word n j : ℕ)
      → j ≤ d.transfer.wait_retries
      → Waits levels n j
      → let r = reply levels (n + 3 * j) (is_read request) word in
        Runs env
          (port_transfer request word)
          d
          (driven n)
          (r.ack, r.word)
          (driven (r.levels_used + (n + 3 * j)))
  unfolding port_transfer
  retried request word n j few waits =
      Runs-bind _ (Runs-gets (λ d. d.transfer.wait_retries) (driven n)) (
        rw (one_more d.transfer.wait_retries)
          (retry j d.transfer.wait_retries request word ack_fault n few waits))

  -- A transfer over SWD that the target asks to repeat: where the port is SWD and the target answers wait to the
  -- first `j` attempts, no more than the retries that the host configured, and something else to the one after
  -- them, the code repeats the whole transfer so many times and returns what the protocol says of the last attempt,
  -- with the driver unchanged. It reads swdio only while the probe does not drive it, sets it only while it does,
  -- and drives it again at the end. How many clocks lie between is not part of it.
  pub port_transfer-reply :
      (request word n j : ℕ) (w : Bench)
      → j ≤ d.transfer.wait_retries
      → Waits levels n j
      → wires w.trace ≡ driven n
      → let r = reply levels (n + 3 * j) (is_read request) word in
        (w' : Bench) × (run (serve env) (port_transfer request word d) w
          ≡ ((ok (r.ack, r.word), d), w'))
        × (wires w'.trace ≡ driven (r.levels_used + (n + 3 * j)))
  port_transfer-reply request word n j w few waits h = (retried request word n j few waits).from w h
