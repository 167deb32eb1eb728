-- ===== src/Dap/Tests/Target.antt =====
-- An SWD transfer against a target that answers a read.
use riceprobe.Base.{
  ℕ, zero, suc, ◌<◌, ◌*◌, ◌+◌, ◌≡◌, arith, refl, true, ◌||◌, ◌==◌, if◌then◌else◌, [],
}
use riceprobe.Base.Int.{pos}
use riceprobe.Zephyr.{gpio_get, tms_swdio}
use riceprobe.Zephyr.Prog.{run, ok}
use riceprobe.Zephyr.Bench.{Bench, Env, serve}
use riceprobe.Zephyr.Stage.{quiet_env, bench_of}
use riceprobe.Dap.Transfer.Port.{is_read, swd_transfer, port_transfer}
use riceprobe.Dap.Wave.Target.{wires, driven, Answers, value_at, ones_at}
use riceprobe.Dap.Wave.Target.Reply.{reply, reply_to}
use riceprobe.Dap.Wave.Target.Transfer.{swd_transfer-reply}
use riceprobe.Dap.Wave.Target.Retry.{Waits, port_transfer-reply}
use riceprobe.Dap.{Driver, port_swd}
use riceprobe.Dap.Tests.{capturing}

-- OK, the word 5, and the parity of its two ones.
abbrev levels : ℕ → ℕ
levels n = if n == 0 || (n == 3 || n == 5) then 1 else 0

abbrev answering : Env
answering (gpio_get tms_swdio) cs = pos (levels (wires cs).reads)
answering c cs = quiet_env c cs

abbrev answering-Answers : Answers levels answering
answering-Answers = record { level = λ cs. refl; accepts = λ fs cs. refl }

five : reply levels 0 true 0 ≡ record { ack = 1; word = 5; levels_used = 36 }
unfolding reply reply_to value_at ones_at
five = refl

swd_transfer-reply_example :
    let r = reply levels 0 (is_read 2) 0 in
    (w' : Bench) × (run (serve answering) (swd_transfer 2 0 capturing) (bench_of [])
      ≡ ((ok (r.ack, r.word), capturing), w'))
    × (wires w'.trace ≡ driven (r.levels_used + 0))
swd_transfer-reply_example =
    swd_transfer-reply answering levels answering-Answers capturing 2 0 0 (bench_of []) refl

-- Wait at the first attempt; then OK, the word 5 and its parity.
abbrev levels_once : ℕ → ℕ
levels_once n = if n == 1 || (n == 3 || (n == 6 || n == 8)) then 1 else 0

abbrev hesitant : Env
hesitant (gpio_get tms_swdio) cs = pos (levels_once (wires cs).reads)
hesitant c cs = quiet_env c cs

abbrev hesitant-Answers : Answers levels_once hesitant
hesitant-Answers = record { level = λ cs. refl; accepts = λ fs cs. refl }

abbrev patient : Driver
patient = record capturing {
  swj = record capturing.swj { port = port_swd };
  transfer = record capturing.transfer { wait_retries = 2 };
}

five_later : reply levels_once 3 true 0 ≡ record { ack = 1; word = 5; levels_used = 36 }
unfolding reply reply_to value_at ones_at
five_later = refl

asks_once : (i : ℕ) → i < 1 → value_at levels_once (0 + 3 * i) 3 ≡ 2
unfolding value_at
asks_once zero h = refl
asks_once (suc i) h = ground arith

then_ok : value_at levels_once 3 3 ≡ 1
unfolding value_at
then_ok = refl

Waits-once : Waits levels_once 0 1
Waits-once = (asks_once, rw then_ok (ground arith))

port_transfer-reply_example :
    let r = reply levels_once 3 (is_read 2) 0 in
    (w' : Bench) × (run (serve hesitant) (port_transfer 2 0 patient) (bench_of [])
      ≡ ((ok (r.ack, r.word), patient), w'))
    × (wires w'.trace ≡ driven (r.levels_used + 3))
port_transfer-reply_example =
    port_transfer-reply hesitant levels_once hesitant-Answers patient refl 2 0 0 1 (bench_of [])
      (omega arith) Waits-once refl
