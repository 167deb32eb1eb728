-- ===== src/Dap/Tests.antt =====
-- The driver on a concrete bench.
mod Reset
mod Target
mod Trace
use riceprobe.Base.{some, ℕ, ◌+◌, ◌%◌, ◌≡◌, refl, inr, arith, false, true, List, [], ◌∷◌, replicate}
use riceprobe.Base.Int.{pos}
use riceprobe.Base.Bits.{bit}
use riceprobe.Errno.{enotsup}
use riceprobe.Nvs.{Nvs}
use riceprobe.Zephyr.Prog.{run, ok, err, ◌>>=◌}
use riceprobe.Zephyr.Bench.{serve}
use riceprobe.Zephyr.Stage.{quiet_env, bench_of}
use riceprobe.Dap.{Driver, get_u8, respond}
use riceprobe.Dap.General.{Config, handle_disconnect, handle_reset_target}
use riceprobe.Dap.Jtag.{set_ir}
use riceprobe.Dap.Transfer.Port.{jtag_transfer, swd_request, swd_write_word}
use riceprobe.Dap.Request.{answer_request, handle_request, reset_state}
use riceprobe.Dap.Invariant.{IsValid}
use riceprobe.Dap.Invariant.Swo.{IsQuiet}
use riceprobe.Dap.Invariant.General.{handle_disconnect-IsQuiet}
use riceprobe.Dap.Invariant.Request.{answer_request-IsValid}
use riceprobe.Dap.Reply.{answer_request-error}
use riceprobe.Zephyr.Reply.{bench-ReplyBuffer, bench_ready}
use riceprobe.Dap.Wave.{swdio_samples}
use riceprobe.Dap.Wave.Swd.{swd_request-waveform, swd_write_word-waveform, total}
use riceprobe.Dap.Wave.Tap.{idle, Tap, replay, pushed, bits_of}
use riceprobe.Dap.Wave.Tap.Walks.{At}
use riceprobe.Dap.Wave.Tap.Transfer.{jtag_transfer-At}
use riceprobe.Dap.Wave.Tap.SetIr.{set_ir-scans, scan_bits, resting}

abbrev pub config : Config
config = record {
  manufacturer = 82 ∷ 80 ∷ 0 ∷ [];
  descriptor = 80 ∷ 0 ∷ [];
  serial_format = replicate 14 0;
  version = 49 ∷ 0 ∷ [];
}

abbrev pub nvs : Nvs
nvs = record { serial_number = 82 ∷ 0 ∷ []; uuid = replicate 16 0; dns_txt_record = [] }

-- A capture is running on an SWD port, with two devices in the chain of an earlier JTAG port.
abbrev pub capturing : Driver
capturing = record {
  swj = record { port = 2; clock = 1000000; delay_ns = 500 };
  jtag = record {
    count = 2;
    index = 1;
    ir_length = 4 ∷ 5 ∷ 0 ∷ 0 ∷ [];
    ir_before = 0 ∷ 4 ∷ 0 ∷ 0 ∷ [];
    ir_after = 5 ∷ 0 ∷ 0 ∷ 0 ∷ [];
  };
  swd = record { turnaround_cycles = 1; data_phase = false };
  swo = record {
    transport = 1;
    mode = 1;
    baudrate = 115200;
    capture = true;
    error = false;
    overrun = false;
  };
  transfer = record { idle_cycles = 2; wait_retries = 100; match_retries = 0; match_mask = 0 };
  led = record { combined = false; connected = true; running = true };
  transport_used = some 0;
}

capturing-IsValid : IsValid capturing
capturing-IsValid = record {
  port = omega arith;
  clock = omega arith;
  delay = refl;
  count = omega arith;
  index = omega arith;
  ir_length = refl;
  ir_before = refl;
  ir_after = refl;
  turnaround = (omega arith, omega arith);
  transport = omega arith;
  mode = omega arith;
  captured = inr (refl, refl);
}

-- Three commands in one request: SWO mode, SWO status and a queue end.
answer_request-IsValid_example :
    IsValid
      (run
        (serve quiet_env)
        (answer_request config nvs 3 capturing)
        (bench_of (0x7f ∷ 2 ∷ 0x18 ∷ 0 ∷ 0x1b ∷ []))).0.1
answer_request-IsValid_example =
    answer_request-IsValid (serve quiet_env) config nvs 3 capturing
      (bench_of (0x7f ∷ 2 ∷ 0x18 ∷ 0 ∷ 0x1b ∷ [])) capturing-IsValid

handle_disconnect-IsQuiet_example :
    IsQuiet (run (serve quiet_env) (handle_disconnect capturing) (bench_of [])).0.1
handle_disconnect-IsQuiet_example =
    handle_disconnect-IsQuiet (serve quiet_env) capturing (bench_of []) capturing-IsValid

-- A reset of the target, and then a command that does not exist.
unknown_fails :
    (run
      (serve quiet_env)
      (handle_request config nvs 3 capturing)
      (bench_of (0x7f ∷ 2 ∷ 0x0a ∷ 0x55 ∷ []))).0
    ≡ (err enotsup, capturing)
unfolding handle_request handle_reset_target get_u8 respond ◌>>=◌
unknown_fails = refl

answer_request-error_example :
    (run
      (serve quiet_env)
      (answer_request config nvs 3 capturing)
      (bench_of (0x7f ∷ 2 ∷ 0x0a ∷ 0x55 ∷ []))).0
    ≡ (ok (0xff ∷ []), capturing)
answer_request-error_example =
    answer_request-error (serve quiet_env) (bench-ReplyBuffer quiet_env) config nvs 3 capturing
      capturing (bench_of (0x7f ∷ 2 ∷ 0x0a ∷ 0x55 ∷ [])) enotsup
      (bench_ready quiet_env _ (omega arith)) unknown_fails

abbrev at_rest : Tap
at_rest = resting 1 0 []

set_ir-scans_example :
    ((run (serve quiet_env) (set_ir 0x0a capturing) (bench_of [])).0 ≡ (ok tt, capturing))
    × (replay at_rest (run (serve quiet_env) (set_ir 0x0a capturing) (bench_of [])).1.trace
        ≡ resting 0 1 (pushed (scan_bits capturing 0x0a) []))
set_ir-scans_example =
    set_ir-scans quiet_env at_rest 0x0a capturing 1 0 [] (bench_of []) (omega arith) refl

swd_request-waveform_example :
    swdio_samples (run (serve quiet_env) (swd_request 0x0e capturing) (bench_of [])).1.trace
    ≡ 1
      ∷ 0
      ∷ (bit 0x0e 0 + bit 0x0e 1 + bit 0x0e 2 + bit 0x0e 3) % 2
      ∷ bit 0x0e 3
      ∷ bit 0x0e 2
      ∷ bit 0x0e 1
      ∷ bit 0x0e 0
      ∷ 1
      ∷ []
swd_request-waveform_example = swd_request-waveform quiet_env 0x0e capturing (bench_of [])

swd_write_word-waveform_example :
    (sum : ℕ) × ((sum % 2 ≡ total (bits_of 32 0xdeadbeef) % 2)
      × (((run (serve quiet_env) (swd_write_word 32 0xdeadbeef 0 capturing) (bench_of [])).0
            ≡ (ok sum, capturing))
          × (swdio_samples
                (run
                  (serve quiet_env)
                  (swd_write_word 32 0xdeadbeef 0 capturing)
                  (bench_of [])).1.trace
              ≡ pushed (bits_of 32 0xdeadbeef) [])))
swd_write_word-waveform_example =
    swd_write_word-waveform quiet_env 0xdeadbeef capturing (bench_of [])

jtag_transfer-At_example :
    (result : ℕ × ℕ) × (((run (serve quiet_env) (jtag_transfer 0x02 7 capturing) (bench_of [])).0
        ≡ (ok result, capturing))
      × At 0 idle [] (
          replay at_rest
            (run (serve quiet_env) (jtag_transfer 0x02 7 capturing) (bench_of [])).1.trace))
jtag_transfer-At_example =
    jtag_transfer-At quiet_env at_rest capturing 0x02 7 1 [] (bench_of []) (0, refl)
