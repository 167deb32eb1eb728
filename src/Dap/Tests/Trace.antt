-- ===== src/Dap/Tests/Trace.antt =====
-- A request for trace data that lies across the end of its buffer.
use riceprobe.Base.{ℕ, ◌%◌, ◌≤◌, ◌≡◌, refl, arith, ◌⊎◌, [], ◌∷◌, ◌++◌, length, take, drop}
use riceprobe.Base.Bits.{le16, get_le16}
use riceprobe.Zephyr.Ring
use riceprobe.Zephyr.Prog.{run, ok}
use riceprobe.Zephyr.Bench.{Bench, serve}
use riceprobe.Zephyr.Stage.{quiet_env, bench_of}
use riceprobe.Dap.Swo.{trace_status, handle_swo_data}
use riceprobe.Dap.Swo.Moves.{Ready}
use riceprobe.Dap.Swo.Data.{handle_swo_data-moves}
use riceprobe.Dap.Tests.{capturing}

abbrev traced : Bench
traced = record (bench_of (100 ∷ 0 ∷ [])) {
  swo_ring = record {
    cap = 8;
    head = 6;
    bytes = 0x10 ∷ 0x20 ∷ 0x30 ∷ 0x40 ∷ 0x50 ∷ [];
    taken = 0;
    claimed = [];
    stale = λ i. 0;
  };
}

traced-Ready : Ready traced
traced-Ready = record { room = omega arith; unread = refl; unclaimed = refl }

handle_swo_data-moves_example :
    (n : ℕ) × (w' : Bench) × (run (serve quiet_env) (handle_swo_data capturing) traced
      ≡ ((ok tt, capturing), w'))
    × (n ≤ length traced.swo_ring.bytes)
    × (w'.response_ring.bytes
        ≡ traced.response_ring.bytes
          ++ (0x1c ∷ trace_status capturing.swo ∷ (le16 n ++ take n traced.swo_ring.bytes)))
    × (w'.swo_ring.bytes ≡ drop n traced.swo_ring.bytes)
    × ((get_le16 100 0 ≤ n % 0x10000)
        ⊎ ((length w'.swo_ring.bytes ≡ 0) ⊎ (Ring.free w'.response_ring ≡ 0)))
handle_swo_data-moves_example =
    handle_swo_data-moves quiet_env capturing 100 0 [] traced refl traced-Ready refl (omega arith)
      (omega arith)
