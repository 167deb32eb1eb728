-- ===== src/Dap/Wave/Tap.antt =====
-- The test access port that IEEE 1149.1 puts behind the JTAG wires, driven by the calls that set pins.
pub mod Drives
pub mod SetIr
pub mod Walks
pub mod Transfer
use riceprobe.Base.{ℕ, zero, suc, ◌/◌, ◌%◌, List, [], ◌∷◌}
use riceprobe.Zephyr.{Call, gpio_set, Pin, tck_swclk, tms_swdio, tdi}

pub data TapState : Type 0 where
  logic_reset idle select_dr capture_dr shift_dr exit1_dr pause_dr exit2_dr update_dr : TapState
  select_ir capture_ir shift_ir exit1_ir pause_ir exit2_ir update_ir : TapState

-- The state after an edge with tms low, and with tms high.
abbrev pub next_low : TapState → TapState
next_low logic_reset = idle
next_low idle = idle
next_low select_dr = capture_dr
next_low capture_dr = shift_dr
next_low shift_dr = shift_dr
next_low exit1_dr = pause_dr
next_low pause_dr = pause_dr
next_low exit2_dr = shift_dr
next_low update_dr = idle
next_low select_ir = capture_ir
next_low capture_ir = shift_ir
next_low shift_ir = shift_ir
next_low exit1_ir = pause_ir
next_low pause_ir = pause_ir
next_low exit2_ir = shift_ir
next_low update_ir = idle

abbrev pub next_high : TapState → TapState
next_high logic_reset = logic_reset
next_high idle = select_dr
next_high select_dr = select_ir
next_high capture_dr = exit1_dr
next_high shift_dr = exit1_dr
next_high exit1_dr = update_dr
next_high pause_dr = exit2_dr
next_high exit2_dr = update_dr
next_high update_dr = select_dr
next_high select_ir = logic_reset
next_high capture_ir = exit1_ir
next_high shift_ir = exit1_ir
next_high exit1_ir = update_ir
next_high pause_ir = exit2_ir
next_high exit2_ir = update_ir
next_high update_ir = select_dr

-- The levels of the wires, the state, and the bits shifted into the instruction registers of the
-- chain, the last one first.
pub record Tap : Type 0 where
  pub tms_at : ℕ
  pub tdi_at : ℕ
  pub state : TapState
  pub instruction : List ℕ

abbrev pub shifted : TapState → ℕ → List ℕ → List ℕ
shifted shift_ir bit bits = bit ∷ bits
shifted _ bit bits = bits

abbrev pub next_state : ℕ → TapState → TapState
next_state zero s = next_low s
next_state (suc n) s = next_high s

-- A rising edge of tck.
abbrev pub edge : Tap → Tap
edge t = record t {
  state = next_state t.tms_at t.state;
  instruction = shifted t.state t.tdi_at t.instruction;
}

abbrev pub on_call : Call → Tap → Tap
on_call (gpio_set tms_swdio v) t = record t { tms_at = v }
on_call (gpio_set tdi v) t = record t { tdi_at = v }
on_call (gpio_set tck_swclk (suc v)) t = edge t
on_call _ t = t

-- The port after a trace, which holds the last call first.
abbrev pub replay : Tap → List Call → Tap
replay t [] = t
replay t (c ∷ cs) = on_call c (replay t cs)

-- A sequence of bits, shifted in one after another.
abbrev pub pushed : List ℕ → List ℕ → List ℕ
pushed [] bits = bits
pushed (x ∷ xs) bits = pushed xs (x ∷ bits)

-- The low bits of a word, the lowest first.
abbrev pub bits_of : ℕ → ℕ → List ℕ
bits_of zero x = []
bits_of (suc n) x = x % 2 ∷ bits_of n (x / 2)
