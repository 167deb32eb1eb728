-- ===== src/Dap/Wave.antt =====
-- What a target sees on the wires: the calls that set pins, read as the levels at the rising edges of
-- the clock. A trace holds the last call first.
pub mod Swd
pub mod Tap
pub mod Target
use riceprobe.Base.{ℕ, zero, suc, List, [], ◌∷◌}
use riceprobe.Zephyr.{Call, gpio_set, Pin, tck_swclk, tms_swdio, tdi}

-- The level that swdio (or tms) was set to last.
abbrev pub swdio_level : List Call → ℕ
swdio_level [] = 0
swdio_level (gpio_set tms_swdio v ∷ cs) = v
swdio_level (_ ∷ cs) = swdio_level cs

-- The levels of swdio at the clock's rising edges, the last one first.
abbrev pub swdio_samples : List Call → List ℕ
swdio_samples [] = []
swdio_samples (gpio_set tck_swclk (suc v) ∷ cs) = swdio_level cs ∷ swdio_samples cs
swdio_samples (_ ∷ cs) = swdio_samples cs
