-- ===== src/Dap/Invariant/Cycles.antt =====
-- The cycles of the port pins, in commands_jtag.c and commands_swd.c of firmware/src/dap, change no state of
-- the driver.
use riceprobe.Base.{ℕ, zero, suc, ◌+◌, ◌/◌}
use riceprobe.Zephyr.Always.{Keeps, Keeps-bind}
use riceprobe.Dap.{Driver}
use riceprobe.Dap.Swd
use riceprobe.Dap.Jtag
use riceprobe.Dap.Invariant.{IsValid, dap_rules, Keeps-get_u8}

-- The pin cycles change nothing but pins.
module _ {P : Driver → Type 0} where
  pub Keeps-read_cycle : Keeps P Swd.read_cycle
  unfolding Swd.read_cycle
  Keeps-read_cycle = search dap_rules depth 20

  pub Keeps-write_cycle : (x : ℕ) → Keeps P (Swd.write_cycle x)
  unfolding Swd.write_cycle
  Keeps-write_cycle x = search dap_rules depth 20

  pub Keeps-swclk_cycle : Keeps P Swd.swclk_cycle
  unfolding Swd.swclk_cycle
  Keeps-swclk_cycle = search dap_rules depth 20

  pub Keeps-tck_cycle : Keeps P Jtag.tck_cycle
  unfolding Jtag.tck_cycle
  Keeps-tck_cycle = search dap_rules depth 20

  pub Keeps-tdi_cycle : (x : ℕ) → Keeps P (Jtag.tdi_cycle x)
  unfolding Jtag.tdi_cycle
  Keeps-tdi_cycle x = search dap_rules depth 20

  pub Keeps-tdo_cycle : Keeps P Jtag.tdo_cycle
  unfolding Jtag.tdo_cycle
  Keeps-tdo_cycle = search dap_rules depth 20

  pub Keeps-tdio_cycle : (x : ℕ) → Keeps P (Jtag.tdio_cycle x)
  unfolding Jtag.tdio_cycle
  Keeps-tdio_cycle x = search dap_rules depth 20

pub ruleset cycle_rules = (
  dap_rules, Keeps-read_cycle, Keeps-write_cycle, Keeps-swclk_cycle, Keeps-tck_cycle,
  Keeps-tdi_cycle, Keeps-tdo_cycle, Keeps-tdio_cycle,
)

module _ {P : Driver → Type 0} where
  pub Keeps-tdi_bits : (k x : ℕ) → Keeps P (Jtag.tdi_bits k x)
  unfolding Jtag.tdi_bits
  Keeps-tdi_bits zero x = search cycle_rules
  Keeps-tdi_bits (suc k) x = Keeps-bind (Keeps-tdi_cycle x) (λ _. Keeps-tdi_bits k (x / 2))

  pub Keeps-tdo_bits : (k i acc : ℕ) → Keeps P (Jtag.tdo_bits k i acc)
  unfolding Jtag.tdo_bits
  Keeps-tdo_bits zero i acc = search cycle_rules
  Keeps-tdo_bits (suc k) i acc = Keeps-bind Keeps-tdo_cycle (λ b. Keeps-tdo_bits k (i + 1) _)

  pub Keeps-set_ir : (ir : ℕ) → Keeps P (Jtag.set_ir ir)
  unfolding Jtag.set_ir
  Keeps-set_ir ir = search (cycle_rules, Keeps-tdi_bits) depth 40

  Keeps-shift_bits : (k x acc : ℕ) → Keeps P (Jtag.shift_bits k x acc)
  unfolding Jtag.shift_bits
  Keeps-shift_bits zero x acc = search cycle_rules
  Keeps-shift_bits (suc k) x acc =
      Keeps-bind (Keeps-tdio_cycle x) (λ b. Keeps-shift_bits k (x / 2) _)
