-- ===== src/Dap/Invariant.antt =====
-- The well-formed states of the driver, and what the shared helpers keep.
pub mod Cycles
pub mod Sequences
pub mod Swo
pub mod General
pub mod Port
pub mod Transfer
pub mod Request
pub mod Thread
pub mod Reset
use riceprobe.Base.{
  ℕ, suc, ◌+◌, ◌*◌, ◌/◌, ◌%◌, ◌≤◌, ◌<◌, ◌≡◌, refl, arith, ◌⊎◌, inl, inr, Bool, true, false, List,
  [], ◌∷◌, length,
}
use riceprobe.Zephyr.{Buffer, Pin, Flag}
use riceprobe.Zephyr.Prog.{M}
use riceprobe.Zephyr.Always.{Keeps, keeps_rules}
use riceprobe.Dap.{
  Driver, Action, get_u8, get_u16, get_u32, first_byte, two_bytes, four_bytes, ring_get_le16,
  ring_get_le32, ring_put_le32, respond, set_pin, configure_pin, delay, max_device_count,
}

-- The port is one of three, the pin delay is that of the clock, the chain of devices fits its arrays,
-- the SWD turnaround takes one to four cycles, and SWO data is captured in UART mode on an SWD port
-- only.
pub record IsValid (d : Driver) : Type 0 where
  pub port : d.swj.port ≤ 2
  pub clock : 0 < d.swj.clock
  pub delay : d.swj.delay_ns ≡ 1000000000 / d.swj.clock / 2
  pub count : d.jtag.count ≤ max_device_count
  pub index : d.jtag.index < max_device_count
  pub ir_length : length d.jtag.ir_length ≡ max_device_count
  pub ir_before : length d.jtag.ir_before ≡ max_device_count
  pub ir_after : length d.jtag.ir_after ≡ max_device_count
  pub turnaround : (1 ≤ d.swd.turnaround_cycles) × (d.swd.turnaround_cycles ≤ 4)
  pub transport : d.swo.transport ≤ 1
  pub mode : d.swo.mode ≤ 1
  pub captured : (d.swo.capture ≡ false) ⊎ ((d.swo.mode ≡ 1) × (d.swj.port ≡ 2))

module _ {S : Type 0} {P : S → Type 0} where
  Keeps-first_byte : (xs : List ℕ) → Keeps P (first_byte xs)
  unfolding first_byte
  Keeps-first_byte [] = search keeps_rules
  Keeps-first_byte (a ∷ []) = search keeps_rules
  Keeps-first_byte (a ∷ b ∷ xs) = search keeps_rules

  Keeps-two_bytes : (xs : List ℕ) → Keeps P (two_bytes xs)
  unfolding two_bytes
  Keeps-two_bytes [] = search keeps_rules
  Keeps-two_bytes (a ∷ []) = search keeps_rules
  Keeps-two_bytes (a ∷ b ∷ []) = search keeps_rules
  Keeps-two_bytes (a ∷ b ∷ c ∷ xs) = search keeps_rules

  Keeps-four_bytes : (xs : List ℕ) → Keeps P (four_bytes xs)
  unfolding four_bytes
  Keeps-four_bytes [] = search keeps_rules
  Keeps-four_bytes (a ∷ []) = search keeps_rules
  Keeps-four_bytes (a ∷ b ∷ []) = search keeps_rules
  Keeps-four_bytes (a ∷ b ∷ c ∷ []) = search keeps_rules
  Keeps-four_bytes (a ∷ b ∷ c ∷ d ∷ []) = search keeps_rules
  Keeps-four_bytes (a ∷ b ∷ c ∷ d ∷ e ∷ xs) = search keeps_rules

  pub Keeps-get_u8 : Keeps P get_u8
  unfolding get_u8
  Keeps-get_u8 = search (keeps_rules, Keeps-first_byte)

  pub Keeps-get_u16 : Keeps P get_u16
  unfolding get_u16
  Keeps-get_u16 = search (keeps_rules, Keeps-two_bytes)

  pub Keeps-get_u32 : Keeps P get_u32
  unfolding get_u32
  Keeps-get_u32 = search (keeps_rules, Keeps-four_bytes)

  pub Keeps-ring_get_le16 : Keeps P ring_get_le16
  unfolding ring_get_le16
  Keeps-ring_get_le16 = search (keeps_rules, Keeps-two_bytes) depth 12

  pub Keeps-ring_get_le32 : Keeps P ring_get_le32
  unfolding ring_get_le32
  Keeps-ring_get_le32 = search (keeps_rules, Keeps-four_bytes) depth 12

  pub Keeps-ring_put_le32 : (b : Buffer) (x : ℕ) → Keeps P (ring_put_le32 b x)
  unfolding ring_put_le32
  Keeps-ring_put_le32 b x = search keeps_rules depth 12

  pub Keeps-respond : (xs : List ℕ) → Keeps P (respond xs)
  unfolding respond
  Keeps-respond xs = search keeps_rules depth 12

  pub Keeps-set_pin : (p : Pin) (v : ℕ) → Keeps P (set_pin p v)
  unfolding set_pin
  Keeps-set_pin p v = search keeps_rules depth 12

  pub Keeps-configure_pin : (p : Pin) (fs : List Flag) → Keeps P (configure_pin p fs)
  unfolding configure_pin
  Keeps-configure_pin p fs = search keeps_rules depth 12

pub Keeps-delay : {P : Driver → Type 0} → Keeps P delay
unfolding delay
Keeps-delay = search keeps_rules depth 12

pub ruleset dap_rules = (
  keeps_rules, Keeps-get_u8, Keeps-get_u16, Keeps-get_u32, Keeps-ring_get_le16, Keeps-ring_get_le32,
  Keeps-ring_put_le32, Keeps-respond, Keeps-set_pin, Keeps-configure_pin, Keeps-delay,
)
