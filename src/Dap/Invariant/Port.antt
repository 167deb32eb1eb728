-- ===== src/Dap/Invariant/Port.antt =====
-- A transfer over JTAG or SWD, of firmware/src/dap/commands_transfer.c, keeps what holds of the driver:
-- it reads the driver's state and does not change it.
use riceprobe.Base.{ℕ, zero, suc, ◌+◌, ◌/◌}
use riceprobe.Zephyr.Prog.{◌>>=◌}
use riceprobe.Zephyr.Always.{Keeps, Keeps-bind, Keeps-elim, Keeps-pure}
use riceprobe.Dap.{Driver}
use riceprobe.Dap.Transfer.Port.{
  jtag_read, jtag_write, jtag_transfer, swd_read_word, swd_write_word, swd_request, swd_data,
  swd_refused, swd_transfer, transfer_once, transfer_retry, port_transfer, port_set_ir,
  port_force_ir,
}
use riceprobe.Dap.Invariant.{IsValid, dap_rules, Keeps-get_u8, Keeps-get_u32, Keeps-respond}
use riceprobe.Dap.Invariant.Cycles.{
  cycle_rules, Keeps-read_cycle, Keeps-write_cycle, Keeps-set_ir, Keeps-tdi_bits, Keeps-tdo_bits,
}

module _ {P : Driver → Type 0} where
  Keeps-jtag_read : Keeps P jtag_read
  unfolding jtag_read
  Keeps-jtag_read = search (cycle_rules, Keeps-tdo_bits) depth 40

  Keeps-jtag_write : (word : ℕ) → Keeps P (jtag_write word)
  unfolding jtag_write
  Keeps-jtag_write word = search (cycle_rules, Keeps-tdi_bits) depth 40

  Keeps-jtag_transfer : (req word : ℕ) → Keeps P (jtag_transfer req word)
  unfolding jtag_transfer
  Keeps-jtag_transfer req word = search (cycle_rules, Keeps-jtag_read, Keeps-jtag_write) depth 60

  Keeps-swd_read_word : (k i word parity : ℕ) → Keeps P (swd_read_word k i word parity)
  unfolding swd_read_word
  Keeps-swd_read_word zero i word parity = Keeps-pure _
  Keeps-swd_read_word (suc k) i word parity =
      Keeps-bind Keeps-read_cycle (λ b. Keeps-swd_read_word k (i + 1) _ _)

  Keeps-swd_write_word : (k word parity : ℕ) → Keeps P (swd_write_word k word parity)
  unfolding swd_write_word
  Keeps-swd_write_word zero word parity = Keeps-pure _
  Keeps-swd_write_word (suc k) word parity =
      Keeps-bind (Keeps-write_cycle word) (λ _. Keeps-swd_write_word k (word / 2) _)

  Keeps-swd_request : (req : ℕ) → Keeps P (swd_request req)
  unfolding swd_request
  Keeps-swd_request req = search cycle_rules depth 40

  Keeps-swd_data : (req word : ℕ) → Keeps P (swd_data req word)
  unfolding swd_data ◌>>=◌
  Keeps-swd_data req word = search (cycle_rules, Keeps-swd_read_word, Keeps-swd_write_word) depth 60

  Keeps-swd_refused : (req : ℕ) → Keeps P (swd_refused req)
  unfolding swd_refused
  Keeps-swd_refused req = search cycle_rules depth 60

  Keeps-swd_transfer : (req word : ℕ) → Keeps P (swd_transfer req word)
  unfolding swd_transfer
  Keeps-swd_transfer req word =
      search (cycle_rules, Keeps-swd_request, Keeps-swd_data, Keeps-swd_refused) depth 60

  Keeps-transfer_once : (req ack word : ℕ) → Keeps P (transfer_once req ack word)
  unfolding transfer_once
  Keeps-transfer_once req ack word =
      search (dap_rules, Keeps-jtag_transfer, Keeps-swd_transfer) depth 40

  Keeps-transfer_retry : (left req ack word : ℕ) → Keeps P (transfer_retry left req ack word)
  unfolding transfer_retry
  Keeps-transfer_retry zero req ack word = Keeps-pure _
  Keeps-transfer_retry (suc left) req ack word =
      Keeps-bind (Keeps-transfer_once req ack word)
        (λ (ack', word'). Keeps-elim _ (Keeps-transfer_retry left req ack' word') (Keeps-pure _))

  pub Keeps-port_transfer : (req word : ℕ) → Keeps P (port_transfer req word)
  unfolding port_transfer
  Keeps-port_transfer req word = search (dap_rules, Keeps-transfer_retry) depth 40

  pub Keeps-port_set_ir : (last ir : ℕ) → Keeps P (port_set_ir last ir)
  unfolding port_set_ir
  Keeps-port_set_ir last ir = search (dap_rules, Keeps-set_ir) depth 40

  pub Keeps-port_force_ir : (ir : ℕ) → Keeps P (port_force_ir ir)
  unfolding port_force_ir
  Keeps-port_force_ir ir = search (dap_rules, Keeps-set_ir) depth 40

pub ruleset transfer_rules =
    (dap_rules, Keeps-port_transfer, Keeps-port_set_ir, Keeps-port_force_ir)
