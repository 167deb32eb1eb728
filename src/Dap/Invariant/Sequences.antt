-- ===== src/Dap/Invariant/Sequences.antt =====
-- The commands of commands_jtag.c and commands_swd.c in firmware/src/dap keep the driver well-formed.
use riceprobe.Base.{
  ℕ, zero, suc, ◌+◌, ◌-◌, ◌/◌, ◌%◌, ◌≤◌, ◌<◌, arith, Bool, ◌∷◌, length-set, ltb, leb, ◌||◌, ◌/=◌,
  if◌then◌else◌, Bool-cases, inl, inr,
}
use riceprobe.Base.Bits.{le32}
use riceprobe.Zephyr.Prog.{◌>>=◌}
use riceprobe.Zephyr.Always.{Keeps, Keeps-gets, Keeps-modify, Keeps-bind, Keeps-read, Keeps-when}
use riceprobe.Dap.{Driver, respond, response_error}
use riceprobe.Dap.Swd
use riceprobe.Dap.Jtag
use riceprobe.Dap.Invariant.{IsValid, dap_rules, Keeps-get_u8, Keeps-respond}
use riceprobe.Dap.Invariant.Cycles.{
  cycle_rules, Keeps-read_cycle, Keeps-write_cycle, Keeps-tdio_cycle, Keeps-set_ir, Keeps-tdo_bits,
}

module _ {P : Driver → Type 0} where
  Keeps-read_bits : (k acc : ℕ) → Keeps P (Swd.read_bits k acc)
  unfolding Swd.read_bits
  Keeps-read_bits zero acc = search dap_rules
  Keeps-read_bits (suc k) acc = Keeps-bind Keeps-read_cycle (λ b. Keeps-read_bits k _)

  Keeps-read_byte : (k : ℕ) → Keeps P (Swd.read_byte k)
  unfolding Swd.read_byte
  Keeps-read_byte k = search (dap_rules, Keeps-read_bits)

  Keeps-read_sequence : (rounds cycles : ℕ) → Keeps P (Swd.read_sequence rounds cycles)
  unfolding Swd.read_sequence
  Keeps-read_sequence zero cycles = search dap_rules
  Keeps-read_sequence (suc rounds) cycles =
      Keeps-bind (Keeps-read_byte _)
        (λ x. Keeps-bind (Keeps-respond _) (λ _. Keeps-read_sequence rounds (cycles - 8)))

  Keeps-write_bits : (k x : ℕ) → Keeps P (Swd.write_bits k x)
  unfolding Swd.write_bits
  Keeps-write_bits zero x = search dap_rules
  Keeps-write_bits (suc k) x = Keeps-bind (Keeps-write_cycle x) (λ _. Keeps-write_bits k (x / 2))

  Keeps-write_sequence : (rounds cycles : ℕ) → Keeps P (Swd.write_sequence rounds cycles)
  unfolding Swd.write_sequence
  Keeps-write_sequence zero cycles = search dap_rules
  Keeps-write_sequence (suc rounds) cycles =
      Keeps-bind Keeps-get_u8
        (λ x. Keeps-bind (Keeps-write_bits _ x) (λ _. Keeps-write_sequence rounds (cycles - 8)))

  Keeps-swd_sequence : (status : ℕ) → Keeps P (Swd.sequence status)
  unfolding Swd.sequence
  Keeps-swd_sequence status = search (dap_rules, Keeps-read_sequence, Keeps-write_sequence) depth 20

  Keeps-swd_sequences : (n status : ℕ) → Keeps P (Swd.sequences n status)
  unfolding Swd.sequences
  Keeps-swd_sequences zero status = search dap_rules
  Keeps-swd_sequences (suc n) status =
      Keeps-bind (Keeps-swd_sequence status) (λ s. Keeps-swd_sequences n s)

  pub Keeps-handle_swd_sequence : Keeps P Swd.handle_swd_sequence
  unfolding Swd.handle_swd_sequence ◌>>=◌
  Keeps-handle_swd_sequence = search (dap_rules, Keeps-swd_sequences) depth 30

  Keeps-shift_bits : (k x acc : ℕ) → Keeps P (Jtag.shift_bits k x acc)
  unfolding Jtag.shift_bits
  Keeps-shift_bits zero x acc = search dap_rules
  Keeps-shift_bits (suc k) x acc =
      Keeps-bind (Keeps-tdio_cycle x) (λ b. Keeps-shift_bits k (x / 2) _)

  Keeps-shift_sequence :
      (capture : Bool) (rounds cycles : ℕ) → Keeps P (Jtag.shift_sequence capture rounds cycles)
  unfolding Jtag.shift_sequence
  Keeps-shift_sequence capture zero cycles = search dap_rules
  Keeps-shift_sequence capture (suc rounds) cycles = Keeps-bind Keeps-get_u8 (λ x.
      Keeps-bind (Keeps-shift_bits _ x 0) (λ acc.
        Keeps-bind (Keeps-when capture (Keeps-respond _))
          (λ _. Keeps-shift_sequence capture rounds (cycles - 8))))

  Keeps-jtag_sequence : (status : ℕ) → Keeps P (Jtag.sequence status)
  unfolding Jtag.sequence
  Keeps-jtag_sequence status = search (dap_rules, Keeps-shift_sequence) depth 20

  Keeps-jtag_sequences : (n status : ℕ) → Keeps P (Jtag.sequences n status)
  unfolding Jtag.sequences
  Keeps-jtag_sequences zero status = search dap_rules
  Keeps-jtag_sequences (suc n) status =
      Keeps-bind (Keeps-jtag_sequence status) (λ s. Keeps-jtag_sequences n s)

  pub Keeps-handle_jtag_sequence : Keeps P Jtag.handle_jtag_sequence
  unfolding Jtag.handle_jtag_sequence ◌>>=◌
  Keeps-handle_jtag_sequence = search (dap_rules, Keeps-jtag_sequences) depth 30

  Keeps-read_idcode : Keeps P Jtag.read_idcode
  unfolding Jtag.read_idcode
  Keeps-read_idcode = search (cycle_rules, Keeps-set_ir, Keeps-tdo_bits) depth 40

pub handle_swd_configure-IsValid : Keeps IsValid Swd.handle_swd_configure
unfolding Swd.handle_swd_configure
handle_swd_configure-IsValid =
    Keeps-bind Keeps-get_u8
      (λ x. Keeps-bind (Keeps-modify _ (λ d h. ground arith)) (λ _. Keeps-respond _))

Keeps-read_lengths : (left i sum : ℕ) → Keeps IsValid (Jtag.read_lengths left i sum)
unfolding Jtag.read_lengths
Keeps-read_lengths zero i sum = search dap_rules
Keeps-read_lengths (suc left) i sum = Keeps-bind Keeps-get_u8 (λ len.
    Keeps-bind
      (Keeps-modify _ (λ d h.
        ground (arith, length-set d.jtag.ir_before i sum, length-set d.jtag.ir_length i len)))
      (λ _. Keeps-read_lengths left (i + 1) _))

Keeps-set_after : (left i sum : ℕ) → Keeps IsValid (Jtag.set_after left i sum)
unfolding Jtag.set_after
Keeps-set_after zero i sum = search dap_rules
Keeps-set_after (suc left) i sum = Keeps-bind (Keeps-gets _) (λ len.
    Keeps-bind
      (Keeps-modify _
        (λ d h. ground (arith, length-set d.jtag.ir_after i ((sum + 0x10000 - len) % 0x10000))))
      (λ _. Keeps-set_after left (i + 1) _))

pub handle_jtag_configure-IsValid : Keeps IsValid Jtag.handle_jtag_configure
unfolding Jtag.handle_jtag_configure
handle_jtag_configure-IsValid = Keeps-bind Keeps-get_u8 (λ count. elim (Bool-cases (ltb 4 count)) [
  | inl e ↦ rw e (search dap_rules depth 20)
  | inr e ↦ rw e (
      Keeps-bind (Keeps-modify _ (λ d h. ground arith))
        (λ _. search (dap_rules, Keeps-read_lengths, Keeps-set_after)))
])

Keeps-answer_idcode : (index : ℕ) → index < 4 → Keeps IsValid (Jtag.answer_idcode index)
unfolding Jtag.answer_idcode
Keeps-answer_idcode index h =
    Keeps-bind (Keeps-modify _ (λ d v. ground arith)) (λ _. search (dap_rules, Keeps-read_idcode))

Keeps-idcode_or :
    (index port count : ℕ)
    → count ≤ 4
    → Keeps IsValid (
        if port /= 1 || leb count index
        then respond (0x16 ∷ response_error ∷ le32 0)
        else Jtag.answer_idcode index)
Keeps-idcode_or index port count h = elim (Bool-cases (port /= 1 || leb count index)) [
  | inl e ↦ rw e (Keeps-respond _)
  | inr e ↦ rw e (Keeps-answer_idcode index (ground arith))
]

pub handle_jtag_idcode-IsValid : Keeps IsValid Jtag.handle_jtag_idcode
unfolding Jtag.handle_jtag_idcode
handle_jtag_idcode-IsValid = Keeps-bind Keeps-get_u8 (λ index.
    Keeps-bind (Keeps-gets _)
      (λ port. Keeps-read _ _ (λ d h. (Keeps-idcode_or index port d.jtag.count h.count).at d h)))
