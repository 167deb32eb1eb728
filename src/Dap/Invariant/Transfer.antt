-- ===== src/Dap/Invariant/Transfer.antt =====
-- The commands of firmware/src/dap/commands_transfer.c keep the driver well-formed.
use riceprobe.Base.{ℕ, zero, suc, ◌≤◌, arith, true, false, leb, if◌then◌else◌, Bool-cases, inl, inr}
use riceprobe.Zephyr.Prog.{◌>>=◌, ◌>>◌, modify, pure, when}
use riceprobe.Zephyr.Always.{
  Keeps, Keeps-modify, Keeps-bind, Keeps-read, Keeps-elim, Keeps-if, Keeps-when, Keeps-gets,
  Keeps-pure,
}
use riceprobe.Dap.{Driver}
use riceprobe.Dap.Transfer
use riceprobe.Dap.Transfer.Block
use riceprobe.Dap.Transfer.{
  handle_transfer_configure, transfer_with, collect_read, match_loop, read_until_match, read_match,
  read_plain, write_word, perform, transfer_round, transfer_loop, skip_requests, finish_transfer,
  end_transfer, select_port, handle_transfer, handle_transfer_abort, handle_write_abort,
}
use riceprobe.Dap.Transfer.Block.{
  transfer_next, turn_to_rdbuff, read_loop, write_loop, read_block, write_block, end_block,
  handle_transfer_block,
}
use riceprobe.Dap.Invariant.{IsValid, dap_rules, Keeps-get_u8, Keeps-get_u32, Keeps-respond}
use riceprobe.Dap.Invariant.Port.{transfer_rules, Keeps-port_transfer}

module _ {P : Driver → Type 0} where
  Keeps-transfer_with : (ir req : ℕ) (p : Transfer.Progress) → Keeps P (transfer_with ir req p)
  unfolding transfer_with ◌>>=◌
  Keeps-transfer_with ir req p = search transfer_rules depth 40

  Keeps-collect_read : (p : Transfer.Progress) → Keeps P (collect_read p)
  unfolding collect_read
  Keeps-collect_read p = search (transfer_rules, Keeps-transfer_with) depth 40

  Keeps-match_loop :
      (left req value : ℕ) (p : Transfer.Progress) → Keeps P (match_loop left req value p)
  unfolding match_loop
  Keeps-match_loop zero req value p = Keeps-pure _
  Keeps-match_loop (suc left) req value p = Keeps-bind (Keeps-port_transfer _ _) (λ (ack, word).
      Keeps-bind (Keeps-gets _)
        (λ mask. Keeps-elim _ (Keeps-pure _) (Keeps-match_loop left req value _)))

  Keeps-read_until_match :
      (req value : ℕ) (p : Transfer.Progress) → Keeps P (read_until_match req value p)
  unfolding read_until_match
  Keeps-read_until_match req value p = search (dap_rules, Keeps-match_loop) depth 40

  Keeps-read_match : (req : ℕ) (p : Transfer.Progress) → Keeps P (read_match req p)
  unfolding read_match
  Keeps-read_match req p =
      search (transfer_rules, Keeps-transfer_with, Keeps-read_until_match) depth 40

  Keeps-read_plain : (req : ℕ) (p : Transfer.Progress) → Keeps P (read_plain req p)
  unfolding read_plain
  Keeps-read_plain req p = search (transfer_rules, Keeps-transfer_with) depth 40

  Keeps-skip_requests : (left : ℕ) → Keeps P (skip_requests left)
  unfolding skip_requests
  Keeps-skip_requests zero = Keeps-pure _
  Keeps-skip_requests (suc left) =
      Keeps-bind Keeps-get_u8
        (λ req. Keeps-bind (Keeps-when _ (search dap_rules)) (λ _. Keeps-skip_requests left))

  Keeps-finish_transfer : (at : ℕ) (p : Transfer.Progress) → Keeps P (finish_transfer at p)
  unfolding finish_transfer when ◌>>=◌
  Keeps-finish_transfer at p = search (transfer_rules, Keeps-transfer_with) depth 40

  Keeps-end_transfer :
      (count_at ack_at left : ℕ) (p : Transfer.Progress)
      → Keeps P (end_transfer count_at ack_at left p)
  unfolding end_transfer ◌>>=◌
  Keeps-end_transfer count_at ack_at left p =
      search (transfer_rules, Keeps-skip_requests, Keeps-finish_transfer) depth 40

  Keeps-transfer_next : (p : Block.Progress) → Keeps P (transfer_next p)
  unfolding transfer_next ◌>>=◌
  Keeps-transfer_next p = search transfer_rules depth 40

  Keeps-turn_to_rdbuff : (p : Block.Progress) → Keeps P (turn_to_rdbuff p)
  unfolding turn_to_rdbuff
  Keeps-turn_to_rdbuff p = search transfer_rules depth 40

  Keeps-read_loop : (left : ℕ) (p : Block.Progress) → Keeps P (read_loop left p)
  unfolding read_loop
  Keeps-read_loop zero p = Keeps-pure _
  Keeps-read_loop (suc left) p = Keeps-bind (Keeps-gets _) (λ posted.
      Keeps-bind (Keeps-if _ (Keeps-turn_to_rdbuff p) (Keeps-pure _)) (λ q.
        Keeps-bind (Keeps-transfer_next q) (λ r.
          Keeps-elim _ (Keeps-pure _)
            (Keeps-bind (Keeps-respond _) (λ _. Keeps-read_loop left _)))))

  Keeps-write_loop : (left : ℕ) (p : Block.Progress) → Keeps P (write_loop left p)
  unfolding write_loop
  Keeps-write_loop zero p = Keeps-pure _
  Keeps-write_loop (suc left) p = Keeps-bind Keeps-get_u32 (λ word.
      Keeps-bind (Keeps-transfer_next _)
        (λ r. Keeps-elim _ (Keeps-pure _) (Keeps-write_loop left _)))

  Keeps-read_block : (count : ℕ) (p : Block.Progress) → Keeps P (read_block count p)
  unfolding read_block
  Keeps-read_block count p = search (dap_rules, Keeps-transfer_next, Keeps-read_loop) depth 40

  Keeps-write_block : (count : ℕ) (p : Block.Progress) → Keeps P (write_block count p)
  unfolding write_block ◌>>=◌
  Keeps-write_block count p =
      search (dap_rules, Keeps-transfer_next, Keeps-turn_to_rdbuff, Keeps-write_loop) depth 40

  Keeps-end_block :
      (count_at ack_at left : ℕ) (p : Block.Progress) → Keeps P (end_block count_at ack_at left p)
  unfolding end_block ◌>>=◌
  Keeps-end_block count_at ack_at left p = search dap_rules depth 40

Keeps-set_mask :
    (mask : ℕ)
    → Keeps IsValid
        (modify (λ d. record d { transfer = record (d.transfer) { match_mask = mask } }))
Keeps-set_mask mask = Keeps-modify _ (λ d h. ground arith)

Keeps-write_word : (req : ℕ) (p : Transfer.Progress) → Keeps IsValid (write_word req p)
unfolding write_word
Keeps-write_word req p = search (dap_rules, Keeps-transfer_with, Keeps-set_mask) depth 40

Keeps-perform : (req : ℕ) (p : Transfer.Progress) → Keeps IsValid (perform req p)
unfolding perform ◌>>=◌
Keeps-perform req p =
    search (dap_rules, Keeps-read_match, Keeps-read_plain, Keeps-write_word) depth 40

Keeps-transfer_round : (p : Transfer.Progress) → Keeps IsValid (transfer_round p)
unfolding transfer_round ◌>>=◌
Keeps-transfer_round p = search (dap_rules, Keeps-collect_read, Keeps-perform) depth 40

Keeps-transfer_loop : (left : ℕ) (p : Transfer.Progress) → Keeps IsValid (transfer_loop left p)
unfolding transfer_loop
Keeps-transfer_loop zero p = Keeps-pure _
Keeps-transfer_loop (suc left) p =
    Keeps-bind (Keeps-transfer_round p)
      (λ (on, p'). Keeps-elim on (Keeps-transfer_loop left p') (Keeps-pure _))

Keeps-set_index :
    (index count : ℕ)
    → count ≤ 4
    → Keeps IsValid (
        if leb count index
        then pure false
        else (modify (λ d. record d { jtag = record (d.jtag) { index = index } }) >> pure true))
Keeps-set_index index count h = elim (Bool-cases (leb count index)) [
  | inl e ↦ rw e (Keeps-pure _)
  | inr e ↦ rw e (Keeps-bind (Keeps-modify _ (λ d v. ground arith)) (λ _. Keeps-pure _))
]

pub Keeps-select_port : (index : ℕ) → Keeps IsValid (select_port index)
unfolding select_port
Keeps-select_port index = Keeps-bind (Keeps-gets _) (λ port. Keeps-read _ _ (λ d h.
    (Keeps-if _ (Keeps-pure _)
        (Keeps-if _ (Keeps-set_index index d.jtag.count h.count) (Keeps-pure _))).at
      d h))

pub handle_transfer-IsValid : Keeps IsValid handle_transfer
unfolding handle_transfer ◌>>=◌
handle_transfer-IsValid =
    search (dap_rules, Keeps-select_port, Keeps-transfer_loop, Keeps-end_transfer) depth 60

pub handle_transfer_block-IsValid : Keeps IsValid handle_transfer_block
unfolding handle_transfer_block ◌>>=◌
handle_transfer_block-IsValid =
    search (transfer_rules, Keeps-select_port, Keeps-read_block, Keeps-write_block, Keeps-end_block)
      depth 60

pub handle_write_abort-IsValid : Keeps IsValid handle_write_abort
unfolding handle_write_abort
handle_write_abort-IsValid = search (transfer_rules, Keeps-select_port) depth 40

pub handle_transfer_abort-IsValid : Keeps IsValid handle_transfer_abort
unfolding handle_transfer_abort
handle_transfer_abort-IsValid = Keeps-pure _

Keeps-set_idle :
    (n : ℕ)
    → Keeps IsValid (modify (λ d. record d { transfer = record (d.transfer) { idle_cycles = n } }))
Keeps-set_idle n = Keeps-modify _ (λ d h. ground arith)

Keeps-set_wait :
    (n : ℕ)
    → Keeps IsValid (modify (λ d. record d { transfer = record (d.transfer) { wait_retries = n } }))
Keeps-set_wait n = Keeps-modify _ (λ d h. ground arith)

Keeps-set_match :
    (n : ℕ)
    → Keeps IsValid
        (modify (λ d. record d { transfer = record (d.transfer) { match_retries = n } }))
Keeps-set_match n = Keeps-modify _ (λ d h. ground arith)

pub handle_transfer_configure-IsValid : Keeps IsValid handle_transfer_configure
unfolding handle_transfer_configure
handle_transfer_configure-IsValid =
    search (dap_rules, Keeps-set_idle, Keeps-set_wait, Keeps-set_match) depth 40
