-- ===== src/Dap/Transfer/Block.antt =====
-- firmware/src/dap/commands_transfer.c: `dap_handle_cmd_transfer_block`, many words at one address.
use riceprobe.Base.{
  ℕ, zero, suc, ◌+◌, ◌*◌, ◌%◌, Bool, true, false, not, ◌&&◌, ◌||◌, [], ◌∷◌, length, ltb, ◌==◌, ◌/=◌,
  if◌then◌else◌,
}
use riceprobe.Base.Int.{is_negative}
use riceprobe.Base.Bits.{le16, le32}
use riceprobe.Errno.{emsgsize, enobufs}
use riceprobe.Zephyr.{
  request, response, buf_get_claim, buf_get_finish, buf_put_claim, buf_put_finish, buf_store,
}
use riceprobe.Zephyr.Prog.{pure, ask, gets, require, when, ◌>>=◌, ◌>>◌}
use riceprobe.Dap.{Driver, Action, port_jtag, get_u8, get_u16, get_u32, respond}
use riceprobe.Dap.Transfer.{request_ir, select_port}
use riceprobe.Dap.Transfer.Port.{
  ir_dpacc, ack_ok, is_ap, is_read, read_rdbuff, port_transfer, port_set_ir, port_force_ir,
}

-- The local variables that change: the request, as the last read replaces it, and the instruction.
pub record Progress : Type 0 where
  pub ack : ℕ
  pub word : ℕ
  pub req : ℕ
  pub ir : ℕ
  pub completed : ℕ

-- A transfer of `p.req`.
unfoldable pub transfer_next : Progress → Action Progress
unfolding port_transfer
transfer_next p = do
  (ack, word) ← port_transfer p.req p.word
  pure (record p { ack = ack; word = word })

-- Whether reads are posted: over JTAG, and from an access port.
abbrev pub is_posted : Driver → ℕ → Bool
is_posted d req = (d.swj.port == port_jtag) || is_ap req

-- The last read of a posted block is one of RDBUFF.
unfoldable pub turn_to_rdbuff : Progress → Action Progress
unfolding port_set_ir
turn_to_rdbuff p = do ir ← port_set_ir p.ir ir_dpacc; pure (record p { ir = ir; req = read_rdbuff })

-- The loop of a read: how many words are left when it ends, and the local variables.
unfoldable pub read_loop : ℕ → Progress → Action (ℕ × Progress)
read_loop zero p = pure (zero, p)
read_loop (suc left) p = do
  posted ← gets (λ d. is_posted d p.req)
  q ← (if left == 0 && posted then turn_to_rdbuff p else pure p)
  r ← transfer_next q
  elim (r.ack /= ack_ok) [
    | true ↦ pure (left, r)
    | false ↦ do
      respond (le32 r.word)
      read_loop left (record r { completed = (r.completed + 1) % 0x10000 })
  ]

-- The loop of a write.
unfoldable pub write_loop : ℕ → Progress → Action (ℕ × Progress)
write_loop zero p = pure (zero, p)
write_loop (suc left) p = do
  word ← get_u32
  r ← transfer_next (record p { word = word })
  elim (r.ack /= ack_ok) [
    | true ↦ pure (left, r)
    | false ↦ write_loop left (record r { completed = (r.completed + 1) % 0x10000 })
  ]

unfoldable pub read_block : ℕ → Progress → Action (ℕ × Progress)
unfolding read_loop transfer_next turn_to_rdbuff
read_block count p = do
  posted ← gets (λ d. is_posted d p.req)
  q ← (if posted then transfer_next p else pure p)
  if posted && q.ack /= ack_ok then pure (count, q) else read_loop count q

-- A write whose last word was taken ends by a read of RDBUFF, for the ack of that word.
unfoldable pub write_block : ℕ → Progress → Action (ℕ × Progress)
unfolding write_loop transfer_next turn_to_rdbuff
write_block count p = do
  (left, q) ← write_loop count p
  if ltb 0 count && q.ack /= ack_ok
      then pure (left, q)
      else (do q' ← turn_to_rdbuff q; r ← transfer_next q'; pure (left, r))

-- The code from the label `end` on. `count * 4` is stored in a `uint16_t`.
unfoldable pub end_block : ℕ → ℕ → ℕ → Progress → Action (Unit {0})
end_block count_at ack_at left p = do
  ask (buf_store response count_at (le16 p.completed))
  ask (buf_store response ack_at (p.ack ∷ []))
  when (ltb 0 left && not (is_read p.req)) (do
    let remaining = left * 4 % 0x10000
    xs ← ask (buf_get_claim request remaining)
    require (length xs == remaining) emsgsize
    ret ← ask (buf_get_finish request remaining)
    require (not (is_negative ret)) emsgsize)

abbrev pub start : ℕ → Progress
start req = record { ack = 0; word = 0; req = req; ir = request_ir req; completed = 0 }

-- `dap_handle_cmd_transfer_block`
unfoldable pub handle_transfer_block : Action (Unit {0})
unfolding read_block write_block end_block select_port port_force_ir
handle_transfer_block = do
  respond (0x06 ∷ [])
  (count_size, count_at) ← ask (buf_put_claim response 2)
  require (count_size == 2) enobufs
  (ack_size, ack_at) ← ask (buf_put_claim response 1)
  require (ack_size == 1) enobufs
  ret ← ask (buf_put_finish response 3)
  require (not (is_negative ret)) enobufs
  index ← get_u8
  count ← get_u16
  req ← get_u8
  let p = start req
  selected ← select_port index
  (left, q) ←
      (if selected
        then (do
          port_force_ir (request_ir req)
          if is_read req then read_block count p else write_block count p)
        else pure (count, p))
  end_block count_at ack_at left q
