-- ===== src/Dap/Transfer.antt =====
-- firmware/src/dap/commands_transfer.c: the commands that transfer single words, and the parameters of
-- transfers.
pub mod Port
pub mod Block
use riceprobe.Base.{
  ℕ, zero, suc, ◌+◌, ◌%◌, Bool, true, false, not, ◌&&◌, ◌||◌, List, [], ◌∷◌, bit_and, bit_or, leb,
  ◌==◌, ◌/=◌, if◌then◌else◌,
}
use riceprobe.Base.Int.{is_negative}
use riceprobe.Errno.{enobufs}
use riceprobe.Zephyr.{request, response, buf_put_claim, buf_put_finish, buf_store}
use riceprobe.Zephyr.Prog.{M, pure, ask, gets, modify, require, when, ◌>>=◌, ◌>>◌}
use riceprobe.Dap.{
  Driver, TransferState, Action, port_disabled, port_jtag, port_swd, response_ok, response_error,
  get_u8, get_u32, ring_get_le16, ring_get_le32, ring_put_le32, respond,
}
use Port.{
  ir_abort, ir_dpacc, ir_apacc, ack_ok, value_mismatch, is_ap, is_read, is_match_value,
  is_match_mask, read_rdbuff, port_transfer, port_set_ir, port_force_ir,
}

abbrev set_transfer : (TransferState → TransferState) → Action (Unit {0})
set_transfer f = modify (λ d. record d { transfer = f d.transfer })

-- `dap_handle_cmd_transfer_configure`
unfoldable pub handle_transfer_configure : Action (Unit {0})
handle_transfer_configure = do
  idle ← get_u8
  set_transfer (λ t. record t { idle_cycles = idle })
  wait ← ring_get_le16
  set_transfer (λ t. record t { wait_retries = wait })
  match ← ring_get_le16
  set_transfer (λ t. record t { match_retries = match })
  respond (0x04 ∷ response_ok ∷ [])

-- The local variables of `dap_handle_cmd_transfer`.
pub record Progress : Type 0 where
  pub ack : ℕ
  pub word : ℕ
  pub last_ir : ℕ
  pub read_pending : Bool
  pub ack_pending : Bool
  pub completed : ℕ

-- The instruction that a request wants, and whether a word follows it in the command.
abbrev pub request_ir : ℕ → ℕ
request_ir req = if is_ap req then ir_apacc else ir_dpacc

abbrev pub has_word : ℕ → Bool
has_word req = not (is_read req) || is_match_value req

-- What one part of a round leaves: whether the loop goes on to the next part (`break` if not).
abbrev pub Step : Type 0
Step = Bool × Progress

-- `port_set_ir` and `port_transfer` on the local variables.
unfoldable pub transfer_with : ℕ → ℕ → Progress → Action Progress
unfolding port_set_ir port_transfer
transfer_with ir req p = do
  last ← port_set_ir p.last_ir ir
  (ack, word) ← port_transfer req p.word
  pure (record p { ack = ack; word = word; last_ir = last })

-- The read that an earlier round posted. Its value goes to the end of the REQUEST buffer.
unfoldable pub collect_read : Progress → Action Step
unfolding transfer_with
collect_read p = do
  p' ← transfer_with ir_dpacc read_rdbuff p
  if p'.ack /= ack_ok
      then pure (false, record p' { read_pending = false })
      else (do ring_put_le32 request p'.word; pure (true, record p' { read_pending = false }))

-- The loop that reads until a value matches, with the rounds left.
unfoldable pub match_loop : ℕ → ℕ → ℕ → Progress → Action Progress
match_loop zero req value p = pure p
match_loop (suc left) req value p = do
  (ack, word) ← port_transfer req p.word
  mask ← gets (λ d. d.transfer.match_mask)
  let p' = record p { ack = ack; word = word }
  elim (ack /= ack_ok || bit_and word mask == value) [
    | true ↦ pure p'
    | false ↦ match_loop left req value p'
  ]

-- A read with a match value, once the read has been posted.
unfoldable pub read_until_match : ℕ → ℕ → Progress → Action Step
unfolding match_loop
read_until_match req value p = do
  retries ← gets (λ d. d.transfer.match_retries)
  p' ← match_loop (retries + 1) req value p
  mask ← gets (λ d. d.transfer.match_mask)
  let ack = if bit_and p'.word mask /= value then bit_or p'.ack value_mismatch else p'.ack
  pure (ack == ack_ok, record p' { ack = ack })

unfoldable pub read_match : ℕ → Progress → Action Step
unfolding read_until_match transfer_with
read_match req p = do
  port ← gets (λ d. d.swj.port)
  if port == port_jtag || is_ap req
      then (do
        p' ← transfer_with (request_ir req) req p
        if p'.ack /= ack_ok then pure (false, p') else read_until_match req p.word p')
      else (do
        last ← port_set_ir p.last_ir (request_ir req)
        read_until_match req p.word (record p { last_ir = last }))

-- A plain read: a debug port read over SWD has its value at once, any other one posts it.
unfoldable pub read_plain : ℕ → Progress → Action Step
unfolding transfer_with
read_plain req p = do
  p' ← transfer_with (request_ir req) req p
  port ← gets (λ d. d.swj.port)
  if p'.ack /= ack_ok
      then pure (false, p')
      else if port == port_swd && not (is_ap req)
      then (do ring_put_le32 request p'.word; pure (true, p'))
      else pure (true, record p' { read_pending = true })

unfoldable pub write_word : ℕ → Progress → Action Step
unfolding transfer_with
write_word req p =
    if is_match_mask req
    then (do
      set_transfer (λ t. record t { match_mask = p.word })
      pure (true, record p { ack = ack_ok }))
    else (do
      p' ← transfer_with (request_ir req) req p
      pure (if p'.ack /= ack_ok then (false, p') else (true, record p' { ack_pending = true })))

-- What a request does once the pending read is collected.
unfoldable pub perform : ℕ → Progress → Action Step
unfolding read_match read_plain write_word
perform req p =
    if is_read req
    then (do
      (on, p') ← (if is_match_value req then read_match req p else read_plain req p)
      pure (if on then (true, record p' { ack_pending = false }) else (false, p')))
    else write_word req p

-- One round of the loop of `dap_handle_cmd_transfer`. `completed` is a `uint8_t`.
unfoldable pub transfer_round : Progress → Action Step
unfolding collect_read perform
transfer_round p = do
  req ← get_u8
  word ← (if has_word req then ring_get_le32 else pure p.word)
  let q = record p { word = word }
  (on, q') ← (if q.read_pending then collect_read q else pure (true, q))
  if on
      then (do
        (done, r) ← perform req q'
        pure
            (if done then (true, record r { completed = (r.completed + 1) % 256 }) else (false, r)))
      else pure (false, q')

-- The loop: how many requests are left when it ends, and the local variables.
unfoldable pub transfer_loop : ℕ → Progress → Action (ℕ × Progress)
transfer_loop zero p = pure (zero, p)
transfer_loop (suc left) p = do
  (on, p') ← transfer_round p
  elim on [ true ↦ transfer_loop left p' | false ↦ pure (left, p') ]

-- The bytes of the requests that were not served.
unfoldable pub skip_requests : ℕ → Action (Unit {0})
skip_requests zero = pure tt
skip_requests (suc left) = do
  req ← get_u8
  when (has_word req) (do _ ← get_u32; pure tt)
  skip_requests left

-- The last read, for a pending value and for the ack of a write.
unfoldable pub finish_transfer : ℕ → Progress → Action (Unit {0})
unfolding transfer_with
finish_transfer at p = when (p.ack == ack_ok && (p.read_pending || p.ack_pending)) (do
  p' ← transfer_with ir_dpacc read_rdbuff p
  when (p'.ack == ack_ok && p.read_pending) (ring_put_le32 request p'.word)
  ask (buf_store response at (p'.ack ∷ [])))

-- The code from the label `end` on.
unfoldable pub end_transfer : ℕ → ℕ → ℕ → Progress → Action (Unit {0})
unfolding skip_requests finish_transfer
end_transfer count_at ack_at left p = do
  ask (buf_store response count_at (p.completed ∷ []))
  ask (buf_store response ack_at (p.ack ∷ []))
  skip_requests left
  finish_transfer ack_at p

-- `if (index >= dap->jtag.count) goto end; dap->jtag.index = index;` and the test of the port before
-- it: whether the command goes on.
unfoldable pub select_port : ℕ → Action Bool
select_port index = do
  port ← gets (λ d. d.swj.port)
  count ← gets (λ d. d.jtag.count)
  if port == port_disabled
      then pure false
      else if port == port_jtag
      then (if leb count index
          then pure false
          else (do modify (λ d. record d { jtag = record (d.jtag) { index = index } }); pure true))
      else pure true

abbrev pub start : Progress
start = record {
  ack = 0;
  word = 0;
  last_ir = 0;
  read_pending = false;
  ack_pending = false;
  completed = 0;
}

-- `dap_handle_cmd_transfer`
unfoldable pub handle_transfer : Action (Unit {0})
unfolding transfer_loop transfer_round end_transfer select_port
handle_transfer = do
  respond (0x05 ∷ [])
  (count_size, count_at) ← ask (buf_put_claim response 1)
  require (count_size == 1) enobufs
  (ack_size, ack_at) ← ask (buf_put_claim response 1)
  require (ack_size == 1) enobufs
  ret ← ask (buf_put_finish response 2)
  require (not (is_negative ret)) enobufs
  index ← get_u8
  count ← get_u8
  selected ← select_port index
  (left, p) ← (if selected then transfer_loop count start else pure (count, start))
  end_transfer count_at ack_at left p

-- `dap_handle_cmd_transfer_abort`
unfoldable pub handle_transfer_abort : Action (Unit {0})
handle_transfer_abort = pure tt

-- `dap_handle_cmd_write_abort`
unfoldable pub handle_write_abort : Action (Unit {0})
unfolding select_port port_force_ir port_transfer
handle_write_abort = do
  index ← get_u8
  word ← ring_get_le32
  selected ← select_port index
  if selected
      then (do port_force_ir ir_abort; _ ← port_transfer 0 word; respond (0x08 ∷ response_ok ∷ []))
      else respond (0x08 ∷ response_error ∷ [])
