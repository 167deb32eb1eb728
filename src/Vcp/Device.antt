-- ===== src/Vcp/Device.antt =====
-- The state of the virtual COM port, its interrupt, and the callbacks of USB. What a function asks of the
-- UART, of the work queue and of USB is a list of effects, in order.
use riceprobe.Base.{
  ℕ, ◌-◌, ◌%◌, Bool, true, false, List, [], ◌∷◌, ◌++◌, length, ltb, ◌==◌, Option, none, some,
  if◌then◌else◌,
}
use riceprobe.Base.Int.{ℤ, pos, negsuc, is_negative}
use riceprobe.Errno.{enodev, Result, ok, err}
use riceprobe.Vcp.Fifo.{Ops}

-- `VCP_RING_BUF_SIZE`, `VCP_BULK_EP_MPS`.
abbrev pub ring_buf_size : ℕ
ring_buf_size = 1024

abbrev pub bulk_ep_mps : ℕ
bulk_ep_mps = 512

-- `struct vcp_data` and the two buffers of `struct vcp_config`.
pub record Vcp (R : Type 0) : Type 0 where
  pub configured : Bool
  pub rx : R
  pub tx : R

-- `uart_irq_rx_enable` and so on, `k_work_submit`, the loop around `k_work_cancel` until the work is idle,
-- `uart_configure` with 115200 8N1, `sys_slist_append` of the device to `vcp_devlist`,
-- `uart_irq_callback_user_data_set` with `vcp_uart_isr`, and `usb_transfer` from and to the host with a size.
pub data Effect : Type 0 where
  rx_enable rx_disable tx_enable tx_disable work_submit work_cancel configure_default : Effect
  list_append callback_set : Effect
  start_write start_read : ℕ → Effect

-- What a part of the interrupt does: the loop goes on, the loop ends, or `k_oops()`.
pub data Part (R : Type 0) : Type 0 where
  goes_on : Vcp R → List Effect → Part R
  stops : Vcp R → List Effect → Part R
  fatal : Part R

abbrev is_zero : ℤ → Bool
is_zero (pos n) = n == 0
is_zero (negsuc n) = false

-- A read that fails gives nothing.
abbrev pub bytes_of : Result (List ℕ) → List ℕ
bytes_of (ok bytes) = bytes
bytes_of (err e) = []

abbrev pub count_of : ℤ → ℕ
count_of (pos n) = n
count_of (negsuc n) = 0

-- The size of a transfer is no multiple of the packet size.
abbrev pub transfer_size : ℕ → ℕ
transfer_size size = if size % bulk_ep_mps == 0 then size - 1 else size

-- The status codes of USB.
pub data Status : Type 0 where
  usb_error usb_reset usb_configured usb_disconnected usb_other : Status

-- What the UART answers in a round of the interrupt: whether it has data and what a read gives, whether
-- it can send and how many bytes it takes.
pub record Round : Type 0 where
  pub rx_ready : Bool
  pub read : ℕ → Result (List ℕ)
  pub tx_ready : Bool
  pub fill : List ℕ → ℤ

module _ {R : Type 0} where
  unfoldable pub with_effects : List Effect → Part R → Part R
  with_effects effects (goes_on d more) = goes_on d (effects ++ more)
  with_effects effects (stops d more) = stops d (effects ++ more)
  with_effects effects fatal = fatal

  unfoldable pub and_then : Part R → (Vcp R → Part R) → Part R
  unfolding with_effects
  and_then (goes_on d effects) k = with_effects effects (k d)
  and_then (stops d effects) k = stops d effects
  and_then fatal k = fatal

module _ {R : Type 0} (ops : Ops R) where
  -- `vcp_is_configured`
  abbrev pub is_configured : Vcp R → Bool
  is_configured d = d.configured

  -- `vcp_configure`
  unfoldable pub configure : Vcp R → Vcp R × List Effect
  configure d = elim d.configured [
    | true ↦ (d, [])
    | false ↦
        (record { configured = true; rx = ops.reset d.rx; tx = ops.reset d.tx }, rx_enable ∷ [])
  ]

  -- `vcp_reset`
  unfoldable pub reset : Vcp R → Vcp R × List Effect
  reset d = (
    record { configured = false; rx = ops.reset d.rx; tx = ops.reset d.tx },
    rx_disable ∷ tx_disable ∷ work_cancel ∷ configure_default ∷ [],
  )

  -- `vcp_init`, with whether the UART is ready; what it returns then is the status of the last effect.
  unfoldable pub init : Bool → Vcp R → Result (Vcp R × List Effect)
  unfolding reset
  init false d = err enodev
  init true d =
      let (d', effects) = reset d in
      ok (d', list_append ∷ rx_disable ∷ tx_disable ∷ callback_set ∷ effects)

  -- `FATAL_CHECK` on the status of a finish.
  unfoldable pub checked : ℤ → Vcp R → List Effect → Part R
  checked status d effects = if is_zero status then goes_on d effects else fatal

  unfoldable pub keep_read : Vcp R → ℕ → R → List ℕ → Part R
  unfolding checked
  keep_read d at rx bytes =
      let (status, rx') = ops.put_finish (ops.store rx at bytes) (length bytes) in
      checked status (record d { rx = rx' }) (work_submit ∷ [])

  -- `vcp_uart_isr` where data was received: what the UART gives is put behind what waits for the host.
  unfoldable pub rx_part : (ℕ → Result (List ℕ)) → Vcp R → Part R
  unfolding keep_read
  rx_part read d =
      let ((space, at), rx) = ops.put_claim d.rx ring_buf_size in
      elim (space == 0) [
        | true ↦ stops (record d { rx = rx }) []
        | false ↦ keep_read d at rx (bytes_of (read space))
      ]

  -- `vcp_uart_isr` where the UART can send: how many bytes it takes is its answer.
  unfoldable pub tx_part : (List ℕ → ℤ) → Vcp R → Part R
  unfolding checked
  tx_part fill d =
      let (avail, tx) = ops.get_claim d.tx ring_buf_size in
      elim (length avail == 0) [
        | true ↦ goes_on (record d { tx = tx }) (tx_disable ∷ [])
        | false ↦
            (let (status, tx') = ops.get_finish tx (count_of (fill avail)) in
              checked status (record d { tx = tx' }) [])
      ]

  -- The loop of `vcp_uart_isr`, with a round for each time that an interrupt is pending.
  unfoldable pub vcp_uart_isr : List Round → Vcp R → Part R
  unfolding and_then rx_part tx_part
  vcp_uart_isr [] d = goes_on d []
  vcp_uart_isr (r ∷ rs) d =
      and_then (if r.rx_ready then rx_part r.read d else goes_on d [])
        (λ d'. and_then (if r.tx_ready then tx_part r.fill d' else goes_on d' []) (vcp_uart_isr rs))

  -- `usb_work_handler`, with whether a transfer to the host goes on: the size of the one it starts.
  unfoldable pub work_handler : Bool → Vcp R → Vcp R × Option ℕ
  work_handler true d = (d, none)
  work_handler false d =
      let (shown, rx) = ops.get_claim d.rx ring_buf_size in
      (
        record d { rx = rx },
        (if length shown == 0 then none else some (transfer_size (length shown))),
      )

  -- `vcp_usb_write_cb`, with the number of bytes that went to the host.
  unfoldable pub write_cb : ℕ → Vcp R → Vcp R × List Effect
  write_cb size d =
      let (status, rx) = ops.get_finish d.rx size in
      (
        record d { rx = rx },
        (if is_negative status then [] else if ops.is_empty rx then [] else work_submit ∷ []),
      )

  -- `vcp_usb_read_cb`, with the number of bytes that came from the host.
  unfoldable pub read_cb : ℕ → Vcp R → Vcp R × List Effect
  read_cb size d =
      let (status, tx) = ops.put_finish d.tx size in
      let finished = if ltb 0 size then tx else d.tx in
      let ((space, at), tx') = ops.put_claim finished ring_buf_size in
      (
        record d { tx = tx' },
        (if ltb 0 size then (if is_negative status then [] else tx_enable ∷ []) else [])
            ++ (start_read space ∷ []),
      )

  -- `vcp_usb_status_cb` for an interface that has a device.
  unfoldable pub status_cb : Status → Vcp R → Vcp R × List Effect
  unfolding configure reset read_cb
  status_cb usb_error d = (d, [])
  status_cb usb_reset d = reset d
  status_cb usb_configured d = elim d.configured [
    | true ↦ (d, [])
    | false ↦
        (let (d', effects) = configure d in
          let (d'', more) = read_cb 0 d' in (d'', effects ++ more))
  ]
  status_cb usb_disconnected d = reset d
  status_cb usb_other d = (d, [])
