-- ===== src/Dap/Invariant/Swo.antt =====
-- The commands of firmware/src/dap/commands_swo.c keep the driver well-formed.
use riceprobe.Base.{
  ℕ, zero, suc, ◌<◌, ◌≡◌, arith, true, false, leb, ◌&&◌, ◌||◌, ◌==◌, ◌/=◌, Bool-cases, inl, inr,
}
use riceprobe.Zephyr.Prog.{◌>>=◌, when, modify, Outcome}
use riceprobe.Zephyr.Always.{
  Keeps, Takes, Keeps-elim, Keeps-stop, Keeps-ask, Keeps-pure, Always-read, Always-mono,
  keeps_rules, Keeps-gets, Keeps-modify, Keeps-bind, Keeps-read, Always, Always-after,
}
use riceprobe.Zephyr.{buf_size, buf_space, swo, response}
use riceprobe.Dap.{Driver, port_swd}
use riceprobe.Dap.Swo.{
  capture_control, set_mode, set_capture, handle_swo_transport, handle_swo_mode,
  handle_swo_baudrate, handle_swo_control, handle_swo_status, handle_swo_extended_status,
  handle_swo_data, move_swo, move_swo_loop,
}
use riceprobe.Dap.Invariant.{IsValid, dap_rules, Keeps-get_u8, Keeps-respond}

-- Nothing is captured.
pub record IsQuiet (d : Driver) : Type 0 where
  pub valid : IsValid d
  pub quiet : d.swo.capture ≡ false

-- Capture off: the driver is quiet afterwards.
pub capture_control-off : Takes IsValid IsQuiet (capture_control false)
unfolding capture_control ◌>>=◌
capture_control-off = record { at = λ d h _ _. ground arith }

-- The old mode's capture ends before the mode changes.
when-IsQuiet :
    (d : Driver)
    → IsValid d
    → Always
        (λ (x : Outcome (Unit {0}) × Driver). IsQuiet x.1)
        (when (d.swo.mode == 1) (capture_control false) d)
unfolding when ◌>>=◌
when-IsQuiet d h = elim (Bool-cases (d.swo.mode == 1)) [
  | inl e ↦ rw e (capture_control-off.at d h)
  | inr e ↦ rw e (record { valid = h; quiet = not_uart e })
]
  where
    not_uart : (d.swo.mode == 1) ≡ false → d.swo.capture ≡ false
    not_uart e = elim (h.captured) [ inl q ↦ q | inr q ↦ ground arith ]

set_mode-IsValid :
    (mode : ℕ) (d : Driver)
    → mode < 2
    → IsValid d
    → Always (λ (x : Outcome (Unit {0}) × Driver). IsValid x.1) (set_mode mode d.swo.mode d)
unfolding set_mode
set_mode-IsValid mode d small h =
    Always-after IsQuiet (when (d.swo.mode == 1) (capture_control false)) _ d (λ t q. q.valid)
      (when-IsQuiet d h)
      (λ _. Keeps-bind (Keeps-modify _ (λ t q. ground arith)) (λ _. Keeps-respond _))

pub handle_swo_mode-IsValid : Keeps IsValid handle_swo_mode
unfolding handle_swo_mode
handle_swo_mode-IsValid = Keeps-bind Keeps-get_u8 (λ mode. Keeps-bind (Keeps-gets _) (λ port.
    Keeps-read _ _ (λ d h. elim (Bool-cases (port /= 2 || leb 2 mode)) [
      | inl e ↦ rw e ((Keeps-respond _).at d h)
      | inr e ↦ rw e (set_mode-IsValid mode d (ground arith) h)
    ])))

capture_control-on :
    (d : Driver)
    → d.swo.mode ≡ 1
    → d.swj.port ≡ 2
    → IsValid d
    → Always (λ (x : Outcome (Unit {0}) × Driver). IsValid x.1) (capture_control true d)
unfolding capture_control ◌>>=◌
capture_control-on d mode port h = λ _ _ _. ground arith

set_capture-IsValid :
    (control : ℕ) (d : Driver)
    → ((control == 1) ≡ true → d.swo.mode ≡ 1)
    → d.swj.port ≡ 2
    → IsValid d
    → Always (λ (x : Outcome (Unit {0}) × Driver). IsValid x.1) (set_capture control d)
unfolding set_capture
set_capture-IsValid control d mode port h =
    Always-after IsValid (capture_control (control == 1)) _ d (λ t q. q) captured
      (λ _. Keeps-respond _)
  where
    captured :
        Always (λ (x : Outcome (Unit {0}) × Driver). IsValid x.1) (capture_control (control == 1) d)
    captured = elim (Bool-cases (control == 1)) [
      | inl e ↦ rw e (capture_control-on d (mode e) port h)
      | inr e ↦
          rw e (
            Always-mono _ _ (capture_control false d) (λ x q. q.valid) (capture_control-off.at d h))
    ]

pub handle_swo_control-IsValid : Keeps IsValid handle_swo_control
unfolding handle_swo_control
handle_swo_control-IsValid = Keeps-bind Keeps-get_u8 (λ control. Keeps-read _ _ (λ d h.
    Always-read _ _ _ d
      (elim (Bool-cases (d.swj.port /= port_swd || (control == 1 && d.swo.mode /= 1))) [
        | inl e ↦ rw e ((Keeps-respond _).at d h)
        | inr e ↦ rw e (set_capture-IsValid control d (λ one. ground arith) (ground arith) h)
      ])))

pub handle_swo_transport-IsValid : Keeps IsValid handle_swo_transport
unfolding handle_swo_transport
handle_swo_transport-IsValid = Keeps-bind Keeps-get_u8 (λ transport.
    elim (Bool-cases (transport == 1 || transport == 0)) [
      | inl e ↦ rw e (Keeps-bind (Keeps-modify _ (λ d h. ground arith)) (λ _. Keeps-respond _))
      | inr e ↦ rw e (Keeps-respond _)
    ])

Keeps-set_baudrate :
    (rate : ℕ) → Keeps IsValid (modify (λ d. record d { swo = record (d.swo) { baudrate = rate } }))
Keeps-set_baudrate rate = Keeps-modify _ (λ d h. ground arith)

pub handle_swo_baudrate-IsValid : Keeps IsValid handle_swo_baudrate
unfolding handle_swo_baudrate
handle_swo_baudrate-IsValid = search (dap_rules, Keeps-set_baudrate) depth 30

module _ {P : Driver → Type 0} where
  pub Keeps-handle_swo_status : Keeps P handle_swo_status
  unfolding handle_swo_status
  Keeps-handle_swo_status = search dap_rules depth 20

  pub Keeps-handle_swo_extended_status : Keeps P handle_swo_extended_status
  unfolding handle_swo_extended_status
  Keeps-handle_swo_extended_status = search dap_rules depth 24

  Keeps-move_swo : (max_count : ℕ) → Keeps P (move_swo max_count)
  unfolding move_swo ◌>>=◌
  Keeps-move_swo max_count = search keeps_rules depth 24

  Keeps-move_swo_loop : (fuel max_count count : ℕ) → Keeps P (move_swo_loop fuel max_count count)
  unfolding move_swo_loop
  Keeps-move_swo_loop zero max_count count = Keeps-stop _
  Keeps-move_swo_loop (suc fuel) max_count count = Keeps-bind (Keeps-move_swo max_count) (λ size.
      Keeps-bind (Keeps-ask (buf_size swo)) (λ left.
        Keeps-bind (Keeps-ask (buf_space response))
          (λ space. Keeps-elim _ (Keeps-move_swo_loop fuel max_count _) (Keeps-pure _))))

  pub Keeps-handle_swo_data : Keeps P handle_swo_data
  unfolding handle_swo_data ◌>>=◌
  Keeps-handle_swo_data = search (dap_rules, Keeps-move_swo_loop) depth 30
