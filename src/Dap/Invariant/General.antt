-- ===== src/Dap/Invariant/General.antt =====
-- The commands of firmware/src/dap/commands_general.c keep the driver well-formed.
use riceprobe.Base.{
  ℕ, zero, suc, ◌+◌, ◌/◌, ◌≡◌, refl, arith, Bool, true, false, List, ◌==◌, leb, length, Bool-cases,
  inl, inr,
}
use riceprobe.Nvs.{Nvs, get_serial_number}
use riceprobe.Errno
use riceprobe.Errno.{einval}
use riceprobe.Zephyr.{gpio_get, nreset, wait_us, expired, timer_start, timer_stop}
use riceprobe.Zephyr.Prog.{◌>>=◌, modify, fail, Server, run, Outcome}
use riceprobe.Zephyr.Always.{
  Takes, Always-after, Always-mono, Always-run, Keeps, Keeps-if, Keeps-gets, Keeps-fail,
  Keeps-modify, Keeps-bind, Keeps-after, Keeps-elim, Keeps-stop, Keeps-ask, Keeps-pure,
}
use riceprobe.Dap.{Driver}
use riceprobe.Dap.General.{
  Config, size_of, respond_string, respond_serial, handle_info, host_connected, host_running,
  handle_host_status, connect_swd, connect_jtag, handle_connect, handle_disconnect, handle_delay,
  handle_reset_target, settle, read_pins, handle_swj_pins, handle_swj_clock, swj_bits,
  handle_swj_sequence,
}
use riceprobe.Dap.Invariant.{
  IsValid, dap_rules, Keeps-get_u8, Keeps-ring_get_le32, Keeps-respond, Keeps-set_pin, Keeps-delay,
}
use riceprobe.Dap.Swo.{capture_control}
use riceprobe.Dap.Invariant.Swo.{IsQuiet, capture_control-off}

module _ {P : Driver → Type 0} where
  Keeps-respond_string : (len : ℕ) (text : List ℕ) → Keeps P (respond_string len text)
  unfolding respond_string ◌>>=◌
  Keeps-respond_string len text = search dap_rules depth 20

  Keeps-respond_serial : (config : Config) (nvs : Nvs) → Keeps P (respond_serial config nvs)
  unfolding respond_serial
  Keeps-respond_serial config nvs =
      elim (get_serial_number nvs (length config.serial_format))
        as (λ r. Keeps P (elim r [
          | Errno.err e ↦ fail einval
          | Errno.ok serial ↦ respond_string (size_of config.serial_format) serial
        ])) [ Errno.err e ↦ Keeps-fail _ | Errno.ok serial ↦ Keeps-respond_string _ _ ]

  pub Keeps-handle_info : (config : Config) (nvs : Nvs) → Keeps P (handle_info config nvs)
  unfolding handle_info
  Keeps-handle_info config nvs =
      search (dap_rules, Keeps-respond_string, Keeps-respond_serial) depth 60

  pub Keeps-handle_delay : Keeps P handle_delay
  unfolding handle_delay ◌>>=◌
  Keeps-handle_delay = search dap_rules depth 20

  pub Keeps-handle_reset_target : Keeps P handle_reset_target
  unfolding handle_reset_target
  Keeps-handle_reset_target = search dap_rules depth 20

  Keeps-settle : (left until bits : ℕ) → Keeps P (settle left until bits)
  unfolding settle
  Keeps-settle zero until bits = Keeps-stop _
  Keeps-settle (suc left) until bits = Keeps-bind (Keeps-ask (gpio_get nreset)) (λ level.
      Keeps-elim _
        (Keeps-bind (Keeps-ask (wait_us 1)) (λ _.
          Keeps-bind (Keeps-ask (expired until))
            (λ over. Keeps-elim over (Keeps-pure _) (Keeps-settle left until bits))))
        (Keeps-pure _))

  Keeps-read_pins : Keeps P read_pins
  unfolding read_pins
  Keeps-read_pins = search dap_rules depth 20

  pub Keeps-handle_swj_pins : Keeps P handle_swj_pins
  unfolding handle_swj_pins
  Keeps-handle_swj_pins = search (dap_rules, Keeps-settle, Keeps-read_pins) depth 60

Keeps-swj_bits : {P : Driver → Type 0} (left i bits : ℕ) → Keeps P (swj_bits left i bits)
unfolding swj_bits
Keeps-swj_bits zero i bits = Keeps-pure _
Keeps-swj_bits (suc left) i bits = Keeps-bind (Keeps-if _ Keeps-get_u8 (Keeps-pure _)) (λ now.
    Keeps-bind (Keeps-set_pin _ _) (λ _. Keeps-bind (Keeps-set_pin _ _) (λ _.
      Keeps-bind Keeps-delay (λ _.
        Keeps-bind (Keeps-set_pin _ _)
          (λ _. Keeps-bind Keeps-delay (λ _. Keeps-swj_bits left (i + 1) (now / 2)))))))

pub Keeps-handle_swj_sequence : {P : Driver → Type 0} → Keeps P handle_swj_sequence
unfolding handle_swj_sequence
Keeps-handle_swj_sequence = search (dap_rules, Keeps-swj_bits) depth 20

Keeps-set_connected :
    (on : Bool) → Keeps IsValid (modify (λ d. record d { led = record (d.led) { connected = on } }))
Keeps-set_connected on = Keeps-modify _ (λ d h. ground arith)

Keeps-set_running :
    (on : Bool) → Keeps IsValid (modify (λ d. record d { led = record (d.led) { running = on } }))
Keeps-set_running on = Keeps-modify _ (λ d h. ground arith)

Keeps-host_connected : (on : Bool) → Keeps IsValid (host_connected on)
unfolding host_connected
Keeps-host_connected on = search (dap_rules, Keeps-set_connected) depth 20

Keeps-host_running : (on : Bool) → Keeps IsValid (host_running on)
unfolding host_running
Keeps-host_running true = Keeps-bind (Keeps-set_running _) (λ _. Keeps-ask timer_start)
Keeps-host_running false = Keeps-bind (Keeps-set_running _) (λ _.
    Keeps-bind (Keeps-ask timer_stop) (λ _. Keeps-bind (Keeps-gets _) (λ lit. Keeps-set_pin _ _)))

pub handle_host_status-IsValid : Keeps IsValid handle_host_status
unfolding handle_host_status
handle_host_status-IsValid = search (dap_rules, Keeps-host_connected, Keeps-host_running) depth 40

Keeps-set_port :
    (port : ℕ)
    → leb port 2 ≡ true
    → Keeps IsQuiet (modify (λ d. record d { swj = record (d.swj) { port = port } }))
Keeps-set_port port e = Keeps-modify _ (λ d q. ground arith)

Keeps-set_port_0 : Keeps IsQuiet (modify (λ d. record d { swj = record (d.swj) { port = 0 } }))
Keeps-set_port_0 = Keeps-set_port 0 refl

Keeps-set_port_1 : Keeps IsQuiet (modify (λ d. record d { swj = record (d.swj) { port = 1 } }))
Keeps-set_port_1 = Keeps-set_port 1 refl

Keeps-set_port_2 : Keeps IsQuiet (modify (λ d. record d { swj = record (d.swj) { port = 2 } }))
Keeps-set_port_2 = Keeps-set_port 2 refl

ruleset port_rules = (dap_rules, Keeps-set_port_0, Keeps-set_port_1, Keeps-set_port_2)

Keeps-connect_swd : Keeps IsValid connect_swd
unfolding connect_swd
Keeps-connect_swd =
    Keeps-after IsQuiet (λ d q. q.valid) capture_control-off (λ _. search port_rules depth 60)

Keeps-connect_jtag : Keeps IsValid connect_jtag
unfolding connect_jtag
Keeps-connect_jtag =
    Keeps-after IsQuiet (λ d q. q.valid) capture_control-off (λ _. search port_rules depth 60)

pub handle_connect-IsValid : Keeps IsValid handle_connect
unfolding handle_connect
handle_connect-IsValid = search (dap_rules, Keeps-connect_swd, Keeps-connect_jtag) depth 40

handle_disconnect-stops : Takes IsValid IsQuiet handle_disconnect
unfolding handle_disconnect
handle_disconnect-stops = record {
  at = λ d h.
      Always-after IsQuiet (capture_control false) _ d (λ t q. q) (capture_control-off.at d h)
        (λ _. search port_rules depth 60);
}

pub handle_disconnect-IsValid : Keeps IsValid handle_disconnect
handle_disconnect-IsValid = record {
  at = λ d h.
      Always-mono _ _ (handle_disconnect d) (λ x q. q.valid) (handle_disconnect-stops.at d h);
}

-- The disconnect command ends the capture of SWO data: from a well-formed driver, whatever any server
-- answers and however the command ends, nothing is captured afterwards and the driver is well-formed.
pub handle_disconnect-IsQuiet :
    {W : Type 0} (server : Server W) (d : Driver) (w : W)
    → IsValid d
    → IsQuiet (run server (handle_disconnect d) w).0.1
handle_disconnect-IsQuiet server d w h =
    Always-run (λ (x : Outcome (Unit {0}) × Driver). IsQuiet x.1) server (handle_disconnect d) w
      (handle_disconnect-stops.at d h)

pub handle_swj_clock-IsValid : Keeps IsValid handle_swj_clock
unfolding handle_swj_clock
handle_swj_clock-IsValid = Keeps-bind Keeps-ring_get_le32 (λ clock. elim (Bool-cases (clock == 0)) [
  | inl e ↦ rw e (Keeps-respond _)
  | inr e ↦ rw e (Keeps-bind (Keeps-modify _ (λ d h. ground arith)) (λ _. Keeps-respond _))
])
