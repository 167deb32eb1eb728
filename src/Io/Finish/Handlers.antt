-- ===== src/Io/Finish/Handlers.antt =====
-- The command handlers of the IO driver come to an end.
use riceprobe.Base.{
  ℕ, zero, suc, ◌+◌, Bool, not, ◌&&◌, List, [], ◌∷◌, Option, none, some, ◌==◌, ltb,
}
use riceprobe.Base.Int.{ℤ, is_negative}
use riceprobe.Errno.{Result}
use riceprobe.Errno
use riceprobe.Nvs.{Nvs}
use riceprobe.Zephyr.{
  Flag, gpios, gpio_configure, pin_write, buf_store, response, input, pull_up, pull_down,
  open_drain, output,
}
use riceprobe.Zephyr.Prog.{Server}
use riceprobe.Zephyr.Ends.{
  Laws, Ends, Ends-ask, Ends-bind, Ends-if, Ends-elim, Ends-pure, Ends-fail, Ends-gets, Ends-modify,
}
use riceprobe.Dap.General.{Config}
use riceprobe.Io.{Board, Action, PinFunction, func_gpio, response_eio}
use riceprobe.Io.General.{respond_text, respond_stored, info_of, handle_info, handle_delay}
use riceprobe.Io.Gpio.{
  has_flag, set_flags, configure_gpio, configure_known, handle_gpio_cfg, handle_gpio_caps,
  refuse_flags, requested_flags, or_eio, write_output, toggle_output, read_input, respond_value,
  handle_gpio_ctrl,
}
use riceprobe.Io.Pins.{
  list_functions, respond_functions, handle_pins_caps, input_gpios, write_gpio_pins, default_pins,
  handle_pins_default, gpio_flags, write_function, configure_function, handle_pins_cfg,
}
use riceprobe.Io.Finish.{finish_rules, Ends-respond, Ends-respond_status}
use riceprobe.Io.Finish.Wait.{Ends-wait_input}

module _ {W : Type 0} {server : Server W} {laws : Laws server} where
  Ends-respond_text :
      (finished : ℤ → Bool) (len : ℕ) (text : List ℕ)
      → Ends server laws (respond_text finished len text)
  unfolding respond_text
  Ends-respond_text finished len text = search finish_rules depth 20

  Ends-respond_stored : (len : ℕ) (r : Result (List ℕ)) → Ends server laws (respond_stored len r)
  unfolding respond_stored
  Ends-respond_stored len (Errno.ok text) = Ends-respond_text _ _ _
  Ends-respond_stored len (Errno.err e) = Ends-fail _

  pub Ends-handle_info :
      (board : Board) (config : Config) (nvs : Nvs)
      → Ends server laws (handle_info board config nvs)
  unfolding handle_info info_of
  Ends-handle_info board config nvs =
      search (finish_rules, Ends-respond_text, Ends-respond_stored) depth 40

  pub Ends-handle_delay : Ends server laws handle_delay
  unfolding handle_delay
  Ends-handle_delay = search finish_rules depth 20

  pub Ends-handle_gpio_caps : (board : Board) → Ends server laws (handle_gpio_caps board)
  unfolding handle_gpio_caps
  Ends-handle_gpio_caps board = search finish_rules depth 20

  Ends-refuse_flags : (len : ℕ) → Ends server laws (refuse_flags len)
  unfolding refuse_flags
  Ends-refuse_flags len = search finish_rules depth 20

  Ends-set_flags : (gpion : ℕ) (flags : List Flag) → Ends server laws (set_flags gpion flags)
  unfolding set_flags
  Ends-set_flags gpion flags = search finish_rules

  Ends-configure_gpio :
      (gpion : ℕ) (flags : List Flag) → Ends server laws (configure_gpio gpion flags)
  unfolding configure_gpio
  Ends-configure_gpio gpion flags =
      Ends-elim (has_flag pull_up flags && has_flag pull_down flags) (search finish_rules) (
        Ends-elim (has_flag open_drain flags && not (has_flag output flags)) (search finish_rules)
          (Ends-set_flags gpion flags))

  Ends-configure_known :
      (board : Board) (gpion flags : ℕ) → Ends server laws (configure_known board gpion flags)
  unfolding configure_known
  Ends-configure_known board gpion flags =
      Ends-elim (ltb board.gpios gpion) (search finish_rules)
        (Ends-configure_gpio gpion (requested_flags flags))

  pub Ends-handle_gpio_cfg : (board : Board) → Ends server laws (handle_gpio_cfg board)
  unfolding handle_gpio_cfg
  Ends-handle_gpio_cfg board =
      search (finish_rules, Ends-refuse_flags, Ends-configure_known) depth 40

  Ends-or_eio :
      (r : ℤ) {go : Action (Unit {0})} → Ends server laws go → Ends server laws (or_eio r go)
  unfolding or_eio
  Ends-or_eio r eg = search finish_rules

  Ends-write_output :
      (gpion cmd : ℕ) {go : Action (Unit {0})}
      → Ends server laws go
      → Ends server laws (write_output gpion cmd go)
  unfolding write_output
  Ends-write_output gpion cmd eg = search (finish_rules, Ends-or_eio)

  Ends-toggle_output :
      (gpion cmd : ℕ) {go : Action (Unit {0})}
      → Ends server laws go
      → Ends server laws (toggle_output gpion cmd go)
  unfolding toggle_output
  Ends-toggle_output gpion cmd eg = search (finish_rules, Ends-or_eio)

  Ends-read_input :
      (gpion cmd : ℕ) {go : ℕ → Action (Unit {0})}
      → ((x : ℕ) → Ends server laws (go x))
      → Ends server laws (read_input gpion cmd go)
  unfolding read_input
  Ends-read_input gpion cmd eg = search (finish_rules, Ends-or_eio)

  Ends-respond_value : (cmd x : ℕ) → Ends server laws (respond_value cmd x)
  unfolding respond_value
  Ends-respond_value cmd x = search finish_rules

  pub Ends-handle_gpio_ctrl : Ends server laws handle_gpio_ctrl
  unfolding handle_gpio_ctrl
  Ends-handle_gpio_ctrl =
      search
        (
          finish_rules, Ends-write_output, Ends-toggle_output, Ends-read_input, Ends-wait_input,
          Ends-respond_value,
        )
        depth 40

  Ends-list_functions :
      (at pin : ℕ) (fs : List PinFunction) (count : ℕ)
      → Ends server laws (list_functions at pin fs count)
  unfolding list_functions
  Ends-list_functions at pin [] count = Ends-pure _
  Ends-list_functions at pin (f ∷ fs) count =
      Ends-elim (f.pin == pin)
        (Ends-bind (Ends-respond _) (λ _.
          Ends-bind (Ends-ask (buf_store response at _) tt) (λ _. Ends-list_functions at pin fs _)))
        (Ends-list_functions at pin fs count)

  Ends-respond_functions : (pin : ℕ) → Ends server laws (respond_functions pin)
  unfolding respond_functions
  Ends-respond_functions pin = search (finish_rules, Ends-list_functions) depth 40

  pub Ends-handle_pins_caps : (board : Board) → Ends server laws (handle_pins_caps board)
  unfolding handle_pins_caps
  Ends-handle_pins_caps board = search (finish_rules, Ends-respond_functions) depth 40

  Ends-input_gpios : (i left : ℕ) → Ends server laws (input_gpios i left)
  unfolding input_gpios
  Ends-input_gpios i zero = Ends-pure _
  Ends-input_gpios i (suc left) =
      Ends-bind (Ends-ask (gpio_configure (gpios i) (input ∷ [])) tt)
        (λ r. Ends-elim (is_negative r) (Ends-pure _) (Ends-input_gpios (i + 1) left))

  Ends-write_gpio_pins : (fs : List PinFunction) → Ends server laws (write_gpio_pins fs)
  unfolding write_gpio_pins
  Ends-write_gpio_pins [] = Ends-pure _
  Ends-write_gpio_pins (f ∷ fs) =
      Ends-elim (f.function == func_gpio)
        (Ends-bind (Ends-ask (pin_write f.pinctrl) tt)
          (λ r. Ends-elim (is_negative r) (Ends-pure _) (Ends-write_gpio_pins fs)))
        (Ends-write_gpio_pins fs)

  Ends-default_pins : (board : Board) → Ends server laws (default_pins board)
  unfolding default_pins
  Ends-default_pins board = Ends-bind (Ends-input_gpios 0 board.gpios) (λ done.
      Ends-elim done (Ends-bind (Ends-gets (λ d. d.pinctrls)) (λ fs. Ends-write_gpio_pins fs))
        (Ends-pure _))

  pub Ends-handle_pins_default : (board : Board) → Ends server laws (handle_pins_default board)
  unfolding handle_pins_default
  Ends-handle_pins_default board = search (finish_rules, Ends-default_pins) depth 20

  Ends-write_function : (at : ℕ) → Ends server laws (write_function at)
  unfolding write_function
  Ends-write_function at = search finish_rules depth 20

  Ends-configure_function :
      (board : Board) (function index flags : ℕ) (found : Option ℕ)
      → Ends server laws (configure_function board function index flags found)
  unfolding configure_function
  Ends-configure_function board function index flags none = search finish_rules
  Ends-configure_function board function index flags (some at) = Ends-bind (Ends-modify _) (λ _.
      Ends-elim (function == func_gpio)
        (Ends-bind (Ends-ask (gpio_configure (gpios index) (gpio_flags flags)) tt) (λ r.
          Ends-if (is_negative r) (Ends-respond_status response_eio) (Ends-write_function at)))
        (Ends-write_function at))

  pub Ends-handle_pins_cfg : (board : Board) → Ends server laws (handle_pins_cfg board)
  unfolding handle_pins_cfg
  Ends-handle_pins_cfg board =
      search (finish_rules, Ends-refuse_flags, Ends-configure_function) depth 60
