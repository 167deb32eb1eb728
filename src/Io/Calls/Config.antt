-- ===== src/Io/Calls/Config.antt =====
-- The configuration command of firmware/src/io/commands_gpio.c.
use riceprobe.Base.{ℕ, ◌≡◌, ◌≤◌, arith, false, ◌&&◌, not, inl, inr, List, [], ltb}
use riceprobe.Zephyr.{Call, Flag, gpios, gpio_configure, pull_up, pull_down, open_drain, output}
use riceprobe.Zephyr.Prog.{Server, run, Outcome}
use riceprobe.Zephyr.Obeys.{
  Every, logged, Safely-run, Obeys, Obeys-ask, Obeys-bind, Obeys-test, obeys_rules,
}
use riceprobe.Io.{Driver, Board, Action}
use riceprobe.Io.Gpio.{
  has_flag, set_flags, configure_gpio, handle_gpio_cfg, configure_known, refuse_flags,
  requested_flags,
}
use riceprobe.Io.Calls.{IsPlain, IsSound}
use riceprobe.Io.Calls.Rules.{
  Obeys-get_u8, Obeys-respond_status, Obeys-respond_command, Obeys-skip_request,
}

abbrev Anything : Driver → Type 0
Anything d = Unit {0}

plain-IsSound : (n : ℕ) (c : Call) → IsPlain c → IsSound n c
plain-IsSound n c h = inl h

abbrev SoundAction : ℕ → {A : Type 0} → Action A → Type 0
SoundAction n m = Obeys (IsSound n) Anything m

Obeys-set_flags :
    (n gpion : ℕ) (flags : List Flag)
    → gpion ≤ n
    → ((has_flag pull_up flags && has_flag pull_down flags) ≡ false)
    → ((has_flag open_drain flags && not (has_flag output flags)) ≡ false)
    → SoundAction n (set_flags gpion flags)
unfolding set_flags
Obeys-set_flags n gpion flags known pulls drain =
    Obeys-bind (Obeys-ask (gpio_configure (gpios gpion) flags) (inr (known, pulls, drain)))
      (λ ret. Obeys-respond_status (plain-IsSound n) _)

Obeys-configure_gpio :
    (n gpion : ℕ) (flags : List Flag) → gpion ≤ n → SoundAction n (configure_gpio gpion flags)
unfolding configure_gpio
Obeys-configure_gpio n gpion flags known =
    Obeys-test _ (λ both. Obeys-respond_status (plain-IsSound n) _)
      (λ pulls.
        Obeys-test _ (λ lone. Obeys-respond_status (plain-IsSound n) _)
          (Obeys-set_flags n gpion flags known pulls))

ruleset sound_rules = (
  obeys_rules, plain-IsSound, Obeys-get_u8, Obeys-respond_status, Obeys-respond_command,
  Obeys-skip_request,
)

Obeys-refuse_flags : (n len : ℕ) → SoundAction n (refuse_flags len)
unfolding refuse_flags
Obeys-refuse_flags n len = search sound_rules

Obeys-configure_known :
    (board : Board) (gpion flags : ℕ) → SoundAction board.gpios (configure_known board gpion flags)
unfolding configure_known
Obeys-configure_known board gpion flags =
    Obeys-test (ltb board.gpios gpion) (λ _. Obeys-respond_status (plain-IsSound _) _)
      (λ h. Obeys-configure_gpio board.gpios gpion (requested_flags flags) (ground arith))

Obeys-handle_gpio_cfg : (board : Board) → SoundAction board.gpios (handle_gpio_cfg board)
unfolding handle_gpio_cfg
Obeys-handle_gpio_cfg board =
    search (sound_rules, Obeys-refuse_flags, Obeys-configure_known) depth 30

-- The flags that the configuration command hands over with a pin never ask for a pull-up and a pull-down at once,
-- nor for an open drain without an output, whatever the request holds and whatever any server answers to the
-- calls: every call that the command makes is a configuration with such flags, of a pin whose index is at most
-- the number of the pins, or one of the driver's own two buffers or of the clock. The flags that the
-- devicetree adds to these are not part of it, nor is what lies behind the pins at the one index too many.
pub handle_gpio_cfg-IsSound :
    {W : Type 0} (server : Server W) (board : Board) (d : Driver) (w : W)
    → Every (IsSound board.gpios) (run (logged server) (handle_gpio_cfg board d) (w, [])).1.1
handle_gpio_cfg-IsSound server board d w =
    (Safely-run (IsSound board.gpios) (λ (x : Outcome (Unit {0}) × Driver). Anything x.1) server
      (handle_gpio_cfg board d) w [] ((Obeys-handle_gpio_cfg board).at d tt) tt).1
