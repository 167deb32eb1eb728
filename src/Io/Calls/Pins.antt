-- ===== src/Io/Calls/Pins.antt =====
-- The commands of firmware/src/io/commands_pinctrl.c, as firmware/src/io/io.c hands out a request to them.
use riceprobe.Base.{ℕ, ◌≡◌, refl, ◌⊎◌, inl, inr, List, [], map}
use riceprobe.Nvs.{Nvs}
use riceprobe.Zephyr.Prog.{Server, run, Outcome}
use riceprobe.Zephyr.Obeys.{Every, logged, Safely-run, Obeys}
use riceprobe.Dap.General.{Config}
use riceprobe.Io.{Driver, Board}
use riceprobe.Io.Request.{dispatch}
use riceprobe.Io.Calls.{IsPinsCall}
use riceprobe.Io.Calls.Table.{
  key, IsTable, HasKeys, Obeys-handle_pins_caps, Obeys-handle_pins_default, Obeys-handle_pins_cfg,
}

-- The numbers of the commands of the pins: the capabilities, the default and the configuration.
abbrev pub IsPinsCommand : ℕ → Type 0
IsPinsCommand c = (c ≡ 0x09) ⊎ ((c ≡ 0x0a) ⊎ (c ≡ 0x0b))

Obeys-dispatch :
    (board : Board) (config : Config) (nvs : Nvs) (ks : List (ℕ × ℕ × ℕ)) (c : ℕ)
    → IsTable board.gpios ks
    → IsPinsCommand c
    → Obeys (IsPinsCall board.gpios) (HasKeys ks) (dispatch board config nvs c)
unfolding dispatch
Obeys-dispatch board config nvs ks c table (inl h) = rw h (Obeys-handle_pins_caps board)
Obeys-dispatch board config nvs ks c table (inr (inl h)) =
    rw h (Obeys-handle_pins_default board ks table)
Obeys-dispatch board config nvs ks c table (inr (inr h)) =
    rw h (Obeys-handle_pins_cfg board ks table)

-- Whatever the request holds behind its command, and whatever any server answers: if each function of the table
-- that is a GPIO names a pin that there is, a command of the pins configures no pin but one that there is, as
-- an input at least, however the request spells the pin, its function and its index. It sets, reads and toggles
-- no pin, and its other calls are of the driver's own two buffers, of the clock, or write a control value,
-- which is not looked at here. The pins have the same functions afterwards.
pub dispatch-IsPinsCall :
    {W : Type 0} (server : Server W) (board : Board) (config : Config) (nvs : Nvs) (c : ℕ)
    (d : Driver) (w : W)
    → IsPinsCommand c
    → IsTable board.gpios (map key d.pinctrls)
    → (map key (run (logged server) (dispatch board config nvs c d) (w, [])).0.1.pinctrls
        ≡ map key d.pinctrls)
      × Every
          (IsPinsCall board.gpios)
          (run (logged server) (dispatch board config nvs c d) (w, [])).1.1
dispatch-IsPinsCall server board config nvs c d w command table =
    Safely-run (IsPinsCall board.gpios)
      (λ (x : Outcome (Unit {0}) × Driver). HasKeys (map key d.pinctrls) x.1) server
      (dispatch board config nvs c d) w []
      ((Obeys-dispatch board config nvs (map key d.pinctrls) c table command).at d refl) tt
