-- ===== src/Io/Calls/Table.antt =====
-- The handlers of firmware/src/io/commands_pinctrl.c leave which functions the pins have as they are, and
-- make only calls that a command of the pins may make.
use riceprobe.Base.{
  ℕ, zero, suc, ◌+◌, ◌≤◌, ◌<◌, ◌≡◌, refl, ap, ◌∙◌, arith, Bool, true, false, inl, inr, ◌⊎◌, List,
  [], ◌∷◌, map, Option, none, some, ◌==◌, if◌then◌else◌,
}
use riceprobe.Base.Int.{is_negative}
use riceprobe.Zephyr.{gpios, gpio_configure, pin_write, input, buf_store, response}
use riceprobe.Zephyr.Prog.{gets, ◌>>=◌}
use riceprobe.Zephyr.Obeys.{
  Obeys, Obeys-bind, Obeys-if, Obeys-elim, Obeys-test, Obeys-pure, Obeys-modify, Obeys-read,
}
use riceprobe.Io.{response_eio, Action, Driver, Board, PinFunction, func_gpio}
use riceprobe.Io.Pins.{
  list_functions, respond_functions, handle_pins_caps, input_gpios, write_gpio_pins, default_pins,
  handle_pins_default, is_function, last_match, adjust_at, gpio_flags, write_function,
  configure_function, handle_pins_cfg,
}
use riceprobe.Io.Calls.{IsPinsCall}
use riceprobe.Io.Calls.Handlers.{io_rules, Obeys-io, Obeys-pin, plain_io, Obeys-refuse_flags}
use riceprobe.Io.Calls.Rules.{Obeys-respond, Obeys-respond_status}

abbrev pub Key : Type 0
Key = ℕ × ℕ × ℕ

-- A pin's function less its control value.
abbrev pub key : PinFunction → Key
key f = (f.pin, f.function, f.index)

-- Each function that is a GPIO is one of `n`.
abbrev pub IsTable : ℕ → List Key → Type 0
IsTable n [] = Unit {0}
IsTable n ((pin, function, index) ∷ ks) = (function ≡ func_gpio → index < n) × IsTable n ks

abbrev pub HasKeys : List Key → Driver → Type 0
HasKeys ks d = map key d.pinctrls ≡ ks

module _ {n : ℕ} {P : Driver → Type 0} where
  Obeys-list_functions :
      (at pin : ℕ) (fs : List PinFunction) (count : ℕ)
      → Obeys (IsPinsCall n) P (list_functions at pin fs count)
  unfolding list_functions
  Obeys-list_functions at pin [] count = Obeys-pure _
  Obeys-list_functions at pin (f ∷ fs) count =
      Obeys-elim (f.pin == pin)
        (Obeys-bind (Obeys-respond (plain_io n) _) (λ _.
          Obeys-bind (Obeys-io (buf_store response at _) tt)
            (λ _. Obeys-list_functions at pin fs _)))
        (Obeys-list_functions at pin fs count)

  Obeys-respond_functions : (pin : ℕ) → Obeys (IsPinsCall n) P (respond_functions pin)
  unfolding respond_functions ◌>>=◌
  Obeys-respond_functions pin = search (io_rules, Obeys-list_functions) depth 40

  pub Obeys-handle_pins_caps : (board : Board) → Obeys (IsPinsCall n) P (handle_pins_caps board)
  unfolding handle_pins_caps
  Obeys-handle_pins_caps board = search (io_rules, Obeys-respond_functions) depth 40

  Obeys-input_gpios : (i left : ℕ) → i + left ≤ n → Obeys (IsPinsCall n) P (input_gpios i left)
  unfolding input_gpios
  Obeys-input_gpios i zero h = Obeys-pure _
  Obeys-input_gpios i (suc left) h =
      Obeys-bind (Obeys-pin (gpio_configure (gpios i) (input ∷ [])) (omega arith, refl)) (λ r.
        Obeys-elim (is_negative r) (Obeys-pure _) (Obeys-input_gpios (i + 1) left (omega arith)))

  Obeys-write_gpio_pins : (fs : List PinFunction) → Obeys (IsPinsCall n) P (write_gpio_pins fs)
  unfolding write_gpio_pins
  Obeys-write_gpio_pins [] = Obeys-pure _
  Obeys-write_gpio_pins (f ∷ fs) =
      Obeys-elim (f.function == func_gpio)
        (Obeys-bind (Obeys-pin (pin_write f.pinctrl) tt)
          (λ r. Obeys-elim (is_negative r) (Obeys-pure _) (Obeys-write_gpio_pins fs)))
        (Obeys-write_gpio_pins fs)

  Obeys-write_function : (at : ℕ) → Obeys (IsPinsCall n) P (write_function at)
  unfolding write_function
  Obeys-write_function at = search io_rules depth 20

pick-cases :
    (rest : Option ℕ) (b : Bool) (i at : ℕ)
    → elim rest [ some j ↦ some j | none ↦ if b then some i else none ] ≡ some at
    → (rest ≡ some at) ⊎ (b ≡ true)
pick-cases (some j) b i at h = inl h
pick-cases none true i at h = inr refl
pick-cases none false i at h = ground arith

matching-bound :
    (n pin function index : ℕ) (f : PinFunction)
    → (f.function ≡ func_gpio → f.index < n)
    → is_function pin function index f ≡ true
    → function ≡ func_gpio
    → index < n
matching-bound n pin function index f bound same is_gpio = ground arith

-- What a search for a function finds is in the table.
last_match-bound :
    (n pin function index i at : ℕ) (fs : List PinFunction)
    → IsTable n (map key fs)
    → last_match pin function index i fs ≡ some at
    → function ≡ func_gpio
    → index < n
last_match-bound n pin function index i at [] table found is_gpio = ground arith
last_match-bound n pin function index i at (f ∷ fs) table found is_gpio =
    elim (pick-cases (last_match pin function index (i + 1) fs) (is_function pin function index f) i
      at found) [
        | inl later ↦ last_match-bound n pin function index (i + 1) at fs table.1 later is_gpio
        | inr same ↦ matching-bound n pin function index f table.0 same is_gpio
      ]

gpio_of : (function : ℕ) → (function == func_gpio) ≡ true → function ≡ func_gpio
gpio_of function h = ground arith

adjust_at-keys :
    (board : Board) (flags at : ℕ) (fs : List PinFunction)
    → map key (adjust_at board flags at fs) ≡ map key fs
adjust_at-keys board flags at [] = refl
adjust_at-keys board flags zero (f ∷ fs) = refl
adjust_at-keys board flags (suc at) (f ∷ fs) =
    ap (λ ks. key f ∷ ks) (adjust_at-keys board flags at fs)

module _ (board : Board) (ks : List Key) (table : IsTable board.gpios ks) where
  abbrev TableAction : {A : Type 0} → Action A → Type 0
  TableAction m = Obeys (IsPinsCall board.gpios) (HasKeys ks) m

  pub Obeys-default_pins : TableAction (default_pins board)
  unfolding default_pins
  Obeys-default_pins =
      Obeys-bind (Obeys-input_gpios 0 board.gpios (omega arith))
        (λ done. Obeys-elim done (search (io_rules, Obeys-write_gpio_pins)) (Obeys-pure _))

  pub Obeys-handle_pins_default : TableAction (handle_pins_default board)
  unfolding handle_pins_default
  Obeys-handle_pins_default = search (io_rules, Obeys-default_pins) depth 20

  Obeys-configure_function :
      (function index flags : ℕ) (found : Option ℕ)
      → ((at : ℕ) → found ≡ some at → function ≡ func_gpio → index < board.gpios)
      → TableAction (configure_function board function index flags found)
  unfolding configure_function
  Obeys-configure_function function index flags none h = search io_rules
  Obeys-configure_function function index flags (some at) h =
      Obeys-bind (Obeys-modify _ (λ d same. adjust_at-keys board flags at d.pinctrls ∙ same)) (λ _.
        Obeys-test (function == func_gpio)
          (λ is_gpio.
            Obeys-bind
              (Obeys-pin (gpio_configure (gpios index) (gpio_flags flags))
                (h at refl (gpio_of function is_gpio), refl))
              (λ r.
                Obeys-if (is_negative r) (Obeys-respond_status (plain_io board.gpios) response_eio)
                  (Obeys-write_function at)))
          (λ _. Obeys-write_function at))

  Obeys-found :
      (pin function index flags : ℕ)
      → TableAction (
          gets (λ d. last_match pin function index 0 d.pinctrls)
          >>= configure_function board function index flags)
  Obeys-found pin function index flags = Obeys-read _ _ (λ d same.
      (Obeys-configure_function function index flags _ (λ at found.
          last_match-bound board.gpios pin function index 0 at d.pinctrls (rw same table) found)).at
        d same)

  pub Obeys-handle_pins_cfg : TableAction (handle_pins_cfg board)
  unfolding handle_pins_cfg
  Obeys-handle_pins_cfg = search (io_rules, Obeys-refuse_flags, Obeys-found) depth 60
