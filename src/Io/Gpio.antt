-- ===== src/Io/Gpio.antt =====
-- firmware/src/io/commands_gpio.c.
use riceprobe.Base.{
  ℕ, zero, suc, ◌/◌, ◌%◌, Bool, true, false, not, ◌&&◌, ◌||◌, List, [], ◌∷◌, ◌++◌, ltb, ◌==◌, ◌/=◌,
  if◌then◌else◌,
}
use riceprobe.Base.Int.{ℤ, is_negative, to_u8, to_u32}
use riceprobe.Base.Bits.{has_bit, bit}
use riceprobe.Zephyr.{
  Flag, input, output, output_active, output_inactive, pull_up, pull_down, active_low, open_drain,
  gpios, gpio_configure, gpio_set, gpio_get, gpio_toggle, sleep_ms, timepoint_ms, expired,
}
use riceprobe.Zephyr.Prog.{pure, stop, no_fuel, ask, ◌>>=◌, ◌>>◌}
use riceprobe.Dap.{get_u8, ring_get_le32, respond}
use riceprobe.Io.{
  Action, Board, respond_command, respond_status, skip_request, response_ok, response_eio,
  response_enotsup, response_etimedout,
}

-- `io_handle_cmd_gpio_caps`; the flags are output, active low, both pulls and, where the board has it,
-- open drain.
unfoldable pub handle_gpio_caps : Board → Action (Unit {0})
unfolding ◌>>=◌
handle_gpio_caps board = do
  respond_command 0x10
  respond_status response_ok
  respond (1 ∷ 0x03 ∷ [])
  respond (1 ∷ (if board.open_drain == 0 then 0x0f else 0x1f) ∷ [])

-- Only one byte of flags is known: others are skipped and refused.
unfoldable pub refuse_flags : ℕ → Action (Unit {0})
unfolding ◌>>=◌
refuse_flags flags_len = do skip_request flags_len; respond_status response_enotsup

abbrev flag_if : Bool → Flag → List Flag
flag_if true f = f ∷ []
flag_if false f = []

-- `gpio_flags`: what was requested, and always an input.
abbrev pub requested_flags : ℕ → List Flag
requested_flags flags =
    input
    ∷ (flag_if (has_bit flags 0) output
        ++ (flag_if (has_bit flags 1) active_low
            ++ (flag_if (has_bit flags 2) pull_up
                ++ (flag_if (has_bit flags 3) pull_down ++ flag_if (has_bit flags 4) open_drain))))

abbrev flag_id : Flag → ℕ
flag_id input = 0
flag_id output = 1
flag_id output_active = 2
flag_id output_inactive = 3
flag_id pull_up = 4
flag_id pull_down = 5
flag_id active_low = 6
flag_id open_drain = 7

-- `(flags & f) != 0`
abbrev pub has_flag : Flag → List Flag → Bool
has_flag f [] = false
has_flag f (g ∷ gs) = let rest = has_flag f gs in (flag_id f == flag_id g) || rest

unfoldable pub set_flags : ℕ → List Flag → Action (Unit {0})
unfolding ◌>>=◌
set_flags gpion flags = do
  ret ← ask (gpio_configure (gpios gpion) flags)
  respond_status (if is_negative ret then response_eio else response_ok)

-- The tests of `io_handle_cmd_gpio_cfg` on its flags: not both pulls, no open drain without an output.
unfoldable pub configure_gpio : ℕ → List Flag → Action (Unit {0})
unfolding set_flags
configure_gpio gpion flags = elim (has_flag pull_up flags && has_flag pull_down flags) [
  | true ↦ respond_status response_enotsup
  | false ↦ elim (has_flag open_drain flags && not (has_flag output flags)) [
    | true ↦ respond_status response_enotsup
    | false ↦ set_flags gpion flags
  ]
]

-- A pin number behind the pins is refused; the one right behind them is not.
unfoldable pub configure_known : Board → ℕ → ℕ → Action (Unit {0})
unfolding configure_gpio
configure_known board gpion flags = elim (ltb board.gpios gpion) [
  | true ↦ respond_status response_enotsup
  | false ↦ configure_gpio gpion (requested_flags flags)
]

-- `io_handle_cmd_gpio_cfg`
unfoldable pub handle_gpio_cfg : Board → Action (Unit {0})
unfolding configure_known refuse_flags
handle_gpio_cfg board = do
  respond_command 0x11
  gpion ← get_u8
  flags_len ← get_u8
  if flags_len /= 1
      then refuse_flags flags_len
      else (do flags ← get_u8; configure_known board gpion flags)

-- A step of the control command: with a negative status the command ends with `eio`.
unfoldable pub or_eio : ℤ → Action (Unit {0}) → Action (Unit {0})
or_eio ret go = if is_negative ret then respond_status response_eio else go

unfoldable pub write_output : ℕ → ℕ → Action (Unit {0}) → Action (Unit {0})
unfolding or_eio
write_output gpion cmd go =
    if has_bit cmd 1 then (do ret ← ask (gpio_set (gpios gpion) (bit cmd 0)); or_eio ret go) else go

unfoldable pub toggle_output : ℕ → ℕ → Action (Unit {0}) → Action (Unit {0})
unfolding or_eio
toggle_output gpion cmd go =
    if has_bit cmd 2 then (do ret ← ask (gpio_toggle (gpios gpion)); or_eio ret go) else go

unfoldable pub read_input : ℕ → ℕ → (ℕ → Action (Unit {0})) → Action (Unit {0})
unfolding or_eio
read_input gpion cmd go =
    if has_bit cmd 3
    then (do ret ← ask (gpio_get (gpios gpion)); or_eio ret (go (to_u8 ret)))
    else go 0

-- The loop that waits for a level, with the rounds that are left to it: whether the pin could be read.
unfoldable pub wait_loop : ℕ → ℕ → ℕ → ℕ → Action Bool
unfolding ◌>>=◌
wait_loop zero gpion wait_val end = stop no_fuel
wait_loop (suc fuel) gpion wait_val end = do
  ret ← ask (gpio_get (gpios gpion))
  elim (is_negative ret) [
    | true ↦ pure false
    | false ↦ elim (to_u32 ret == wait_val) [
      | true ↦ pure true
      | false ↦ (do
        ask (sleep_ms 1)
        over ← ask (expired end)
        elim over [ true ↦ pure true | false ↦ wait_loop fuel gpion wait_val end ])
    ]
  ]

-- The end of a wait: the time is looked at again, whether the level was seen or not.
unfoldable pub after_wait : ℕ → Action (Unit {0}) → Bool → Action (Unit {0})
unfolding ◌>>=◌
after_wait end go false = respond_status response_eio
after_wait end go true = do
  over ← ask (expired end)
  if over then respond_status response_etimedout else go

-- The lowest bit of the state is the level, the others are the milliseconds; each round sleeps one.
unfoldable pub wait_input : ℕ → ℕ → ℕ → Action (Unit {0}) → Action (Unit {0})
unfolding wait_loop after_wait
wait_input gpion cmd wait_state go =
    if has_bit cmd 4
    then (do
      end ← ask (timepoint_ms (wait_state / 2))
      seen ← wait_loop (suc (wait_state / 2)) gpion (wait_state % 2) end
      after_wait end go seen)
    else go

unfoldable pub respond_value : ℕ → ℕ → Action (Unit {0})
unfolding ◌>>=◌
respond_value cmd read_val = do
  respond_status response_ok
  if has_bit cmd 3 then respond (read_val ∷ []) else pure tt

-- `io_handle_cmd_gpio_ctrl`
unfoldable pub handle_gpio_ctrl : Action (Unit {0})
unfolding write_output toggle_output read_input wait_input respond_value
handle_gpio_ctrl = do
  respond_command 0x12
  gpion ← get_u8
  cmd ← get_u8
  wait_state ← (if has_bit cmd 4 then ring_get_le32 else pure 0)
  write_output gpion cmd (
      toggle_output gpion cmd (
        read_input gpion cmd
          (λ read_val. wait_input gpion cmd wait_state (respond_value cmd read_val))))
