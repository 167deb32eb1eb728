-- ===== src/Io/Tests.antt =====
-- The IO driver on a concrete bench.
use riceprobe.Base.{
  ℕ, ◌+◌, ◌≤◌, ◌≡◌, refl, arith, true, List, [], ◌∷◌, map, replicate, leb, le→leb, some, inr,
}
use riceprobe.Nvs.{Nvs}
use riceprobe.Zephyr.{Call, expired, timepoint_ms}
use riceprobe.Zephyr.Prog.{run, ok, err, ◌>>=◌}
use riceprobe.Zephyr.Bench.{Env, serve}
use riceprobe.Zephyr.Stage.{quiet_env, bench_of}
use riceprobe.Zephyr.Clock.{elapsed, bench-Laws, bench_enough}
use riceprobe.Zephyr.Ends.{IsDone}
use riceprobe.Zephyr.Obeys.{Every, logged}
use riceprobe.Dap.General.{Config}
use riceprobe.Io.{Driver, Board, respond_command, respond_status}
use riceprobe.Io.Gpio.{handle_gpio_cfg}
use riceprobe.Io.Request.{handle_request, answer_request, dispatch}
use riceprobe.Io.Pins.{handle_pins_caps}
use riceprobe.Utf8.Rbuf.{rbuf_get, rbuf_put}
use riceprobe.Dap.{get_u8, respond}
use riceprobe.Utf8.{encode, decode_into}
use riceprobe.Io.Reply.{answer_request-failed}
use riceprobe.Zephyr.Reply.{bench-ReplyBuffer, bench_ready}
use riceprobe.Errno.{enotsup}
use riceprobe.Io.Calls.{IsPinsCall, IsSound}
use riceprobe.Io.Calls.Config.{handle_gpio_cfg-IsSound}
use riceprobe.Io.Calls.Table.{key}
use riceprobe.Io.Calls.Pins.{dispatch-IsPinsCall}
use riceprobe.Io.Finish.Request.{handle_request-IsDone}

abbrev config : Config
config = record {
  manufacturer = 82 ∷ 0 ∷ [];
  descriptor = 80 ∷ 0 ∷ [];
  serial_format = replicate 14 0;
  version = 49 ∷ 0 ∷ [];
}

abbrev nvs : Nvs
nvs = record { serial_number = 82 ∷ 0 ∷ []; uuid = replicate 16 0; dns_txt_record = [] }

abbrev board : Board
board = record { gpios = 2; pull_up = 0x100; pull_down = 0x200; open_drain = 0 }

-- Pin 0 is a GPIO or a UART, pin 1 is a GPIO.
abbrev driver : Driver
driver = record {
  pinctrls =
      record { pin = 0; function = 0; index = 0; pinctrl = 0x10 }
      ∷ record { pin = 0; function = 1; index = 0; pinctrl = 0x11 }
      ∷ record { pin = 1; function = 0; index = 1; pinctrl = 0x20 }
      ∷ [];
  transport = some 0;
}

-- A request that pulls pin 1 up.
dispatch-IsPinsCall_example :
    (map key
        (run
          (logged (serve quiet_env))
          (dispatch board config nvs 0x0b driver)
          (bench_of (1 ∷ 0 ∷ 1 ∷ 1 ∷ 1 ∷ []), [])).0.1.pinctrls
      ≡ map key driver.pinctrls)
    × Every
        (IsPinsCall 2)
        (run
          (logged (serve quiet_env))
          (dispatch board config nvs 0x0b driver)
          (bench_of (1 ∷ 0 ∷ 1 ∷ 1 ∷ 1 ∷ []), [])).1.1
dispatch-IsPinsCall_example =
    dispatch-IsPinsCall (serve quiet_env) board config nvs 0x0b driver
      (bench_of (1 ∷ 0 ∷ 1 ∷ 1 ∷ 1 ∷ [])) (inr (inr refl))
      ((λ h. omega arith), ((λ h. omega arith), ((λ h. omega arith), tt)))

-- Pin 0 as an output with a pull-up and a pull-down.
handle_gpio_cfg-IsSound_example :
    Every
      (IsSound 2)
      (run
        (logged (serve quiet_env))
        (handle_gpio_cfg board driver)
        (bench_of (0 ∷ 1 ∷ 0x0d ∷ []), [])).1.1
handle_gpio_cfg-IsSound_example =
    handle_gpio_cfg-IsSound (serve quiet_env) board driver (bench_of (0 ∷ 1 ∷ 0x0d ∷ []))

-- Time passes by the sleeps alone.
abbrev clock_env : Env
clock_env (timepoint_ms n) cs = elapsed cs + n
clock_env (expired t) cs = leb t (elapsed cs)
clock_env c cs = quiet_env c cs

clock_ends_at : (n : ℕ) (cs : List Call) → clock_env (timepoint_ms n) cs ≤ elapsed cs + n
clock_ends_at n cs = omega arith

clock_expires : (t : ℕ) (cs : List Call) → t ≤ elapsed cs → clock_env (expired t) cs ≡ true
clock_expires t cs h = le→leb t (elapsed cs) h

-- A wait of up to five milliseconds for a level that does not come.
handle_request-IsDone_example :
    IsDone
      (run
        (serve clock_env)
        (handle_request board config nvs 8 driver)
        (bench_of (0x12 ∷ 0 ∷ 0x10 ∷ 11 ∷ 0 ∷ 0 ∷ 0 ∷ []))).0.0
handle_request-IsDone_example =
    handle_request-IsDone (serve clock_env) (bench-Laws clock_env clock_ends_at clock_expires) board
      config nvs 8 driver (bench_of (0x12 ∷ 0 ∷ 0x10 ∷ 11 ∷ 0 ∷ 0 ∷ 0 ∷ []))
      (bench_enough clock_env clock_ends_at clock_expires _ 8 (omega arith))

-- A command that there is not, behind one that was answered.
unknown_refused :
    (run
      (serve quiet_env)
      (handle_request board config nvs 3 driver)
      (bench_of (0x02 ∷ 2 ∷ 0x09 ∷ 0 ∷ 0x55 ∷ []))).0
    ≡ (err enotsup, driver)
unfolding handle_request handle_pins_caps rbuf_get rbuf_put encode decode_into get_u8 respond
    respond_command respond_status ◌>>=◌
unknown_refused = refl

answer_request-failed_example :
    (run
      (serve quiet_env)
      (answer_request board config nvs 3 driver)
      (bench_of (0x02 ∷ 2 ∷ 0x09 ∷ 0 ∷ 0x55 ∷ []))).0
    ≡ (ok (0xff ∷ []), driver)
answer_request-failed_example =
    answer_request-failed (serve quiet_env) (bench-ReplyBuffer quiet_env) board config nvs 3 driver
      driver (bench_of (0x02 ∷ 2 ∷ 0x09 ∷ 0 ∷ 0x55 ∷ [])) enotsup
      (bench_ready quiet_env _ (omega arith)) unknown_refused
