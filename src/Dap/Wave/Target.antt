-- ===== src/Dap/Wave/Target.antt =====
-- A whole transfer over SWD (firmware/src/dap/commands_transfer.c) with a target that answers on swdio.
pub mod Reply
pub mod Phases
pub mod Transfer
pub mod Retry
use riceprobe.Base.{
  ℕ, zero, suc, ◌+◌, ◌*◌, ◌%◌, ◌^◌, ◌≡◌, refl, sym, ap, ◌∙◌, arith, Bool, true, false, not, ◌&&◌,
  List, [], ◌∷◌, ◌==◌, if◌then◌else◌,
}
use riceprobe.Base.Int.{ℤ, pos, is_negative, to_u8}
use riceprobe.Zephyr.{
  Call, Flag, input, output, tms_swdio, tck_swclk, gpio_set, gpio_get, gpio_configure, wait_nanos,
}
use riceprobe.Zephyr.Prog.{run, ok, pure, gets, repeat, ◌>>=◌, ◌>>◌, fatal_check}
use riceprobe.Zephyr.Bench.{Bench, Env, serve}
use riceprobe.Zephyr.Run.{run-bind}
use riceprobe.Dap.{Driver, Action, set_pin, configure_pin, delay}
use riceprobe.Dap.Swd.{read_cycle, write_cycle, swclk_cycle}
use riceprobe.Dap.Transfer.Port.{ack_ok, ack_error, is_read, swd_read_word}

-- What became of swdio: how often it was read, whether the probe drives it, and whether it was only read while the
-- probe did not drive it and only set while it did.
pub record Wires : Type 0 where
  pub reads : ℕ
  pub drives : Bool
  pub clean : Bool

abbrev has_output : List Flag → Bool
has_output [] = false
has_output (output ∷ fs) = true
has_output (_ ∷ fs) = has_output fs

abbrev pub after : Call → Wires → Wires
after (gpio_set tms_swdio v) s = record s { clean = s.clean && s.drives }
after (gpio_get tms_swdio) s = record s { reads = suc s.reads; clean = s.clean && not s.drives }
after (gpio_configure tms_swdio fs) s = record s { drives = has_output fs }
after _ s = s

-- From a probe that drives swdio. A trace holds the last call first.
abbrev pub wires : List Call → Wires
wires [] = record { reads = 0; drives = true; clean = true }
wires (c ∷ cs) = after c (wires cs)

-- The probe drives, or it listens; nothing went wrong.
abbrev pub driven : ℕ → Wires
driven n = record { reads = n; drives = true; clean = true }

abbrev pub listening : ℕ → Wires
listening n = record { reads = n; drives = false; clean = true }

-- The target puts its levels on swdio in this order, whatever else happens, and the pin can be configured.
pub record Answers (levels : ℕ → ℕ) (env : Env) : Type 0 where
  pub level : (cs : List Call) → env (gpio_get tms_swdio) cs ≡ pos (levels (wires cs).reads)
  pub accepts :
      (fs : List Flag) (cs : List Call) → is_negative (env (gpio_configure tms_swdio fs) cs) ≡ false

-- The bit of a level, the value of bits with the lowest first, and their number.
abbrev pub bit_at : (ℕ → ℕ) → ℕ → ℕ
bit_at levels n = levels n % 2

unfoldable pub value_at : (ℕ → ℕ) → ℕ → ℕ → ℕ
value_at levels n zero = 0
value_at levels n (suc k) = bit_at levels n + 2 * value_at levels (suc n) k

unfoldable pub ones_at : (ℕ → ℕ) → ℕ → ℕ → ℕ
ones_at levels n zero = 0
ones_at levels n (suc k) = bit_at levels n + ones_at levels (suc n) k

-- `m` ends normally with this value and an unchanged driver, from any bench with these wires.
pub record Runs {A : Type 0} (env : Env) (m : Action A) (d : Driver) (s : Wires) (a : A) (t : Wires)
    : Type 0 where
  pub from :
      (w : Bench)
      → wires w.trace ≡ s
      → (w' : Bench) × (run (serve env) (m d) w ≡ ((ok a, d), w')) × (wires w'.trace ≡ t)

module _ {env : Env} {d : Driver} where
  pub Runs-bind :
      {A B : Type 0} {m : Action A} (f : A → Action B) {s t u : Wires} {a : A} {b : B}
      → Runs env m d s a t
      → Runs env (f a) d t b u
      → Runs env (m >>= f) d s b u
  Runs-bind {m} f {a} first next = record {
    from = λ w h.
        let (w1, ends, there) = first.from w h in
        let (w2, ends', there') = next.from w1 there in
        (w2, run-bind (serve env) m f d d w w1 a ends ∙ ends', there');
  }

  pub Runs-pure : {A : Type 0} (a : A) (s : Wires) → Runs env (pure a) d s a s
  unfolding pure
  Runs-pure a s = record { from = λ w h. (w, refl, h) }

  pub Runs-gets : {A : Type 0} (f : Driver → A) (s : Wires) → Runs env (gets f) d s (f d) s
  unfolding gets
  Runs-gets f s = record { from = λ w h. (w, refl, h) }

  pub Runs-swclk : (s : Wires) → Runs env swclk_cycle d s tt s
  unfolding swclk_cycle set_pin delay ◌>>=◌
  Runs-swclk s = record { from = λ w h. (_, refl, h) }

  pub Runs-write : (x n : ℕ) → Runs env (write_cycle x) d (driven n) tt (driven n)
  unfolding write_cycle set_pin delay ◌>>=◌
  Runs-write x n = record { from = λ w h. (_, refl, ap (after (gpio_set tms_swdio x)) h) }

  pub Runs-set : (x n : ℕ) → Runs env (set_pin tms_swdio x) d (driven n) tt (driven n)
  unfolding set_pin ◌>>=◌
  Runs-set x n = record { from = λ w h. (_, refl, ap (after (gpio_set tms_swdio x)) h) }

  pub Runs-repeat :
      (k : ℕ) {m : Action (Unit {0})} {s : Wires}
      → Runs env m d s tt s
      → Runs env (repeat k m) d s tt s
  unfolding repeat
  Runs-repeat zero {s} h = Runs-pure tt s
  Runs-repeat (suc k) h = Runs-bind _ h (Runs-repeat k h)

-- The bench behind a cycle that reads.
abbrev read_bench : Driver → Bench → Bench
read_bench d w = record w {
  trace =
      wait_nanos d.swj.delay_ns
      ∷ gpio_set tck_swclk 1
      ∷ gpio_get tms_swdio
      ∷ wait_nanos d.swj.delay_ns
      ∷ gpio_set tck_swclk 0
      ∷ w.trace;
}

low_bit : (x : ℕ) → to_u8 (pos x) % 2 ≡ x % 2
low_bit x = omega arith

module _ (env : Env) (levels : ℕ → ℕ) (target : Answers levels env) (d : Driver) where
  pub Runs-read :
      (n : ℕ) → Runs env read_cycle d (listening n) (bit_at levels n) (listening (suc n))
  unfolding read_cycle set_pin delay ◌>>=◌
  Runs-read n = record {
    from = λ w h. (
      read_bench d w,
      ap (λ (x : ℕ). ((ok x, d), read_bench d w))
          (ap (λ x. to_u8 x % 2) (target.level _ ∙ ap (λ s. pos (levels s.reads)) h)
            ∙ low_bit (levels n)),
      ap (after (gpio_get tms_swdio)) h,
    );
  }

  pub Runs-configure :
      (fs : List Flag) (s : Wires)
      → Runs env (configure_pin tms_swdio fs) d s tt (record s { drives = has_output fs })
  unfolding configure_pin fatal_check ◌>>=◌
  Runs-configure fs s = record {
    from = λ w h. (
      record w { trace = gpio_configure tms_swdio fs ∷ w.trace },
      passes (env (gpio_configure tms_swdio fs) w.trace) _ (target.accepts fs w.trace),
      ap (after (gpio_configure tms_swdio fs)) h,
    );
  }
    where
      passes :
          (x : ℤ) (w : Bench)
          → is_negative x ≡ false
          → run (serve env) (fatal_check (not (is_negative x)) d) w ≡ ((ok tt, d), w)
      passes x w e = rw e refl
