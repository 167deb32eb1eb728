-- ===== src/Dap/Wave/Tap/Drives.antt =====
-- What the cycles of firmware/src/dap/commands_jtag.c do to the test access port.
use riceprobe.Base.{ℕ, zero, suc, ◌/◌, ◌%◌, ◌≡◌, refl, ap, ◌∙◌, ◌++◌, List, replicate, [], ◌∷◌}
use riceprobe.Zephyr.{Pin, gpio_set, tdi, tck_swclk, wait_nanos}
use riceprobe.Zephyr.Prog.{run, ok, ◌>>=◌, gets, pure, repeat}
use riceprobe.Zephyr.Bench.{Bench, Env, serve}
use riceprobe.Zephyr.Run.{run-bind}
use riceprobe.Dap.{Driver, Action, set_pin, delay}
use riceprobe.Dap.Jtag.{tck_cycle, tdi_cycle, tdi_bits}
use riceprobe.Dap.Wave.Tap.{Tap, shift_ir, pushed, bits_of, on_call, edge, replay}

-- Shift-IR with tms low.
abbrev pub shifting : ℕ → List ℕ → Tap
shifting x bits = record { tms_at = 0; tdi_at = x; state = shift_ir; instruction = bits }

-- The level that the wire has after `k` bits of a word, and what is left of the word.
abbrev pub last_bit : ℕ → ℕ → ℕ → ℕ
last_bit zero x level = level
last_bit (suc k) x level = last_bit k (x / 2) (x % 2)

abbrev pub halved : ℕ → ℕ → ℕ
halved zero x = x
halved (suc k) x = halved k (x / 2)

pub bits_of-snoc : (k x : ℕ) → bits_of (suc k) x ≡ bits_of k x ++ (halved k x % 2 ∷ [])
bits_of-snoc zero x = refl
bits_of-snoc (suc k) x = ap (λ bs. x % 2 ∷ bs) (bits_of-snoc k (x / 2))

module _ (env : Env) (t0 : Tap) where
  -- The code ends with `a`, leaves the driver as it is, and takes the port from `t` to `t'`.
  pub record Drives {A : Type 0} (m : Action A) (d : Driver) (a : A) (t t' : Tap) : Type 0 where
    pub at :
        (w : Bench)
        → replay t0 w.trace ≡ t
        → (w' : Bench) × ((run (serve env) (m d) w ≡ ((ok a, d), w')) × (replay t0 w'.trace ≡ t'))

  pub Drives-bind :
      {A B : Type 0} {m : Action A} (f : A → Action B) {d : Driver} {a : A} {b : B} {t t' t'' : Tap}
      → Drives m d a t t'
      → Drives (f a) d b t' t''
      → Drives (m >>= f) d b t t''
  Drives-bind {m} f {d} {a} x y = record {
    at = λ w h.
        let (v, (e, k)) = x.at w h in
        let (u, (e', k')) = y.at v k in (u, (run-bind (serve env) m f d d w v a e ∙ e', k'));
  }

  pub Drives-pure : {A : Type 0} {d : Driver} (a : A) {t : Tap} → Drives (pure a) d a t t
  unfolding pure
  Drives-pure a = record { at = λ w h. (w, (refl, h)) }

  pub Drives-gets :
      {A : Type 0} (f : Driver → A) (d : Driver) {t : Tap} → Drives (gets f) d (f d) t t
  unfolding gets
  Drives-gets f d = record { at = λ w h. (w, (refl, h)) }

  pub Drives-set_pin :
      (p : Pin) (v : ℕ) (d : Driver) (t : Tap)
      → Drives (set_pin p v) d tt t (on_call (gpio_set p v) t)
  unfolding set_pin ◌>>=◌
  Drives-set_pin p v d t = record {
    at =
        λ w h. (record w { trace = gpio_set p v ∷ w.trace }, (refl, ap (on_call (gpio_set p v)) h));
  }

  pub Drives-tck_cycle : (d : Driver) (t : Tap) → Drives tck_cycle d tt t (edge t)
  unfolding tck_cycle set_pin delay ◌>>=◌
  Drives-tck_cycle d t = record {
    at = λ w h. (
      record w {
        trace =
            wait_nanos d.swj.delay_ns
            ∷ gpio_set tck_swclk 1
            ∷ wait_nanos d.swj.delay_ns
            ∷ gpio_set tck_swclk 0
            ∷ w.trace;
      },
      (refl, ap edge h),
    );
  }

  pub Drives-tdi_cycle :
      (x : ℕ) (d : Driver) (t : Tap)
      → Drives (tdi_cycle x) d tt t (edge (record t { tdi_at = x % 2 }))
  unfolding tdi_cycle set_pin delay ◌>>=◌
  Drives-tdi_cycle x d t = record {
    at = λ w h. (
      record w {
        trace =
            wait_nanos d.swj.delay_ns
            ∷ gpio_set tck_swclk 1
            ∷ wait_nanos d.swj.delay_ns
            ∷ gpio_set tck_swclk 0
            ∷ gpio_set tdi (x % 2)
            ∷ w.trace;
      },
      (refl, ap (λ (s : Tap). edge (record s { tdi_at = x % 2 })) h),
    );
  }

  pub Drives-repeat :
      (n : ℕ) (d : Driver) (x : ℕ) (bits : List ℕ)
      → Drives
          (repeat n tck_cycle)
          d
          tt
          (shifting x bits)
          (shifting x (pushed (replicate n x) bits))
  unfolding repeat
  Drives-repeat zero d x bits = Drives-pure tt
  Drives-repeat (suc n) d x bits =
      Drives-bind _ (Drives-tck_cycle d (shifting x bits)) (Drives-repeat n d x (x ∷ bits))

  pub Drives-tdi_bits :
      (k x : ℕ) (d : Driver) (level : ℕ) (bits : List ℕ)
      → Drives
          (tdi_bits k x)
          d
          (halved k x)
          (shifting level bits)
          (shifting (last_bit k x level) (pushed (bits_of k x) bits))
  unfolding tdi_bits
  Drives-tdi_bits zero x d level bits = Drives-pure x
  Drives-tdi_bits (suc k) x d level bits =
      Drives-bind _ (Drives-tdi_cycle x d (shifting level bits))
        (Drives-tdi_bits k (x / 2) d (x % 2) (x % 2 ∷ bits))
