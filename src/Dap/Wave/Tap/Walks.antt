-- ===== src/Dap/Wave/Tap/Walks.antt =====
-- What one cycle of firmware/src/dap/commands_jtag.c does to the state of the test access port, whatever
-- is read and written.
use riceprobe.Base.{ℕ, ◌%◌, ◌≡◌, refl, ap, ◌∙◌, Bool, true, false, List, ◌∷◌, if◌then◌else◌}
use riceprobe.Zephyr.{gpio_set, gpio_get, wait_nanos, tms_swdio, tdi, tdo, tck_swclk}
use riceprobe.Zephyr.Prog.{run, ok, ◌>>=◌, pure, gets}
use riceprobe.Zephyr.Bench.{Bench, Env, serve}
use riceprobe.Zephyr.Run.{run-bind}
use riceprobe.Dap.{Driver, Action, set_pin, delay}
use riceprobe.Dap.Jtag.{tck_cycle, tdi_cycle, tdo_cycle, tdio_cycle}
use riceprobe.Dap.Wave.Tap.{Tap, TapState, on_call, edge, replay, next_state, shifted}

-- The port with a level on tms, in a state, with these instruction bits, and any level on tdi.
abbrev pub At : ℕ → TapState → List ℕ → Tap → Type 0
At tms state bits t =
    (level : ℕ) × (t ≡ record { tms_at = tms; tdi_at = level; state = state; instruction = bits })

module _ (env : Env) (t0 : Tap) (d : Driver) where
  -- The code ends with a value, leaves the driver as it is, and takes the port from `T` to `T'`.
  pub record Walks {A : Type 0} (m : Action A) (T T' : Tap → Type 0) : Type 0 where
    pub at :
        (w : Bench)
        → T (replay t0 w.trace)
        → (a : A) × ((w' : Bench) × ((run (serve env) (m d) w ≡ ((ok a, d), w'))
              × T' (replay t0 w'.trace)))

  pub Walks-bind :
      {A B : Type 0} {m : Action A} (f : A → Action B) {T T' T'' : Tap → Type 0}
      → Walks m T T'
      → ((a : A) → Walks (f a) T' T'')
      → Walks (m >>= f) T T''
  Walks-bind {m} f x y = record {
    at = λ w h.
        let (a, (v, (e, k))) = x.at w h in
        let (b, (u, (e', k'))) = (y a).at v k in
        (b, (u, (run-bind (serve env) m f d d w v a e ∙ e', k')));
  }

  pub Walks-pure : {A : Type 0} (a : A) {T : Tap → Type 0} → Walks (pure a) T T
  unfolding pure
  Walks-pure a = record { at = λ w h. (a, (w, (refl, h))) }

  pub Walks-gets : {A : Type 0} (f : Driver → A) {T : Tap → Type 0} → Walks (gets f) T T
  unfolding gets
  Walks-gets f = record { at = λ w h. (f d, (w, (refl, h))) }

  pub Walks-if :
      {A : Type 0} (b : Bool) {m n : Action A} {T T' : Tap → Type 0}
      → Walks m T T'
      → Walks n T T'
      → Walks (if b then m else n) T T'
  Walks-if true x y = x
  Walks-if false x y = y

  module _ (tms : ℕ) (state : TapState) (bits : List ℕ) where
    pub Walks-tms : (v : ℕ) → Walks (set_pin tms_swdio v) (At tms state bits) (At v state bits)
    unfolding set_pin ◌>>=◌
    Walks-tms v = record {
      at = λ w (x, h). (
        tt,
        (
          record w { trace = gpio_set tms_swdio v ∷ w.trace },
          (refl, (x, ap (on_call (gpio_set tms_swdio v)) h)),
        ),
      );
    }

    pub Walks-tdi : (v : ℕ) → Walks (set_pin tdi v) (At tms state bits) (At tms state bits)
    unfolding set_pin ◌>>=◌
    Walks-tdi v = record {
      at = λ w (x, h). (
        tt,
        (
          record w { trace = gpio_set tdi v ∷ w.trace },
          (refl, (v, ap (on_call (gpio_set tdi v)) h)),
        ),
      );
    }

  -- A state in which no bit of an instruction is shifted.
  module _ (tms : ℕ) (state : TapState) (bits : List ℕ)
      (still : (x : ℕ) → shifted state x bits ≡ bits) where
    after_edge :
        (x : ℕ) (t : Tap)
        → t ≡ record { tms_at = tms; tdi_at = x; state = state; instruction = bits }
        → At tms (next_state tms state) bits (edge t)
    after_edge x t h = (
      x,
      ap edge h
          ∙ ap
              (λ (bs : List ℕ). record {
                tms_at = tms;
                tdi_at = x;
                state = next_state tms state;
                instruction = bs;
              })
              (still x),
    )

    pub Walks-tck_cycle : Walks tck_cycle (At tms state bits) (At tms (next_state tms state) bits)
    unfolding tck_cycle set_pin delay ◌>>=◌
    Walks-tck_cycle = record {
      at = λ w (x, h). (
        tt,
        (
          record w {
            trace =
                wait_nanos d.swj.delay_ns
                ∷ gpio_set tck_swclk 1
                ∷ wait_nanos d.swj.delay_ns
                ∷ gpio_set tck_swclk 0
                ∷ w.trace;
          },
          (refl, after_edge x (replay t0 w.trace) h),
        ),
      );
    }

    pub Walks-tdi_cycle :
        (x : ℕ) → Walks (tdi_cycle x) (At tms state bits) (At tms (next_state tms state) bits)
    unfolding tdi_cycle set_pin delay ◌>>=◌
    Walks-tdi_cycle x = record {
      at = λ w (y, h). (
        tt,
        (
          record w {
            trace =
                wait_nanos d.swj.delay_ns
                ∷ gpio_set tck_swclk 1
                ∷ wait_nanos d.swj.delay_ns
                ∷ gpio_set tck_swclk 0
                ∷ gpio_set tdi (x % 2)
                ∷ w.trace;
          },
          (
            refl,
            after_edge (x % 2) (on_call (gpio_set tdi (x % 2)) (replay t0 w.trace))
                (ap (on_call (gpio_set tdi (x % 2))) h),
          ),
        ),
      );
    }

    pub Walks-tdo_cycle : Walks tdo_cycle (At tms state bits) (At tms (next_state tms state) bits)
    unfolding tdo_cycle set_pin delay ◌>>=◌
    Walks-tdo_cycle = record {
      at = λ w (x, h). (
        _,
        (
          record w {
            trace =
                wait_nanos d.swj.delay_ns
                ∷ gpio_set tck_swclk 1
                ∷ gpio_get tdo
                ∷ wait_nanos d.swj.delay_ns
                ∷ gpio_set tck_swclk 0
                ∷ w.trace;
          },
          (refl, after_edge x (replay t0 w.trace) h),
        ),
      );
    }

    pub Walks-tdio_cycle :
        (x : ℕ) → Walks (tdio_cycle x) (At tms state bits) (At tms (next_state tms state) bits)
    unfolding tdio_cycle set_pin delay ◌>>=◌
    Walks-tdio_cycle x = record {
      at = λ w (y, h). (
        _,
        (
          record w {
            trace =
                wait_nanos d.swj.delay_ns
                ∷ gpio_set tck_swclk 1
                ∷ gpio_get tdo
                ∷ wait_nanos d.swj.delay_ns
                ∷ gpio_set tck_swclk 0
                ∷ gpio_set tdi (x % 2)
                ∷ w.trace;
          },
          (
            refl,
            after_edge (x % 2) (on_call (gpio_set tdi (x % 2)) (replay t0 w.trace))
                (ap (on_call (gpio_set tdi (x % 2))) h),
          ),
        ),
      );
    }
