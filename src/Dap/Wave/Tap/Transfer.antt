-- ===== src/Dap/Wave/Tap/Transfer.antt =====
-- The walk of a JTAG transfer through the states of the test access port: `jtag_transfer` of
-- firmware/src/dap/commands_transfer.c.
use riceprobe.Base.{ℕ, zero, suc, ◌+◌, ◌-◌, ◌*◌, ◌/◌, ◌^◌, ◌≡◌, refl, Bool, List, if◌then◌else◌}
use riceprobe.Zephyr.{tms_swdio, tdi}
use riceprobe.Zephyr.Prog.{run, ok, ◌>>=◌, ◌>>◌, pure, gets, repeat}
use riceprobe.Zephyr.Bench.{Bench, Env, serve}
use riceprobe.Dap.{Driver, set_pin}
use riceprobe.Dap.Jtag.{tck_cycle, tdi_bits, tdo_bits}
use riceprobe.Dap.Transfer.Port.{jtag_transfer, jtag_read, jtag_write}
use riceprobe.Dap.Wave.Tap.{Tap, idle, select_dr, capture_dr, shift_dr, exit1_dr, update_dr, replay}
use riceprobe.Dap.Wave.Tap.Walks.{
  At, Walks, Walks-bind, Walks-pure, Walks-gets, Walks-if, Walks-tms, Walks-tdi, Walks-tck_cycle,
  Walks-tdi_cycle, Walks-tdo_cycle, Walks-tdio_cycle,
}

-- The loops stay in Shift-DR, and in Run-Test/Idle.
module _ (env : Env) (t0 : Tap) (d : Driver) (bits : List ℕ) where
  Walks-repeat :
      (n : ℕ) → Walks env t0 d (repeat n tck_cycle) (At 0 shift_dr bits) (At 0 shift_dr bits)
  unfolding repeat
  Walks-repeat zero = Walks-pure env t0 d tt
  Walks-repeat (suc n) =
      Walks-bind env t0 d _ (Walks-tck_cycle env t0 d 0 shift_dr bits (λ x. refl))
        (λ _. Walks-repeat n)

  Walks-idle : (n : ℕ) → Walks env t0 d (repeat n tck_cycle) (At 0 idle bits) (At 0 idle bits)
  unfolding repeat
  Walks-idle zero = Walks-pure env t0 d tt
  Walks-idle (suc n) =
      Walks-bind env t0 d _ (Walks-tck_cycle env t0 d 0 idle bits (λ x. refl)) (λ _. Walks-idle n)

  Walks-tdi_bits :
      (k x : ℕ) → Walks env t0 d (tdi_bits k x) (At 0 shift_dr bits) (At 0 shift_dr bits)
  unfolding tdi_bits
  Walks-tdi_bits zero x = Walks-pure env t0 d x
  Walks-tdi_bits (suc k) x =
      Walks-bind env t0 d _ (Walks-tdi_cycle env t0 d 0 shift_dr bits (λ x. refl) x)
        (λ _. Walks-tdi_bits k (x / 2))

  Walks-tdo_bits :
      (k i acc : ℕ) → Walks env t0 d (tdo_bits k i acc) (At 0 shift_dr bits) (At 0 shift_dr bits)
  unfolding tdo_bits
  Walks-tdo_bits zero i acc = Walks-pure env t0 d acc
  Walks-tdo_bits (suc k) i acc =
      Walks-bind env t0 d _ (Walks-tdo_cycle env t0 d 0 shift_dr bits (λ x. refl))
        (λ b. Walks-tdo_bits k (i + 1) (acc + b * 2 ^ i))

  -- The last bit leaves with tms high.
  Walks-last_bit :
      (i acc : ℕ) → Walks env t0 d (tdo_bits 1 i acc) (At 1 shift_dr bits) (At 1 exit1_dr bits)
  unfolding tdo_bits
  Walks-last_bit i acc =
      Walks-bind env t0 d _ (Walks-tdo_cycle env t0 d 1 shift_dr bits (λ x. refl))
        (λ b. Walks-pure env t0 d _)

  Walks-leave :
      Walks env t0 d (set_pin tms_swdio 1 >> tck_cycle) (At 0 shift_dr bits) (At 1 exit1_dr bits)
  Walks-leave =
      Walks-bind env t0 d _ (Walks-tms env t0 d 0 shift_dr bits 1)
        (λ _. Walks-tck_cycle env t0 d 1 shift_dr bits (λ x. refl))

  Walks-jtag_read : Walks env t0 d jtag_read (At 0 shift_dr bits) (At 1 exit1_dr bits)
  unfolding jtag_read
  Walks-jtag_read = Walks-bind env t0 d _ (Walks-tdo_bits 31 0 0) (λ low.
      Walks-bind env t0 d _ (Walks-gets env t0 d _) (λ after.
        Walks-if env t0 d _
          (Walks-bind env t0 d _ (Walks-tms env t0 d 0 shift_dr bits 1)
            (λ _. Walks-last_bit 31 low))
          (Walks-bind env t0 d _ (Walks-tdo_bits 1 31 low) (λ dr.
            Walks-bind env t0 d _ (Walks-repeat (after - 1)) (λ _.
              Walks-bind env t0 d _ (Walks-tms env t0 d 0 shift_dr bits 1) (λ _.
                Walks-bind env t0 d _ (Walks-tck_cycle env t0 d 1 shift_dr bits (λ x. refl))
                  (λ _. Walks-pure env t0 d dr)))))))

  Walks-jtag_write :
      (word : ℕ) → Walks env t0 d (jtag_write word) (At 0 shift_dr bits) (At 1 exit1_dr bits)
  unfolding jtag_write
  Walks-jtag_write word = Walks-bind env t0 d _ (Walks-tdi_bits 31 word) (λ top.
      Walks-bind env t0 d _ (Walks-gets env t0 d _) (λ after.
        Walks-if env t0 d _
          (Walks-bind env t0 d _ (Walks-tms env t0 d 0 shift_dr bits 1)
            (λ _. Walks-tdi_cycle env t0 d 1 shift_dr bits (λ x. refl) top))
          (Walks-bind env t0 d _ (Walks-tdi_cycle env t0 d 0 shift_dr bits (λ x. refl) top)
            (λ _. Walks-bind env t0 d _ (Walks-repeat (after - 1)) (λ _. Walks-leave)))))

  Walks-data :
      (refused read : Bool) (word : ℕ)
      → Walks env t0 d
          (if refused
            then (set_pin tms_swdio 1 >> (tck_cycle >> pure word))
            else (if read then jtag_read else (jtag_write word >> pure word)))
          (At 0 shift_dr bits)
          (At 1 exit1_dr bits)
  Walks-data refused read word =
      Walks-if env t0 d refused
        (Walks-bind env t0 d _ (Walks-tms env t0 d 0 shift_dr bits 1) (λ _.
          Walks-bind env t0 d _ (Walks-tck_cycle env t0 d 1 shift_dr bits (λ x. refl))
            (λ _. Walks-pure env t0 d word)))
        (Walks-if env t0 d read Walks-jtag_read
          (Walks-bind env t0 d _ (Walks-jtag_write word) (λ _. Walks-pure env t0 d word)))

  Walks-finish :
      (ack word : ℕ)
      → Walks env t0 d {A = ℕ × ℕ}
          (tck_cycle
            >> (set_pin tms_swdio 0
                >> (tck_cycle
                    >> (set_pin tdi 1
                        >> (gets (λ (d : Driver). d.transfer.idle_cycles) >>= λ n.
                            repeat n tck_cycle >> pure (ack, word))))))
          (At 1 exit1_dr bits)
          (At 0 idle bits)
  Walks-finish ack word =
      Walks-bind env t0 d _ (Walks-tck_cycle env t0 d 1 exit1_dr bits (λ x. refl)) (λ _.
        Walks-bind env t0 d _ (Walks-tms env t0 d 1 update_dr bits 0) (λ _.
          Walks-bind env t0 d _ (Walks-tck_cycle env t0 d 0 update_dr bits (λ x. refl)) (λ _.
            Walks-bind env t0 d _ (Walks-tdi env t0 d 0 idle bits 1) (λ _.
              Walks-bind env t0 d _ (Walks-gets env t0 d _) (λ n.
                Walks-bind env t0 d _ (Walks-idle n) (λ _. Walks-pure env t0 d (ack, word)))))))

  Walks-jtag_transfer :
      (tms req word : ℕ)
      → Walks env t0 d (jtag_transfer req word) (At tms idle bits) (At 0 idle bits)
  unfolding jtag_transfer
  Walks-jtag_transfer tms req word =
      Walks-bind env t0 d _ (Walks-tms env t0 d tms idle bits 1) (λ _.
        Walks-bind env t0 d _ (Walks-tck_cycle env t0 d 1 idle bits (λ x. refl)) (λ _.
          Walks-bind env t0 d _ (Walks-tms env t0 d 1 select_dr bits 0) (λ _.
            Walks-bind env t0 d _ (Walks-tck_cycle env t0 d 0 select_dr bits (λ x. refl)) (λ _.
              Walks-bind env t0 d _ (Walks-tck_cycle env t0 d 0 capture_dr bits (λ x. refl)) (λ _.
                Walks-bind env t0 d _ (Walks-gets env t0 d _) (λ index.
                  Walks-bind env t0 d _ (Walks-repeat index) (λ _.
                    Walks-bind env t0 d _ (Walks-tdio_cycle env t0 d 0 shift_dr bits (λ x. refl) _)
                      (λ ack1.
                        Walks-bind env t0 d _
                          (Walks-tdio_cycle env t0 d 0 shift_dr bits (λ x. refl) _)
                          (λ ack0.
                            Walks-bind env t0 d _
                              (Walks-tdio_cycle env t0 d 0 shift_dr bits (λ x. refl) _)
                              (λ ack2.
                                Walks-bind env t0 d _ (Walks-data _ _ word)
                                  (λ word'. Walks-finish _ word')))))))))))

-- A JTAG transfer leaves the test access port where it was. From any state of the driver, with any
-- request and word, and whatever levels are read from the target, its ack among them: on a bench whose
-- trace has left the port in Run-Test/Idle, the code ends normally with an ack and a word, the driver
-- is unchanged, the port is in Run-Test/Idle again, and no bit was shifted into an instruction
-- register.
pub jtag_transfer-At :
    (env : Env) (t0 : Tap) (d : Driver) (req word tms : ℕ) (bits : List ℕ) (w : Bench)
    → At tms idle bits (replay t0 w.trace)
    → (result : ℕ × ℕ) × (((run (serve env) (jtag_transfer req word d) w).0 ≡ (ok result, d))
        × At 0 idle bits (replay t0 (run (serve env) (jtag_transfer req word d) w).1.trace))
jtag_transfer-At env t0 d req word tms bits w h =
    let (a, (v, (e, k))) = (Walks-jtag_transfer env t0 d bits tms req word).at w h in
    (a, rw e (refl, k))
