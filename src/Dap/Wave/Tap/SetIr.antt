-- ===== src/Dap/Wave/Tap/SetIr.antt =====
-- `jtag_set_ir` of firmware/src/dap/commands_jtag.c scans an instruction register.
use riceprobe.Base.{
  ℕ, zero, suc, ◌-◌, ◌%◌, ◌<◌, ◌≡◌, refl, ap, ◌∙◌, arith, ◌++◌, List, replicate, get_or, [], ◌∷◌,
  ◌==◌, if◌then◌else◌, false,
}
use riceprobe.Zephyr.{tms_swdio, tdi}
use riceprobe.Zephyr.Prog.{run, ok, ◌>>◌, repeat}
use riceprobe.Zephyr.Bench.{Bench, Env, serve}
use riceprobe.Dap.{Driver, set_pin}
use riceprobe.Dap.Jtag.{tck_cycle, tdi_cycle, set_ir}
use riceprobe.Dap.Wave.Tap.{Tap, idle, exit1_ir, pushed, bits_of, replay}
use riceprobe.Dap.Wave.Tap.Drives.{
  Drives, Drives-bind, Drives-gets, Drives-set_pin, Drives-tck_cycle, Drives-tdi_cycle,
  Drives-repeat, Drives-tdi_bits, shifting, halved, bits_of-snoc,
}

pushed-snoc :
    (n x : ℕ) (bits : List ℕ) → pushed (replicate n x) (x ∷ bits) ≡ x ∷ pushed (replicate n x) bits
pushed-snoc zero x bits = refl
pushed-snoc (suc n) x bits = pushed-snoc n x (x ∷ bits)

pushed-append : (xs ys bits : List ℕ) → pushed (xs ++ ys) bits ≡ pushed ys (pushed xs bits)
pushed-append [] ys bits = refl
pushed-append (x ∷ xs) ys bits = pushed-append xs ys (x ∷ bits)

-- The bits of one scan: ones for the devices before, the instruction, ones for the devices behind.
abbrev pub scan_bits : Driver → ℕ → List ℕ
scan_bits d ir =
    replicate (get_or d.jtag.ir_before d.jtag.index 0) 1
    ++ (bits_of (get_or d.jtag.ir_length d.jtag.index 0) ir
        ++ replicate (get_or d.jtag.ir_after d.jtag.index 0) 1)

pushed-word :
    (len word : ℕ) (bits : List ℕ)
    → 0 < len
    → pushed (bits_of len word) bits
      ≡ halved (len - 1) word % 2 ∷ pushed (bits_of (len - 1) word) bits
pushed-word zero word bits room = ground arith
pushed-word (suc k) word bits room =
    rw (one_less, bits_of-snoc k word, pushed-append (bits_of k word) (halved k word % 2 ∷ []) bits)
      refl
  where
    one_less : suc k - 1 ≡ k
    one_less = omega arith

pushed-scan :
    (before len after word : ℕ) (bits : List ℕ)
    → 0 < len
    → pushed (replicate before 1 ++ (bits_of len word ++ replicate after 1)) bits
      ≡ pushed (replicate after 1) (
          halved (len - 1) word % 2
          ∷ pushed (bits_of (len - 1) word) (pushed (replicate before 1) bits))
pushed-scan before len after word bits room =
    pushed-append (replicate before 1) (bits_of len word ++ replicate after 1) bits
    ∙ pushed-append (bits_of len word) (replicate after 1) (pushed (replicate before 1) bits)
    ∙ ap (pushed (replicate after 1)) (pushed-word len word (pushed (replicate before 1) bits) room)

-- The port once the last bit of a scan is in.
abbrev left_ir : ℕ → List ℕ → Tap
left_ir level bits = record { tms_at = 1; tdi_at = level; state = exit1_ir; instruction = bits }

-- Run-Test/Idle.
abbrev pub resting : ℕ → ℕ → List ℕ → Tap
resting tms level bits = record { tms_at = tms; tdi_at = level; state = idle; instruction = bits }

module _ (env : Env) (t0 : Tap) where
  leave_last :
      (last : ℕ) (d : Driver) (level : ℕ) (bits : List ℕ)
      → Drives env t0
          (set_pin tms_swdio 1 >> tdi_cycle last)
          d
          tt
          (shifting level bits)
          (left_ir (last % 2) (last % 2 ∷ bits))
  leave_last last d level bits =
      Drives-bind env t0 _ (Drives-set_pin env t0 tms_swdio 1 d _)
        (Drives-tdi_cycle env t0 last d _)

  leave_more :
      (n last : ℕ) (d : Driver) (level : ℕ) (bits : List ℕ)
      → Drives env t0
          (tdi_cycle last
            >> (set_pin tdi 1 >> (repeat n tck_cycle >> (set_pin tms_swdio 1 >> tck_cycle))))
          d
          tt
          (shifting level bits)
          (left_ir 1 (pushed (replicate (suc n) 1) (last % 2 ∷ bits)))
  leave_more n last d level bits = rw (pushed-snoc n 1 (last % 2 ∷ bits)) (
      Drives-bind env t0 _ (Drives-tdi_cycle env t0 last d _) (
        Drives-bind env t0 _ (Drives-set_pin env t0 tdi 1 d _) (
          Drives-bind env t0 _ (Drives-repeat env t0 n d 1 _) (
            Drives-bind env t0 _ (Drives-set_pin env t0 tms_swdio 1 d _)
              (Drives-tck_cycle env t0 d _)))))

  -- Either way out of the scan.
  leave_ir :
      (after last : ℕ) (d : Driver) (level : ℕ) (bits : List ℕ)
      → (x : ℕ) × Drives env t0
          (if after == 0
            then (set_pin tms_swdio 1 >> tdi_cycle last)
            else (tdi_cycle last
                >> (set_pin tdi 1
                    >> (repeat (after - 1) tck_cycle >> (set_pin tms_swdio 1 >> tck_cycle)))))
          d
          tt
          (shifting level bits)
          (left_ir x (pushed (replicate after 1) (last % 2 ∷ bits)))
  leave_ir zero last d level bits = (last % 2, leave_last last d level bits)
  leave_ir (suc n) last d level bits = (1, rw (not_zero, one_less) (leave_more n last d level bits))
    where
      not_zero : (suc n == 0) ≡ false
      not_zero = ground arith

      one_less : suc n - 1 ≡ n
      one_less = omega arith

  Drives-set_ir :
      (ir : ℕ) (d : Driver) (tms level : ℕ) (bits : List ℕ)
      → 0 < get_or d.jtag.ir_length d.jtag.index 0
      → Drives env t0
          (set_ir ir)
          d
          tt
          (resting tms level bits)
          (resting 0 1 (pushed (scan_bits d ir) bits))
  unfolding set_ir
  Drives-set_ir ir d tms level bits room =
      rw
        (pushed-scan (get_or d.jtag.ir_before d.jtag.index 0)
          (get_or d.jtag.ir_length d.jtag.index 0) (get_or d.jtag.ir_after d.jtag.index 0) ir bits
          room)
        (Drives-bind env t0 _ (Drives-gets env t0 _ d) (
          Drives-bind env t0 _ (Drives-gets env t0 _ d) (
            Drives-bind env t0 _ (Drives-gets env t0 _ d) (
              Drives-bind env t0 _ (Drives-set_pin env t0 tms_swdio 1 d _) (
                Drives-bind env t0 _ (Drives-tck_cycle env t0 d _) (
                  Drives-bind env t0 _ (Drives-tck_cycle env t0 d _) (
                    Drives-bind env t0 _ (Drives-set_pin env t0 tms_swdio 0 d _) (
                      Drives-bind env t0 _ (Drives-tck_cycle env t0 d _) (
                        Drives-bind env t0 _ (Drives-tck_cycle env t0 d _) (
                          Drives-bind env t0 _ (Drives-set_pin env t0 tdi 1 d _) (
                            Drives-bind env t0 _ (Drives-repeat env t0 _ d 1 bits) (
                              Drives-bind env t0 _ (Drives-tdi_bits env t0 _ ir d 1 _) (
                                Drives-bind env t0 _ ((leave_ir _ _ d _ _).1) (
                                  Drives-bind env t0 _ (Drives-tck_cycle env t0 d _) (
                                    Drives-bind env t0 _ (Drives-set_pin env t0 tms_swdio 0 d _) (
                                      Drives-bind env t0 _ (Drives-tck_cycle env t0 d _)
                                        (Drives-set_pin env t0 tdi 1 d _)))))))))))))))))

-- `jtag_set_ir` loads an instruction into one device of the chain. On any bench whose trace has left
-- the port in Run-Test/Idle, with any levels on tms and tdi, and for a device whose instruction
-- register has at least one bit: the code ends normally with the driver unchanged, the port is in
-- Run-Test/Idle again with tms low and tdi high, and in between exactly these bits were shifted into
-- the instruction registers, in this order: a one for each bit before the device, the low bits of `ir`
-- from the lowest on, and a one for each bit behind the device.
pub set_ir-scans :
    (env : Env) (t0 : Tap) (ir : ℕ) (d : Driver) (tms level : ℕ) (bits : List ℕ) (w : Bench)
    → 0 < get_or d.jtag.ir_length d.jtag.index 0
    → replay t0 w.trace ≡ resting tms level bits
    → ((run (serve env) (set_ir ir d) w).0 ≡ (ok tt, d))
      × (replay t0 (run (serve env) (set_ir ir d) w).1.trace
          ≡ resting 0 1 (pushed (scan_bits d ir) bits))
set_ir-scans env t0 ir d tms level bits w room h =
    let (v, (e, k)) = (Drives-set_ir env t0 ir d tms level bits room).at w h in rw e (refl, k)
