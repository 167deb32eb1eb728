-- ===== src/Util/Tests.antt =====
-- A busy wait over the end of the counter.
use riceprobe.Base.{◌≡◌, arith, [], ◌∷◌, map}
use riceprobe.Util.{busy_wait_nanos, first_after, counter, busy_wait_nanos_lem}

-- Half a microsecond at 125 MHz is 62 cycles; the counter starts again after 5 of these.
busy_wait_nanos_lem_example :
    busy_wait_nanos 125000000 500
      (counter 4294967291)
      (map counter (4294967293 ∷ 4294967300 ∷ 4294967360 ∷ []))
    ≡ first_after 4294967291 62 (4294967293 ∷ 4294967300 ∷ 4294967360 ∷ [])
busy_wait_nanos_lem_example =
    busy_wait_nanos_lem 125000000 500 4294967291 (4294967293 ∷ 4294967300 ∷ 4294967360 ∷ [])
      (omega arith) (omega arith)
      ((omega arith, omega arith), ((omega arith, omega arith), ((omega arith, omega arith), tt)))
