-- ===== src/Dap/Swo/Loop.antt =====
-- The loop of `dap_handle_cmd_swo_data` (firmware/src/dap/commands_swo.c).
use riceprobe.Base.{
  ℕ, zero, suc, ◌+◌, ◌%◌, ◌≤◌, ◌<◌, ◌≡◌, refl, ap, ◌∙◌, arith, Bool, true, false, ◌&&◌, length,
  length-append, length-drop, take, ltb, ◌⊎◌, inl, inr, Bool-cases,
}
use riceprobe.Zephyr.Ring
use riceprobe.Zephyr.Ring.{Ring}
use riceprobe.Zephyr.Prog.{run, ok, pure, ◌>>=◌}
use riceprobe.Zephyr.Bench.{Bench, Env, serve}
use riceprobe.Zephyr.Run.{run-bind}
use riceprobe.Dap.{Driver, Action}
use riceprobe.Dap.Swo.{move_swo, move_swo_loop}
use riceprobe.Dap.Swo.Moves.{
  Ready, shown, size_of, round, Moved, Moved-then, after_round, round-Moved, progress,
}

-- How the loop ends: what it moved, and that it would have moved more had there been more to move, room for it, and
-- more asked for.
pub record Ended (env : Env) (fuel max count : ℕ) (d : Driver) (w : Bench) : Type 0 where
  pub size : ℕ
  pub after : Bench
  pub runs :
      run (serve env) (move_swo_loop fuel max count d) w
      ≡ ((ok ((count + size) % 0x10000), d), after)
  pub moved : Moved size w after
  pub full :
      (max ≤ (count + size) % 0x10000)
      ⊎ ((length after.swo_ring.bytes ≡ 0) ⊎ (Ring.free after.response_ring ≡ 0))

module _ (env : Env) (max : ℕ) (d : Driver) where
  abbrev wants : ℕ → Bench → Bool
  wants count w =
      ltb count max && ltb 0 (length w.swo_ring.bytes) && ltb 0 (Ring.free w.response_ring)

  abbrev next_turn : ℕ → ℕ → Bool → Action ℕ
  next_turn fuel count again = elim again [
    | true ↦ move_swo_loop fuel max count
    | false ↦ pure count
  ]

  abbrev counted : ℕ → Bench → ℕ
  counted count w = (count + size_of max w) % 0x10000

  turn :
      (fuel count : ℕ) (w : Bench)
      → Ready w
      → run (serve env) (move_swo_loop (suc fuel) max count d) w
        ≡ run
            (serve env)
            (next_turn fuel (counted count w) (wants (counted count w) (after_round max w)) d)
            (after_round max w)
  unfolding move_swo_loop ◌>>=◌
  turn fuel count w ready =
      run-bind (serve env) (move_swo max) _ d d w (after_round max w) (size_of max w)
        (round env max d w ready)

  stays :
      (count : ℕ) (w : Bench)
      → wants count w ≡ false
      → (max ≤ count) ⊎ ((length w.swo_ring.bytes ≡ 0) ⊎ (Ring.free w.response_ring ≡ 0))
  stays count w h = ground arith

  goes :
      (count : ℕ) (w : Bench)
      → wants count w ≡ true
      → (0 < max) × (0 < length w.swo_ring.bytes) × (0 < Ring.free w.response_ring)
  goes count w h = (ground arith, ground arith, ground arith)

  stopped :
      (fuel count : ℕ) (again : Bool) (w : Bench)
      → again ≡ false
      → run (serve env) (next_turn fuel count again d) w ≡ ((ok count, d), w)
  unfolding pure
  stopped fuel count true w h = ground arith
  stopped fuel count false w h = refl

  resumed :
      (fuel count : ℕ) (again : Bool) (w : Bench)
      → again ≡ true
      → run (serve env) (next_turn fuel count again d) w
        ≡ run (serve env) (move_swo_loop fuel max count d) w
  resumed fuel count true w h = refl
  resumed fuel count false w h = ground arith

  -- A round behind which another one follows has taken a byte.
  shorter :
      (fuel count : ℕ) (w : Bench)
      → Ready w
      → wants count (after_round max w) ≡ true
      → length w.swo_ring.bytes < suc fuel
      → length (after_round max w).swo_ring.bytes < fuel
  shorter fuel count w ready again enough =
      let (wanted, some_left, space) = goes count (after_round max w) again in
      let behind = length-drop (size_of max w) w.swo_ring.bytes in
      let held = length-append w.response_ring.bytes (take (size_of max w) (shown max w)) in
      let moves =
        progress max w ready wanted (omega (arith, some_left, behind))
          (omega (arith, space, held, ap length ready.unclaimed)) in
      omega (arith, moves, behind, enough)

  counts : (count a b : ℕ) → ((count + a) % 0x10000 + b) % 0x10000 ≡ (count + (a + b)) % 0x10000
  counts count a b = omega arith

  pub loop-ends :
      (fuel count : ℕ) (w : Bench)
      → Ready w
      → length w.swo_ring.bytes < fuel
      → Ended env fuel max count d w
  loop-ends zero count w ready enough = ground arith
  loop-ends (suc fuel) count w ready enough =
      elim (Bool-cases (wants (counted count w) (after_round max w))) [
        | inr e ↦ record {
          size = size_of max w;
          after = after_round max w;
          runs = turn fuel count w ready ∙ stopped fuel (counted count w) _ (after_round max w) e;
          moved = round-Moved max w ready;
          full = stays (counted count w) (after_round max w) e;
        }
        | inl e ↦
            let rest =
              loop-ends fuel (counted count w) (after_round max w) (round-Moved max w ready).ready
                (shorter fuel (counted count w) w ready e enough) in
            let total = counts count (size_of max w) rest.size in
            record {
              size = size_of max w + rest.size;
              after = rest.after;
              runs =
                  turn fuel count w ready
                  ∙ (resumed fuel (counted count w) _ (after_round max w) e
                      ∙ (rest.runs ∙ ap (λ n. ((ok n, d), rest.after)) total));
              moved = Moved-then (round-Moved max w ready) rest.moved;
              full = rw total at rest.full;
            }
      ]
