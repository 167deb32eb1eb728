-- ===== src/Dap/Swo/Data.antt =====
-- The answer to a request for trace data (firmware/src/dap/commands_swo.c).
use riceprobe.Base.{
  ℕ, ◌+◌, ◌%◌, ◌≤◌, ◌≡◌, refl, ap, ◌∙◌, arith, not, List, [], ◌∷◌, ◌++◌, length, length-append,
  take, drop, ◌==◌, ◌⊎◌,
}
use riceprobe.Base.Bits.{le16, get_le16}
use riceprobe.Base.Int.{is_negative}
use riceprobe.Errno.{enobufs}
use riceprobe.Zephyr.{response, buf_put_claim, buf_put_finish, buf_store}
use riceprobe.Zephyr.Ring
use riceprobe.Zephyr.Ring.{Ring, overwrite}
use riceprobe.Zephyr.Prog.{Outcome, run, ok, ask, gets, require, ◌>>=◌, ◌>>◌}
use riceprobe.Zephyr.Bench.{Bench, Env, serve}
use riceprobe.Zephyr.Run.{run-bind}
use riceprobe.Dap.{Driver, Action, two_bytes, get_u16, respond}
use riceprobe.Dap.Swo.{trace_status, move_swo_loop, handle_swo_data}
use riceprobe.Dap.Swo.Moves.{Ready}
use riceprobe.Dap.Swo.Loop.{loop-ends}
use riceprobe.Dap.Swo.Count.{
  holding, put_all, same_number, two_claimed, answered, length-head, as_full,
}

module _ (env : Env) (d : Driver) where
  abbrev responded : List ℕ → Bench → ℕ × Ring → (Outcome (Unit {0}) × Driver) × Bench
  responded xs w put =
      run (serve env) (require (put.0 == length xs) enobufs d) (record w { response_ring = put.1 })

  run-respond :
      (xs : List ℕ) (w : Bench)
      → length xs ≤ Ring.free w.response_ring
      → run (serve env) (respond xs d) w ≡ ((ok tt, d), holding w (w.response_ring.bytes ++ xs))
  unfolding respond require ◌>>=◌
  run-respond xs w fits =
      ap (responded xs w) (put_all xs w.response_ring fits) ∙ rw (same_number (length xs)) refl

  abbrev asked : Bench → Bench
  asked w = record w { request_ring = (Ring.get w.request_ring 2).1 }

  run-get_u16 :
      (lo hi : ℕ) (rest : List ℕ) (w : Bench)
      → w.request_ring.bytes ≡ lo ∷ hi ∷ rest
      → run (serve env) (get_u16 d) w ≡ ((ok (get_le16 lo hi), d), asked w)
  unfolding get_u16 ◌>>=◌
  run-get_u16 lo hi rest w h = ap (λ xs. run (serve env) (two_bytes xs d) (asked w)) (ap (take 2) h)

  -- What follows the status byte.
  abbrev counting : ℕ → Action (Unit {0})
  counting max = do
    (size, at) ← ask (buf_put_claim response 2)
    require (size == 2) enobufs
    ret ← ask (buf_put_finish response 2)
    require (not (is_negative ret)) enobufs
    count ← move_swo_loop 0x10001 max 0
    ask (buf_store response at (le16 count))

  abbrev headed : Bench → List ℕ
  headed w = (w.response_ring.bytes ++ (0x1c ∷ [])) ++ (trace_status d.swo ∷ [])

  begun :
      (lo hi : ℕ) (rest : List ℕ) (w : Bench)
      → w.request_ring.bytes ≡ lo ∷ hi ∷ rest
      → w.response_ring.claimed ≡ []
      → 4 + length w.response_ring.bytes ≤ w.response_ring.cap
      → run (serve env) (handle_swo_data d) w
        ≡ run (serve env) (counting (get_le16 lo hi) d) (holding (asked w) (headed w))
  unfolding handle_swo_data gets ◌>>=◌
  begun lo hi rest w asks unclaimed room =
      run-bind (serve env) get_u16 _ d d w (asked w) (get_le16 lo hi)
        (run-get_u16 lo hi rest w asks)
      ∙ (run-bind (serve env) (respond (0x1c ∷ [])) _ d d (asked w)
            (holding (asked w) (w.response_ring.bytes ++ (0x1c ∷ []))) tt
            (run-respond (0x1c ∷ []) (asked w) (omega (arith, ap length unclaimed, room)))
          ∙ run-bind (serve env) (respond (trace_status d.swo ∷ [])) _ d d
              (holding (asked w) (w.response_ring.bytes ++ (0x1c ∷ [])))
              (holding (asked w) (headed w)) tt
              (run-respond (trace_status d.swo ∷ []) _
                (omega (arith, length-append w.response_ring.bytes (0x1c ∷ []), room))))

  -- The count is claimed and left for later.
  abbrev left_open : Bench → Bench
  left_open w = holding w (
      w.response_ring.bytes
      ++ (w.response_ring.stale (length w.response_ring.bytes)
          ∷ w.response_ring.stale (length w.response_ring.bytes + 1)
          ∷ []))

  abbrev behind_claim : ℕ → Bench → (ℕ × ℕ) × Ring → (Outcome (Unit {0}) × Driver) × Bench
  behind_claim max w claim =
      run (serve env)
        ((do
          require (claim.0.0 == 2) enobufs
          ret ← ask (buf_put_finish response 2)
          require (not (is_negative ret)) enobufs
          count ← move_swo_loop 0x10001 max 0
          ask (buf_store response claim.0.1 (le16 count)))
          d)
        (record w { response_ring = claim.1 })

  opened :
      (max : ℕ) (w : Bench)
      → w.response_ring.claimed ≡ []
      → w.response_ring.head ≡ 0
      → 2 + length w.response_ring.bytes ≤ w.response_ring.cap
      → run (serve env) (counting max d) w
        ≡ run
            (serve env)
            ((move_swo_loop 0x10001 max 0 >>= λ count.
                ask (buf_store response (length w.response_ring.bytes) (le16 count)))
              d)
            (left_open w)
  unfolding require ◌>>=◌
  opened max w unclaimed front room =
      ap (behind_claim max w) (two_claimed w.response_ring unclaimed front room)

  -- A request for trace data moves it: where the request holds the number of bytes that are asked for, the response
  -- buffer starts at its first cell and has room for the head, and no more trace data is held than the rounds of the
  -- loop allow, the command ends normally; behind what the response held stand the command, the status, the number
  -- of bytes that follow, and then that many bytes of the trace data, the oldest ones, in their order, and just these
  -- are gone from the trace buffer: no byte is lost, repeated or changed, however both buffers wrap around. And it
  -- ends only where the number that was asked for is reached, the trace buffer is empty, or the response is full.
  pub handle_swo_data-moves :
      (lo hi : ℕ) (rest : List ℕ) (w : Bench)
      → w.request_ring.bytes ≡ lo ∷ hi ∷ rest
      → Ready w
      → w.response_ring.head ≡ 0
      → 4 + length w.response_ring.bytes ≤ w.response_ring.cap
      → length w.swo_ring.bytes ≤ 0x10000
      → (n : ℕ) × (w' : Bench) × (run (serve env) (handle_swo_data d) w ≡ ((ok tt, d), w'))
        × (n ≤ length w.swo_ring.bytes)
        × (w'.response_ring.bytes
            ≡ w.response_ring.bytes
              ++ (0x1c ∷ trace_status d.swo ∷ (le16 n ++ take n w.swo_ring.bytes)))
        × (w'.swo_ring.bytes ≡ drop n w.swo_ring.bytes)
        × ((get_le16 lo hi ≤ n % 0x10000)
            ⊎ ((length w'.swo_ring.bytes ≡ 0) ⊎ (Ring.free w'.response_ring ≡ 0)))
  unfolding ◌>>=◌
  handle_swo_data-moves lo hi rest w asks ready front room small =
      let pre = headed w in
      let begin = left_open (holding (asked w) pre) in
      let e =
        loop-ends env (get_le16 lo hi) d 0x10001 0 begin
          (record { room = ready.room; unread = ready.unread; unclaimed = refl })
          (omega (arith, small)) in
      (
        e.size,
        record e.after {
          response_ring =
              Ring.store e.after.response_ring (length pre) (le16 ((0 + e.size) % 0x10000));
        },
        begun lo hi rest w asks ready.unclaimed room
            ∙ (opened (get_le16 lo hi) (holding (asked w) pre) refl front
                  (omega (arith, room, length-head w.response_ring.bytes 0x1c (trace_status d.swo)))
                ∙ run-bind (serve env) (move_swo_loop 0x10001 (get_le16 lo hi) 0) _ d d begin
                    e.after _ e.runs),
        e.moved.few,
        answered w.response_ring.bytes _ e.after.response_ring e.size (trace_status d.swo) _ _
            e.moved.got,
        e.moved.left,
        as_full (get_le16 lo hi) e.size (length pre) e.after.swo_ring.bytes _ e.after.response_ring
            e.full,
      )
