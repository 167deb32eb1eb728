-- ===== src/Dap/Swo/Moves.antt =====
-- What `dap_handle_cmd_swo_data` (firmware/src/dap/commands_swo.c) moves from one ring buffer to the other.
use riceprobe.Base.{
  ℕ, ◌+◌, ◌-◌, ◌%◌, ◌≤◌, ◌<◌, ◌≡◌, refl, sym, ap, ◌∙◌, arith, min, ◌&&◌, List, [], ◌++◌, length,
  length-take, length-drop, take, drop, take-take, take_add, drop_add, append_assoc, le→leb,
}
use native.Mathlib.Nat.{mod-lt}
use riceprobe.Base.Int.{ℤ, pos}
use riceprobe.Zephyr.Ring
use riceprobe.Zephyr.Ring.{Ring}
use riceprobe.Zephyr.Prog.{Outcome, run, ok, pure, require, ◌>>=◌}
use riceprobe.Zephyr.Bench.{Bench, Env, serve}
use riceprobe.Vcp.Fifo.{ring-puts}
use riceprobe.Dap.{Driver}
use riceprobe.Dap.Swo.{is_zero, move_swo}
use mathlib.Core.Path.{ap₂}
use riceprobe.Errno.{enobufs}

-- Nothing is claimed of either buffer.
pub record Ready (w : Bench) : Type 0 where
  pub room : 0 < w.swo_ring.cap
  pub unread : w.swo_ring.taken ≡ 0
  pub unclaimed : w.response_ring.claimed ≡ []

-- What a round sees, and how much of it it moves.
abbrev pub shown : ℕ → Bench → List ℕ
shown max w = (Ring.get_claim w.swo_ring max).0

abbrev pub size_of : ℕ → Bench → ℕ
size_of max w = (Ring.put_claim w.response_ring (length (shown max w))).0.0

abbrev moved_on : ℕ → List ℕ → Bench → Bench
moved_on n xs w = record w {
  swo_ring = record w.swo_ring {
    bytes = drop n w.swo_ring.bytes;
    head = (w.swo_ring.head + n) % w.swo_ring.cap;
    taken = 0;
  };
  response_ring = record w.response_ring { bytes = w.response_ring.bytes ++ xs; claimed = [] };
}

finish_put :
    (n k : ℕ) (xs : List ℕ) (r : Ring)
    → r.claimed ≡ []
    → k ≡ length xs
    → length xs ≤ (Ring.put_claim r n).0.0
    → Ring.put_finish (Ring.store (Ring.put_claim r n).1 (Ring.put_claim r n).0.1 xs) k
      ≡ (pos 0, record r { bytes = r.bytes ++ xs; claimed = [] })
finish_put n k xs r h e fits =
    ap (Ring.put_finish (Ring.store (Ring.put_claim r n).1 (Ring.put_claim r n).0.1 xs)) e
    ∙ ring-puts n xs r h fits

take_few : (k : ℕ) (xs : List ℕ) → k ≤ length xs → k ≡ length (take k xs)
take_few k xs h = omega (arith, h, length-take k xs)

finish_get :
    (n k : ℕ) (r : Ring)
    → k ≤ length (Ring.get_claim r n).0
    → r.taken ≡ 0
    → Ring.get_finish (Ring.get_claim r n).1 k
      ≡ (pos 0, record r { bytes = drop k r.bytes; head = (r.head + k) % r.cap; taken = 0 })
finish_get n k r few unread =
    rw
      (le→leb k (Ring.get_claim r n).1.taken (
        omega (
          arith,
          few,
          length-take (min n (r.cap - (r.head + r.taken) % r.cap)) (drop r.taken r.bytes),
        )))
      refl

module _ (env : Env) (max : ℕ) (d : Driver) (w : Bench) (ready : Ready w) where
  fits : size_of max w ≤ length (shown max w)
  fits = omega arith

  -- The end of a round, behind what both finishes return.
  abbrev settled : ℤ × Ring → ℤ × Ring → (Outcome ℕ × Driver) × Bench
  settled got put =
      run (serve env)
        ((require (is_zero got.0 && is_zero put.0) enobufs >>= λ _. pure (size_of max w)) d)
        (record w { swo_ring = got.1; response_ring = put.1 })

  pub round :
      run (serve env) (move_swo max d) w
      ≡ ((ok (size_of max w), d), moved_on (size_of max w) (take (size_of max w) (shown max w)) w)
  unfolding move_swo require pure ◌>>=◌
  round = ap₂ settled (finish_get max (size_of max w) w.swo_ring fits ready.unread) (
      finish_put (length (shown max w)) (size_of max w) (take (size_of max w) (shown max w))
        w.response_ring ready.unclaimed (take_few (size_of max w) (shown max w) fits)
        (omega (arith, take_few (size_of max w) (shown max w) fits)))

-- The first `n` bytes went from the one buffer to the other, in their order, and all else stayed.
pub record Moved (n : ℕ) (w w' : Bench) : Type 0 where
  pub few : n ≤ length w.swo_ring.bytes
  pub left : w'.swo_ring.bytes ≡ drop n w.swo_ring.bytes
  pub got : w'.response_ring.bytes ≡ w.response_ring.bytes ++ take n w.swo_ring.bytes
  pub ready : Ready w'
  pub cap : w'.response_ring.cap ≡ w.response_ring.cap
  pub request : w'.request_ring ≡ w.request_ring
  pub trace : w'.trace ≡ w.trace

pub Moved-then : {a b : ℕ} {w w' w'' : Bench} → Moved a w w' → Moved b w' w'' → Moved (a + b) w w''
Moved-then {a} {b} {w} {w'} {w''} h k = record {
  few = omega (arith, h.few, k.few, ap length h.left, length-drop a w.swo_ring.bytes);
  left = k.left ∙ (ap (drop b) h.left ∙ sym (drop_add a b w.swo_ring.bytes));
  got =
      k.got
      ∙ (ap₂ (λ xs ys. xs ++ take b ys) h.got h.left
          ∙ (append_assoc w.response_ring.bytes (take a w.swo_ring.bytes) _
              ∙ ap (λ ys. w.response_ring.bytes ++ ys) (sym (take_add a b w.swo_ring.bytes))));
  ready = k.ready;
  cap = k.cap ∙ h.cap;
  request = k.request ∙ h.request;
  trace = k.trace ∙ h.trace;
}

shown_front :
    (n k t : ℕ) (xs : List ℕ)
    → t ≡ 0
    → n ≤ length (take k (drop t xs))
    → (take n (take k (drop t xs)) ≡ take n xs) × (n ≤ length xs)
shown_front n k t xs h few = rw h (
  take-take n k xs (omega (arith, rw h at few, length-take k xs)),
  omega (arith, rw h at few, length-take k xs),
)

abbrev pub after_round : ℕ → Bench → Bench
after_round max w = moved_on (size_of max w) (take (size_of max w) (shown max w)) w

module _ (max : ℕ) (w : Bench) (ready : Ready w) where
  pub round-Moved : Moved (size_of max w) w (after_round max w)
  round-Moved =
      let (same, few) =
        shown_front (size_of max w) _ w.swo_ring.taken w.swo_ring.bytes ready.unread
          (omega arith) in
      record {
        few = few;
        left = refl;
        got = ap (λ xs. w.response_ring.bytes ++ xs) same;
        ready = record { room = ready.room; unread = refl; unclaimed = refl };
        cap = refl;
        request = refl;
        trace = refl;
      }

  -- A round moves a byte where one is wanted, one is there and one fits.
  pub progress :
      0 < max → 0 < length w.swo_ring.bytes → 0 < Ring.free w.response_ring → 0 < size_of max w
  progress wanted some_left space = omega (
    arith,
    wanted,
    some_left,
    space,
    ready.unread,
    ready.room,
    length-take (min max (w.swo_ring.cap - (w.swo_ring.head + w.swo_ring.taken) % w.swo_ring.cap))
        (drop w.swo_ring.taken w.swo_ring.bytes),
    length-drop w.swo_ring.taken w.swo_ring.bytes,
    mod-lt (w.swo_ring.head + w.swo_ring.taken) ready.room,
    mod-lt (w.response_ring.head + (length w.response_ring.bytes + length w.response_ring.claimed))
        some_room,
  )
    where
      some_room : 0 < w.response_ring.cap
      some_room = omega (arith, space)
