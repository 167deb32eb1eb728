-- ===== src/Vcp/Host.antt =====
-- The bytes from the host reach the UART in order: the ends of transfers and the interrupt as steps in any order,
-- against the queue that they implement.
use riceprobe.Base.{
  ℕ, zero, suc, ◌≤◌, ◌<◌, ◌≡◌, refl, sym, ap, ◌∙◌, arith, true, false, List, [], ◌∷◌, ◌++◌, length,
  take, drop, append_assoc, order_kept, Option, none, some, ◌==◌, ==_iff, lt→ltb, inl, inr,
  Bool-cases,
}
use riceprobe.Base.Int.{ℤ, pos}
use riceprobe.Vcp.Fifo.{Ops}
use riceprobe.Vcp.Feed.{Feed}
use riceprobe.Vcp.Device.{
  Vcp, Part, goes_on, stops, fatal, tx_disable, count_of, configure, checked, tx_part, read_cb,
  usb_configured, status_cb,
}

-- The device, what the host sent, and what the UART took.
pub record Upline (R : Type 0) : Type 0 where
  pub vcp : Vcp R
  pub accepted : List ℕ
  pub passed : List ℕ

-- A transfer from the host ends with bytes, or the UART can send.
pub data Event : Type 0 where
  came : List ℕ → Event
  ready : (List ℕ → ℤ) → Event

module _ {R : Type 0} where
  unfoldable pub pass : Upline R → List ℕ → Part R → Option (Upline R)
  pass l bytes (goes_on d effects) = some (record l { vcp = d; passed = l.passed ++ bytes })
  pass l bytes (stops d effects) = some (record l { vcp = d; passed = l.passed ++ bytes })
  pass l bytes fatal = none

module _ {R : Type 0} (ops : Ops R) (feed : Feed ops) where
  -- `none` where the thread ends in `k_oops()`.
  unfoldable pub step : Event → Upline R → Option (Upline R)
  unfolding pass tx_part read_cb
  step (came bytes) l = some (record l {
    vcp = (read_cb ops (length bytes) (record (l.vcp) { tx = feed.arrive l.vcp.tx bytes })).0;
    accepted = l.accepted ++ bytes;
  })
  step (ready fill) l =
      let avail = (ops.get_claim l.vcp.tx 1024).0 in
      pass l (take (count_of (fill avail)) avail) (tx_part ops fill l.vcp)

  -- A transfer ends with at least one byte, and no more than the claim that it was given; the UART takes no more
  -- than it is given.
  abbrev pub IsAllowed : Event → Upline R → Type 0
  IsAllowed (came bytes) l = (0 < length bytes) × (length bytes ≤ feed.granted l.vcp.tx)
  IsAllowed (ready fill) l = (avail : List ℕ) → count_of (fill avail) ≤ length avail

  -- The states that are reached from a device that USB has just configured.
  pub data Reach : Upline R → Type 0 where
    opened :
        (d : Vcp R)
        → d.configured ≡ false
        → Reach (record { vcp = (status_cb ops usb_configured d).0; accepted = []; passed = [] })
    went : (e : Event) (l l' : Upline R) → Reach l → IsAllowed e l → step e l ≡ some l' → Reach l'

  -- What the UART took and what waits for it are, one after the other, what the host sent.
  pub record IsUpline (l : Upline R) : Type 0 where
    pub order : l.passed ++ feed.held l.vcp.tx ≡ l.accepted
    pub free : feed.taken l.vcp.tx ≡ 0

  abbrev Goes : Event → Upline R → Type 0
  Goes e l = (l' : Upline R) × (step e l ≡ some l') × IsUpline l'

  opened_tx :
      (d : Vcp R)
      → d.configured ≡ false
      → (status_cb ops usb_configured d).0.tx ≡ (ops.put_claim (ops.reset d.tx) 1024).1
  unfolding status_cb configure read_cb
  opened_tx d h = ground arith

  opened-IsUpline :
      (d : Vcp R)
      → d.configured ≡ false
      → IsUpline (record { vcp = (status_cb ops usb_configured d).0; accepted = []; passed = [] })
  opened-IsUpline d h =
      let (empty, none_held, none_taken) = feed.resets d.tx in
      let (room, same, free) = feed.claims 1024 (ops.reset d.tx) empty in
      record {
        order = rw (opened_tx d h) (same ∙ none_held);
        free = rw (opened_tx d h) (free ∙ none_taken);
      }

  came-IsUpline :
      (bytes : List ℕ) (l : Upline R) → IsUpline l → IsAllowed (came bytes) l → Goes (came bytes) l
  unfolding step
  came-IsUpline bytes l h (some_byte, fits) =
      let (status, empty, more, same) = feed.delivers bytes l.vcp.tx fits in
      let (room, kept, free) =
        feed.claims 1024 (ops.put_finish (feed.arrive l.vcp.tx bytes) (length bytes)).1 empty in
      (
        _,
        refl,
        rw (lt→ltb 0 (length bytes) some_byte) (record {
          order =
              ap (λ xs. l.passed ++ xs) (kept ∙ more)
              ∙ (sym (append_assoc l.passed (feed.held l.vcp.tx) bytes)
                  ∙ ap (λ xs. xs ++ bytes) h.order);
          free = free ∙ (same ∙ h.free);
        }),
      )

  tx_empty :
      (fill : List ℕ → ℤ) (d : Vcp R)
      → (length (ops.get_claim d.tx 1024).0 == 0) ≡ true
      → tx_part ops fill d
        ≡ goes_on (record d { tx = (ops.get_claim d.tx 1024).1 }) (tx_disable ∷ [])
  unfolding tx_part
  tx_empty fill d empty = rw (tx_part, empty) refl

  -- The finish of what the UART took of a claim.
  abbrev left_by : (List ℕ → ℤ) → R → ℤ × R
  left_by fill r =
      ops.get_finish (ops.get_claim r 1024).1 (count_of (fill (ops.get_claim r 1024).0))

  tx_some :
      (fill : List ℕ → ℤ) (d : Vcp R)
      → (length (ops.get_claim d.tx 1024).0 == 0) ≡ false
      → (left_by fill d.tx).0 ≡ pos 0
      → tx_part ops fill d ≡ goes_on (record d { tx = (left_by fill d.tx).1 }) []
  unfolding tx_part checked
  tx_some fill d more status = rw (tx_part, more, checked, status) refl

  take_none : (n : ℕ) (xs : List ℕ) → length xs ≡ 0 → take n xs ≡ []
  take_none zero xs h = refl
  take_none (suc n) [] h = refl
  take_none (suc n) (x ∷ xs) h = ground arith

  append_none : (xs : List ℕ) → xs ++ [] ≡ xs
  append_none [] = refl
  append_none (x ∷ xs) = ap (λ ys. x ∷ ys) (append_none xs)

  ready-IsUpline :
      (fill : List ℕ → ℤ) (l : Upline R)
      → IsUpline l
      → IsAllowed (ready fill) l
      → Goes (ready fill) l
  unfolding step pass
  ready-IsUpline fill l h fits =
      let avail = (ops.get_claim l.vcp.tx 1024).0 in
      let count = count_of (fill avail) in
      let (first, room, same, shown) = feed.shows 1024 l.vcp.tx h.free in
      let (status, kept, rest, free) =
        feed.takes count (ops.get_claim l.vcp.tx 1024).1 (omega (arith, shown, fits avail)) in
      elim (Bool-cases (length avail == 0)) [
        | inl empty ↦ (
          _,
          ap (pass l (take count avail)) (tx_empty fill l.vcp empty),
          record {
            order =
                ap (λ xs. (l.passed ++ xs) ++ feed.held (ops.get_claim l.vcp.tx 1024).1)
                  (take_none count avail ((==_iff _ _).0 empty))
                ∙ (ap (λ xs. xs ++ feed.held (ops.get_claim l.vcp.tx 1024).1) (append_none l.passed)
                    ∙ (ap (λ xs. l.passed ++ xs) same ∙ h.order));
            free = shown ∙ (==_iff _ _).0 empty;
          },
        )
        | inr more ↦ (
          _,
          ap (pass l (take count avail)) (tx_some fill l.vcp more status),
          record {
            order =
                ap (λ xs. (l.passed ++ take count avail) ++ xs) (rest ∙ ap (drop count) same)
                ∙ order_kept count avail (feed.held l.vcp.tx) l.passed l.accepted first (fits avail)
                    h.order;
            free = free;
          },
        )
      ]

  step-IsUpline : (e : Event) (l : Upline R) → IsUpline l → IsAllowed e l → Goes e l
  step-IsUpline (came bytes) l h a = came-IsUpline bytes l h a
  step-IsUpline (ready fill) l h a = ready-IsUpline fill l h a

  some_same : (l l' : Upline R) → some l ≡ some l' → l ≡ l'
  some_same l l' h = ap (elim [ some x ↦ x | none ↦ l ]) h

  moved : (e : Event) (l l' : Upline R) → Goes e l → step e l ≡ some l' → IsUpline l'
  moved e l l' (x, same, h) gives = rw (sym (some_same x l' (sym same ∙ gives))) h

  kept_up : (l : Upline R) → Reach l → IsUpline l
  kept_up l (opened d h) = opened-IsUpline d h
  kept_up l (went e l0 l1 r a h) = moved e l0 l (step-IsUpline e l0 (kept_up l0 r) a) h

  -- The port is a queue from the host to the UART: in every state that is reached after USB has configured it, in
  -- any order of transfers that end and times that the UART can send, the bytes that the UART took and those that
  -- still wait are, one after the other, the bytes that the host sent, and each event that is allowed there leads
  -- to a further state, so that the interrupt never ends the thread. It holds for every ring buffer that keeps its
  -- laws, if a transfer that ends has at least one byte and no more than its claim, and the UART takes no more
  -- than it is given.
  pub Reach-IsUpline :
      (l : Upline R)
      → Reach l
      → (l.passed ++ feed.held l.vcp.tx ≡ l.accepted)
        × ((e : Event) → IsAllowed e l → (l' : Upline R) × (step e l ≡ some l'))
  Reach-IsUpline l r =
      let h = kept_up l r in
      (h.order, λ e a. ((step-IsUpline e l h a).0, (step-IsUpline e l h a).1))
