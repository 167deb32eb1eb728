-- ===== src/Vcp/Stream/Order.antt =====
-- What the device promises: a queue from the UART to the host.
use riceprobe.Base.{
  ℕ, ◌%◌, ◌≤◌, ◌<◌, ◌≡◌, refl, sym, ap, ◌∙◌, arith, Bool, true, false, List, [], ◌∷◌, ◌++◌, length,
  length-take, take, drop, Option, none, some, ◌==◌, if◌then◌else◌, inl, inr, Bool-cases,
  take_append, take-take, append_assoc, order_kept, ==_iff,
}
use riceprobe.Base.Int.{ℤ, pos}
use riceprobe.Errno.{Result}
use riceprobe.Vcp.Fifo.{Ops, Laws}
use riceprobe.Vcp.Device.{
  Vcp, goes_on, stops, bytes_of, transfer_size, rx_part, work_handler, write_cb, keep_read, checked,
  work_submit,
}
use riceprobe.Vcp.Stream.{
  IsSent, IsAllowed, Line, Event, received, worked, sent, step, accept, is_writing, started,
  part_of,
}

module _ {R : Type 0} (ops : Ops R) (laws : Laws ops) where
  -- Nothing is claimed where no transfer goes on. A transfer is of the oldest bytes, which are claimed,
  -- and its size is no multiple of the packet size.
  abbrev pub IsFlight : Option (List ℕ) → R → Type 0
  IsFlight none r = laws.taken r ≡ 0
  IsFlight (some bytes) r =
      (length bytes ≤ laws.taken r)
      × ((bytes ≡ take (length bytes) (laws.held r)) × (0 < length bytes % 512))

  -- What the host got and what waits for it are, one after the other, what arrived.
  pub record IsLine (l : Line R) : Type 0 where
    pub idle : laws.IsIdle l.vcp.rx
    pub order : l.delivered ++ laws.held l.vcp.rx ≡ l.arrived
    pub flight : IsFlight l.writing l.vcp.rx

  append_none : (xs : List ℕ) → xs ++ [] ≡ xs
  append_none [] = refl
  append_none (x ∷ xs) = ap (λ ys. x ∷ ys) (append_none xs)

  abbrev pub Goes : Event → Line R → Type 0
  Goes e l = (l' : Line R) × ((step ops e l ≡ some l') × IsLine l')

  IsFlight-kept :
      (w : Option (List ℕ)) (r r' : R) (xs : List ℕ)
      → laws.taken r' ≡ laws.taken r
      → laws.held r' ≡ laws.held r ++ xs
      → IsFlight w r
      → IsFlight w r'
  IsFlight-kept none r r' xs same more h = same ∙ h
  IsFlight-kept (some bytes) r r' xs same more (fits, (first, size)) = (
    omega (arith, fits, same),
    (
      rw more (
          first
          ∙ sym
              (take_append (length bytes) (laws.held r) xs (shown_fits bytes (laws.held r) first))),
      size,
    ),
  )
    where
      shown_fits : (bs ys : List ℕ) → bs ≡ take (length bs) ys → length bs ≤ length ys
      shown_fits bs ys h = omega (arith, length-take (length bs) ys, ap length h)

  -- The part of the interrupt that reads, by whether there is room.
  rx_full :
      (read : ℕ → Result (List ℕ)) (d : Vcp R)
      → ((ops.put_claim d.rx 1024).0.0 == 0) ≡ true
      → rx_part ops read d ≡ stops (record d { rx = (ops.put_claim d.rx 1024).1 }) []
  unfolding rx_part
  rx_full read d full = rw (rx_part, full) refl

  abbrev finished : Vcp R → List ℕ → ℤ × R
  finished d bytes =
      ops.put_finish (ops.store (ops.put_claim d.rx 1024).1 (ops.put_claim d.rx 1024).0.1 bytes)
        (length bytes)

  rx_room :
      (read : ℕ → Result (List ℕ)) (d : Vcp R)
      → ((ops.put_claim d.rx 1024).0.0 == 0) ≡ false
      → (finished d (bytes_of (read (ops.put_claim d.rx 1024).0.0))).0 ≡ pos 0
      → rx_part ops read d
        ≡ goes_on
            (record d { rx = (finished d (bytes_of (read (ops.put_claim d.rx 1024).0.0))).1 })
            (work_submit ∷ [])
  unfolding rx_part keep_read checked
  rx_room read d room status = rw (rx_part, room, keep_read, checked, status) refl

  received-IsLine :
      (read : ℕ → Result (List ℕ)) (l : Line R)
      → IsLine l
      → ((n : ℕ) → length (bytes_of (read n)) ≤ n)
      → Goes (received read) l
  unfolding step accept
  received-IsLine read l h fits = elim (Bool-cases ((ops.put_claim l.vcp.rx 1024).0.0 == 0)) [
    | inl full ↦ (
      record l { vcp = record (l.vcp) { rx = (ops.put_claim l.vcp.rx 1024).1 } },
      (
        ap (accept l bytes) (rx_full read l.vcp full),
        record {
          idle = (refused full).0;
          order = rw (refused full).1.0 h.order;
          flight =
              IsFlight-kept l.writing l.vcp.rx _ [] (refused full).1.1
                ((refused full).1.0 ∙ sym (append_none (laws.held l.vcp.rx))) h.flight;
        },
      ),
    )
    | inr room ↦ (
      record l {
        vcp = record (l.vcp) { rx = (finished l.vcp bytes).1 };
        arrived = l.arrived ++ bytes;
      },
      (
        ap (accept l bytes) (rx_room read l.vcp room put.0),
        record {
          idle = put.1.0;
          order =
              ap (λ xs. l.delivered ++ xs) put.1.1.0
              ∙ (sym (append_assoc l.delivered (laws.held l.vcp.rx) bytes)
                  ∙ ap (λ xs. xs ++ bytes) h.order);
          flight = IsFlight-kept l.writing l.vcp.rx _ bytes put.1.1.1 put.1.1.0 h.flight;
        },
      ),
    )
  ]
    where
      bytes : List ℕ
      bytes = bytes_of (read (ops.put_claim l.vcp.rx 1024).0.0)

      put :
          ((finished l.vcp bytes).0 ≡ pos 0)
          × (laws.IsIdle (finished l.vcp bytes).1
              × ((laws.held (finished l.vcp bytes).1 ≡ laws.held l.vcp.rx ++ bytes)
                  × (laws.taken (finished l.vcp bytes).1 ≡ laws.taken l.vcp.rx)))
      put = laws.puts 1024 bytes l.vcp.rx h.idle (fits (ops.put_claim l.vcp.rx 1024).0.0)

      refused :
          ((ops.put_claim l.vcp.rx 1024).0.0 == 0) ≡ true
          → laws.IsIdle (ops.put_claim l.vcp.rx 1024).1
            × ((laws.held (ops.put_claim l.vcp.rx 1024).1 ≡ laws.held l.vcp.rx)
                × (laws.taken (ops.put_claim l.vcp.rx 1024).1 ≡ laws.taken l.vcp.rx))
      refused full = laws.refuses 1024 l.vcp.rx h.idle ((==_iff _ _).0 full)

  IsFlight-started :
      (b : Bool) (shown : List ℕ) (n : ℕ) (r : R)
      → (b ≡ true → laws.taken r ≡ 0)
      → (b ≡ false → IsFlight (some (take n shown)) r)
      → IsFlight (started none shown (if b then none else some n)) r
  unfolding started
  IsFlight-started true shown n r h k = h refl
  IsFlight-started false shown n r h k = k refl

  size_fits : (n : ℕ) → 0 < n → (transfer_size n ≤ n) × (0 < transfer_size n % 512)
  size_fits n h = elim (Bool-cases (n % 512 == 0)) [
    | inl whole ↦ rw whole (omega arith, omega (arith, h, (==_iff _ _).0 whole))
    | inr part ↦ rw part (omega arith, ground arith)
  ]

  positive : (n : ℕ) → (n == 0) ≡ false → 0 < n
  positive n h = ground arith

  -- What a claim shows, as the bytes of a transfer.
  IsFlight-of :
      (shown : List ℕ) (r : R)
      → (length shown == 0) ≡ false
      → laws.taken r ≡ length shown
      → shown ≡ take (length shown) (laws.held r)
      → IsFlight (some (take (transfer_size (length shown)) shown)) r
  IsFlight-of shown r some_shown claimed first = (
    omega (arith, size, claimed, fits.0),
    (rw size (ap (take t) first ∙ take-take t (length shown) (laws.held r) fits.0), rw size fits.1),
  )
    where
      t : ℕ
      t = transfer_size (length shown)

      fits : (t ≤ length shown) × (0 < t % 512)
      fits = size_fits (length shown) (positive (length shown) some_shown)

      size : length (take t shown) ≡ t
      size = omega (arith, length-take t shown, fits.0)

  worked-IsLine :
      (d : Vcp R) (arrived delivered : List ℕ) (w : Option (List ℕ))
      → IsLine (record { vcp = d; arrived = arrived; delivered = delivered; writing = w })
      → Goes worked (record { vcp = d; arrived = arrived; delivered = delivered; writing = w })
  unfolding step is_writing started work_handler
  worked-IsLine d arrived delivered (some bytes) h = (_, (refl, h))
  worked-IsLine d arrived delivered none h = (
    _,
    (
      refl,
      record {
        idle = claim.1.0;
        order = rw claim.1.1.0 h.order;
        flight =
            IsFlight-started (length (ops.get_claim d.rx 1024).0 == 0) _ _ _
              (λ empty. claim.1.1.1 ∙ (==_iff _ _).0 empty)
              (λ some_shown. IsFlight-of _ _ some_shown claim.1.1.1 (rw claim.1.1.0 claim.0));
      },
    ),
  )
    where
      claim :
          ((ops.get_claim d.rx 1024).0 ≡ take (length (ops.get_claim d.rx 1024).0) (laws.held d.rx))
          × (laws.IsIdle (ops.get_claim d.rx 1024).1
              × ((laws.held (ops.get_claim d.rx 1024).1 ≡ laws.held d.rx)
                  × (laws.taken (ops.get_claim d.rx 1024).1 ≡ length (ops.get_claim d.rx 1024).0)))
      claim = laws.shows 1024 d.rx h.idle h.flight

  gone :
      (k : ℕ) (r : R) (bytes : List ℕ)
      → laws.IsIdle r
      → IsFlight (some bytes) r
      → k ≤ length bytes
      → ((ops.get_finish r k).0 ≡ pos 0)
        × (laws.IsIdle (ops.get_finish r k).1
            × ((laws.held (ops.get_finish r k).1 ≡ drop k (laws.held r))
                × (laws.taken (ops.get_finish r k).1 ≡ 0)))
  gone k r bytes idle flight few = laws.takes k r idle (omega (arith, flight.0, few))

  sent-IsLine :
      (k : ℕ) (d : Vcp R) (arrived delivered : List ℕ) (w : Option (List ℕ))
      → IsLine (record { vcp = d; arrived = arrived; delivered = delivered; writing = w })
      → IsSent w k
      → Goes (sent k) (record { vcp = d; arrived = arrived; delivered = delivered; writing = w })
  unfolding step part_of write_cb
  sent-IsLine k d arrived delivered none h few = absurd few
  sent-IsLine k d arrived delivered (some bytes) h few = (
    _,
    (
      refl,
      record {
        idle = (gone k d.rx bytes h.idle h.flight few).1.0;
        order =
            rw (gone k d.rx bytes h.idle h.flight few).1.1.0
              (order_kept k bytes (laws.held d.rx) delivered arrived h.flight.1.0 few h.order);
        flight = (gone k d.rx bytes h.idle h.flight few).1.1.1;
      },
    ),
  )

  pub step-IsLine : (e : Event) (l : Line R) → IsLine l → IsAllowed e l → Goes e l
  step-IsLine (received read) l h a = received-IsLine read l h a
  step-IsLine worked l h a = worked-IsLine l.vcp l.arrived l.delivered l.writing h
  step-IsLine (sent k) l h a = sent-IsLine k l.vcp l.arrived l.delivered l.writing h a
