-- ===== src/Dap/Tcp/Frames.antt =====
-- The frames of the TCP transport, and what a socket documents of them.
use riceprobe.Base.{
  ℕ, zero, suc, ◌+◌, ◌%◌, ◌/◌, ◌<◌, ◌≤◌, ◌≡◌, refl, ap, ◌∙◌, arith, Bool, true, false, List, [],
  ◌∷◌, ◌++◌, length, take, ltb, if◌then◌else◌,
}
use riceprobe.Base.Bits.{le16, get_le16}
use riceprobe.Errno.{Errno, eshutdown, enodata, enobufs, Result, ok, err}
use riceprobe.Dap.Tcp.{Net, lost, read_body, read_frame, recv, settle_send, send}

-- A receive that waits for all of its bytes gives the next ones, if so many come. What a send gets through are
-- so many bytes from the beginning of the message as it returns, and no more than there are.
pub record Laws {S : Type 0} (net : Net S) : Type 1 where
  pub coming : S → List ℕ
  pub gone : S → List ℕ
  pub receives :
      (n : ℕ) (xs ys : List ℕ) (s : S)
      → 0 < n
      → length xs ≡ n
      → coming s ≡ xs ++ ys
      → ((net.receive n s).0 ≡ ok xs) × (coming (net.receive n s).1 ≡ ys)
  pub sends :
      (xs : List ℕ) (n : ℕ) (s : S)
      → (net.send_message xs s).0 ≡ ok n
      → (n ≤ length xs) × (gone (net.send_message xs s).1 ≡ gone s ++ take n xs)

-- A message behind its length.
abbrev pub frame : List ℕ → List ℕ
frame xs = le16 (length xs) ++ xs

le16-back : (n : ℕ) → n < 65536 → get_le16 (n % 256) (n / 256 % 256) ≡ n
le16-back n h = omega (arith, h)

pub take_all : (n : ℕ) (xs : List ℕ) → n ≡ length xs → take n xs ≡ xs
take_all zero [] h = refl
take_all zero (x ∷ xs) h = ground arith
take_all (suc n) [] h = refl
take_all (suc n) (x ∷ xs) h = ap (λ ys. x ∷ ys) (take_all n xs (omega (arith, h)))

whole : (xs : List ℕ) → length xs < 65536 → length xs % 65536 ≡ length xs
whole xs h = omega (arith, h)

module _ {S : Type 0} (net : Net S) (laws : Laws net) where
  read_body_lem :
      (xs : List ℕ) (s : S)
      → 0 < length xs
      → read_body net (length xs) (ok xs) s ≡ (ok (length xs, xs), s)
  unfolding read_body
  read_body_lem xs s filled = ground arith

  read_frame_lem :
      (len n a b : ℕ) (s : S)
      → get_le16 a b ≡ n
      → 0 < n
      → n ≤ len
      → read_frame net len (ok (a ∷ b ∷ [])) s
        ≡ read_body net n (net.receive n s).0 (net.receive n s).1
  unfolding read_frame
  read_frame_lem len n a b s same filled fits = rw same (ground arith)

  -- A frame that is on its way is received as its message, and what comes behind it stays: a message of at
  -- least one byte that fits into the buffer is returned whole, with its length, and the socket is left at
  -- the next frame.
  pub recv-frame :
      (len : ℕ) (xs ys : List ℕ) (s : S)
      → 0 < length xs
      → length xs < 65536
      → length xs ≤ len
      → laws.coming s ≡ frame xs ++ ys
      → (t : S) × ((recv net len s ≡ (ok (length xs, xs), t)) × (laws.coming t ≡ ys))
  unfolding recv
  recv-frame len xs ys s filled short fits h =
      let first = laws.receives 2 (le16 (length xs)) (xs ++ ys) s (omega arith) refl h in
      let second = laws.receives (length xs) xs ys (net.receive 2 s).1 filled refl first.1 in
      (
        (net.receive (length xs) (net.receive 2 s).1).1,
        (
          ap (λ r. read_frame net len r (net.receive 2 s).1) first.0
              ∙ (read_frame_lem len (length xs) (length xs % 256) (length xs / 256 % 256)
                    (net.receive 2 s).1 (le16-back (length xs) short) filled fits
                  ∙ (ap
                        (λ r.
                          read_body net (length xs) r
                            (net.receive (length xs) (net.receive 2 s).1).1)
                        second.0
                      ∙ read_body_lem xs (net.receive (length xs) (net.receive 2 s).1).1 filled)),
          second.1,
        ),
      )

  settled :
      (n k sent : ℕ) (s t : S)
      → settle_send net n (ok sent) s ≡ (ok k, t)
      → (n + 2 ≤ sent) × ((k + 2 ≡ sent) × (t ≡ s))
  unfolding settle_send lost
  settled n k sent s t h = (ground arith, (ground arith, ground arith))

  settled_err : (n k : ℕ) (e : Errno) (s t : S) → settle_send net n (err e) s ≡ (ok k, t) → ⊥
  unfolding settle_send lost
  settled_err n k e s t h = ground arith

  sent_whole :
      (xs : List ℕ) (n k : ℕ) (r : Result ℕ) (s t : S)
      → n ≡ length xs
      → (net.send_message (le16 n ++ xs) s).0 ≡ r
      → settle_send net n r (net.send_message (le16 n ++ xs) s).1 ≡ (ok k, t)
      → (k ≡ length xs) × (laws.gone t ≡ laws.gone s ++ (le16 n ++ xs))
  sent_whole xs n k (err e) s t same is h = elim (settled_err n k e _ t h) [ ]
  sent_whole xs n k (ok sent) s t same is h =
      let (most, gone) = laws.sends (le16 n ++ xs) sent s is in
      let (least, (count, state)) = settled n k sent _ t h in
      (
        omega (arith, same, most, least, count),
        ap laws.gone state
            ∙ (gone
                ∙ ap (λ ys. laws.gone s ++ ys)
                    (take_all sent (le16 n ++ xs) (omega (arith, same, most, least)))),
      )

  -- What a send reports as sent went out as one whole frame: where it succeeds it returns the length of the
  -- message, and behind what went out before stands the frame that a receive takes apart, even though the
  -- socket may send a part of what it is given.
  pub send-frame :
      (xs : List ℕ) (k : ℕ) (s t : S)
      → length xs < 65536
      → send net xs s ≡ (ok k, t)
      → (k ≡ length xs) × (laws.gone t ≡ laws.gone s ++ frame xs)
  unfolding send
  send-frame xs k s t short h =
      let n = length xs % 65536 in
      let same = whole xs short in
      let (count, gone) = sent_whole xs n k (net.send_message (le16 n ++ xs) s).0 s t same refl h in
      (count, gone ∙ ap (λ m. laws.gone s ++ (le16 m ++ xs)) same)

module _ {S : Type 0} (net : Net S) where
  -- An error that comes with a closed socket.
  pub data IsClosing {A : Type 0} : Result A × S → Type 0 where
    kept : (a : A) (s : S) → IsClosing (ok a, s)
    closed : (e : Errno) (s : S) → IsClosing (err e, net.close s)

  either_closes :
      {A : Type 0} (b : Bool) (x y : Result A × S)
      → IsClosing x
      → IsClosing y
      → IsClosing (if b then x else y)
  either_closes true x y hx hy = hx
  either_closes false x y hx hy = hy

  lost-IsClosing : {A : Type 0} (e : Errno) (s : S) → IsClosing (lost net {A = A} e s)
  unfolding lost
  lost-IsClosing e s = closed e s

  read_body-IsClosing : (n : ℕ) (r : Result (List ℕ)) (s : S) → IsClosing (read_body net n r s)
  unfolding read_body
  read_body-IsClosing n (err e) s = lost-IsClosing e s
  read_body-IsClosing n (ok bytes) s =
      either_closes _ _ _ (lost-IsClosing eshutdown s)
        (either_closes _ _ _ (lost-IsClosing enodata s) (kept _ s))

  read_frame-IsClosing :
      (len : ℕ) (r : Result (List ℕ)) (s : S) → IsClosing (read_frame net len r s)
  unfolding read_frame
  read_frame-IsClosing len (err e) s = lost-IsClosing e s
  read_frame-IsClosing len (ok []) s = lost-IsClosing eshutdown s
  read_frame-IsClosing len (ok (b ∷ [])) s = lost-IsClosing enodata s
  read_frame-IsClosing len (ok (b ∷ c ∷ more)) s =
      either_closes (ltb len (get_le16 b c)) _ _ (lost-IsClosing enobufs s) (
        either_closes (ltb 0 (get_le16 b c)) _ _
          (read_body-IsClosing (get_le16 b c) (net.receive (get_le16 b c) s).0
            (net.receive (get_le16 b c) s).1)
          (kept (length (b ∷ c ∷ more), []) s))

  settle_send-IsClosing : (n : ℕ) (r : Result ℕ) (s : S) → IsClosing (settle_send net n r s)
  unfolding settle_send
  settle_send-IsClosing n (err e) s = lost-IsClosing e s
  settle_send-IsClosing n (ok sent) s =
      either_closes _ _ _ (lost-IsClosing eshutdown s)
        (either_closes _ _ _ (lost-IsClosing enodata s) (kept _ s))

  -- No error of a receive or a send leaves the connection open: whatever the socket answers, a receive and a send
  -- that return a code have closed the socket as the last thing that they did.
  pub tcp-IsClosing :
      (len : ℕ) (xs : List ℕ) (s : S) → IsClosing (recv net len s) × IsClosing (send net xs s)
  unfolding recv send
  tcp-IsClosing len xs s = (
    read_frame-IsClosing len (net.receive 2 s).0 (net.receive 2 s).1,
    settle_send-IsClosing (length xs % 65536)
        (net.send_message (le16 (length xs % 65536) ++ xs) s).0
        (net.send_message (le16 (length xs % 65536) ++ xs) s).1,
  )
