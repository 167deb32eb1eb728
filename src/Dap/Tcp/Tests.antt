-- ===== src/Dap/Tcp/Tests.antt =====
-- The TCP transport on a concrete socket, which sends at most 700 bytes at a time.
use riceprobe.Base.{
  ℕ, zero, suc, ◌≡◌, refl, sym, ap, ◌∙◌, arith, Bool, true, false, List, [], ◌∷◌, ◌++◌, length,
  take, drop, take_append, min,
}
use riceprobe.Errno.{ok, err, eagain}
use riceprobe.Dap.Tcp.{Net, recv, send, settle_send}
use riceprobe.Dap.Tcp.Frames.{
  Laws, IsClosing, take_all, frame, recv-frame, send-frame, tcp-IsClosing,
}

record Pipe : Type 0 where
  incoming : List ℕ
  outgoing : List ℕ
  is_open : Bool

abbrev pipe_net : Net Pipe
pipe_net = record {
  o_nonblock = 0x4000;
  get_flags = λ p. (ok 0, p);
  set_flags = λ n p. (ok 0, p);
  socket = λ p. (ok 3, p);
  bind = λ p. (ok 0, p);
  listen = λ p. (ok 0, p);
  accept = λ p. (err eagain, p);
  receive = λ n p. (ok (take n p.incoming), record p { incoming = drop n p.incoming });
  send_message = λ xs p. (
    ok (min 700 (length xs)),
    record p { outgoing = p.outgoing ++ take (min 700 (length xs)) xs },
  );
  close = λ p. record p { is_open = false };
}

take_first : (n : ℕ) (xs ys zs : List ℕ) → length xs ≡ n → zs ≡ xs ++ ys → take n zs ≡ xs
take_first n xs ys zs fits h =
    ap (take n) h ∙ (take_append n xs ys (omega (arith, fits)) ∙ take_all n xs (sym fits))

drop_append : (n : ℕ) (xs ys : List ℕ) → length xs ≡ n → drop n (xs ++ ys) ≡ ys
drop_append zero [] ys h = refl
drop_append zero (x ∷ xs) ys h = ground arith
drop_append (suc n) [] ys h = ground arith
drop_append (suc n) (x ∷ xs) ys h = drop_append n xs ys (omega (arith, h))

same_count : (n k : ℕ) → ok n ≡ ok k → n ≡ k
same_count n k h = ap (elim [ ok x ↦ x | err e ↦ n ]) h

abbrev pipe-Laws : Laws pipe_net
pipe-Laws = record {
  coming = λ p. p.incoming;
  gone = λ p. p.outgoing;
  receives = λ n xs ys p some fits h.
      (ap ok (take_first n xs ys p.incoming fits h), ap (drop n) h ∙ drop_append n xs ys fits);
  sends = λ xs n p h.
      (omega (arith, same_count _ n h), ap (λ k. p.outgoing ++ take k xs) (same_count _ n h));
}

abbrev two_frames : Pipe
two_frames = record { incoming = 3 ∷ 0 ∷ 7 ∷ 8 ∷ 9 ∷ 1 ∷ 0 ∷ 4 ∷ []; outgoing = []; is_open = true }

recv-frame_example :
    (t : Pipe) × ((recv pipe_net 1024 two_frames ≡ (ok (3, 7 ∷ 8 ∷ 9 ∷ []), t))
      × (t.incoming ≡ 1 ∷ 0 ∷ 4 ∷ []))
recv-frame_example =
    recv-frame pipe_net pipe-Laws 1024 (7 ∷ 8 ∷ 9 ∷ []) (1 ∷ 0 ∷ 4 ∷ []) two_frames (omega arith)
      (omega arith) (omega arith) refl

abbrev after_two : Pipe
after_two = record two_frames { outgoing = 2 ∷ 0 ∷ 5 ∷ 6 ∷ [] }

sent_two : send pipe_net (5 ∷ 6 ∷ []) two_frames ≡ (ok 2, after_two)
unfolding send settle_send
sent_two = refl

send-frame_example :
    (2 ≡ length {A = ℕ} (5 ∷ 6 ∷ []))
    × (after_two.outgoing ≡ two_frames.outgoing ++ frame (5 ∷ 6 ∷ []))
send-frame_example =
    send-frame pipe_net pipe-Laws (5 ∷ 6 ∷ []) 2 two_frames after_two (omega arith) sent_two

tcp-IsClosing_example :
    IsClosing pipe_net (recv pipe_net 2 two_frames)
    × IsClosing pipe_net (send pipe_net (5 ∷ 6 ∷ []) two_frames)
tcp-IsClosing_example = tcp-IsClosing pipe_net 2 (5 ∷ 6 ∷ []) two_frames
