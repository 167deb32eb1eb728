-- ===== src/Dap/Tcp.antt =====
-- firmware/src/dap/transport_tcp.c, less the registration for DNS service discovery. The sockets of Zephyr are
-- an interface whose calls return a value or what they leave in `errno`; the two sockets are in its state.
pub mod Frames
mod Tests
use riceprobe.Base.{
  ℕ, zero, suc, ◌+◌, ◌-◌, ◌%◌, ◌<◌, ◌≡◌, Bool, true, false, List, [], ◌∷◌, ◌++◌, length, ltb, ◌==◌,
  bit_or, if◌then◌else◌,
}
use riceprobe.Base.Bits.{le16, get_le16}
use riceprobe.Errno.{Errno, eshutdown, enodata, enobufs, Result, ok, err}

-- `zsock_fcntl` on `tcp_bind_sock` with `F_GETFL` and `F_SETFL`, `zsock_socket`, `zsock_bind` and `zsock_listen` as
-- the init calls them, `zsock_accept`, and on `tcp_conn_sock` `zsock_recv` with `ZSOCK_MSG_WAITALL`,
-- `zsock_sendmsg` with all bytes of a message, and `zsock_close`.
pub record Net (S : Type 0) : Type 0 where
  pub o_nonblock : ℕ
  pub get_flags : S → Result ℕ × S
  pub set_flags : ℕ → S → Result ℕ × S
  pub socket : S → Result ℕ × S
  pub bind : S → Result ℕ × S
  pub listen : S → Result ℕ × S
  pub accept : S → Result ℕ × S
  pub receive : ℕ → S → Result (List ℕ) × S
  pub send_message : List ℕ → S → Result ℕ × S
  pub close : S → S

module _ {S : Type 0} (net : Net S) where
  unfoldable pub and_then : Result ℕ × S → (S → Result ℕ × S) → Result ℕ × S
  and_then (ok n, s) k = k s
  and_then (err e, s) k = (err e, s)

  -- `dap_tcp_transport_init`
  unfoldable pub init : S → Result ℕ × S
  unfolding and_then
  init s =
      and_then (net.socket s)
        (λ s1. and_then (net.bind s1) (λ s2. and_then (net.listen s2) (λ s3. (ok 0, s3))))

  unfoldable pub add_nonblock : Result ℕ × S → Result ℕ × S
  add_nonblock (ok flags, s) = net.set_flags (bit_or flags net.o_nonblock) s
  add_nonblock (err e, s) = (err e, s)

  -- `tcp_set_nonblocking`, which does not look at its flag.
  unfoldable pub set_nonblocking : Bool → S → Result ℕ × S
  unfolding add_nonblock
  set_nonblocking enabled s = add_nonblock (net.get_flags s)

  -- `dap_tcp_transport_configure`
  unfoldable pub configure : S → Result ℕ × S
  unfolding and_then set_nonblocking
  configure s =
      and_then (set_nonblocking true s) (λ s1.
        and_then (net.accept s1) (λ s2. and_then (set_nonblocking true s2) (λ s3. (ok 0, s3))))

  -- An end with a code, behind `zsock_close`.
  unfoldable pub lost : {A : Type 0} → Errno → S → Result A × S
  lost e s = (err e, net.close s)

  -- What a receive of the request gives: its length, and the bytes that were written.
  unfoldable pub read_body : ℕ → Result (List ℕ) → S → Result (ℕ × List ℕ) × S
  unfolding lost
  read_body request_len (err e) s = lost e s
  read_body request_len (ok bytes) s =
      if length bytes == 0
      then lost eshutdown s
      else if ltb (length bytes) request_len
      then lost enodata s
      else (ok (length bytes, bytes), s)

  unfoldable pub read_frame : ℕ → Result (List ℕ) → S → Result (ℕ × List ℕ) × S
  unfolding lost read_body
  read_frame len (err e) s = lost e s
  read_frame len (ok []) s = lost eshutdown s
  read_frame len (ok (b ∷ [])) s = lost enodata s
  read_frame len (ok (b ∷ c ∷ more)) s =
      if ltb len (get_le16 b c)
      then lost enobufs s
      else if ltb 0 (get_le16 b c)
      then read_body (get_le16 b c) (net.receive (get_le16 b c) s).0
          (net.receive (get_le16 b c) s).1
      else (ok (length (b ∷ c ∷ more), []), s)

  -- `dap_tcp_transport_recv` into a buffer of `len` bytes.
  unfoldable pub recv : ℕ → S → Result (ℕ × List ℕ) × S
  unfolding read_frame
  recv len s = read_frame len (net.receive 2 s).0 (net.receive 2 s).1

  unfoldable pub settle_send : ℕ → Result ℕ → S → Result ℕ × S
  unfolding lost
  settle_send response_len (err e) s = lost e s
  settle_send response_len (ok sent) s =
      if sent == 0
      then lost eshutdown s
      else if ltb sent (response_len + 2)
      then lost enodata s
      else (ok (sent - 2), s)

  -- `dap_tcp_transport_send`
  unfoldable pub send : List ℕ → S → Result ℕ × S
  unfolding settle_send
  send bytes s =
      settle_send (length bytes % 65536)
        (net.send_message (le16 (length bytes % 65536) ++ bytes) s).0
        (net.send_message (le16 (length bytes % 65536) ++ bytes) s).1
