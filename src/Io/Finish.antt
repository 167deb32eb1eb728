-- ===== src/Io/Finish.antt =====
-- Requests of the IO driver come to an end: its shared helpers.
pub mod Handlers
pub mod Wait
pub mod Request
use riceprobe.Base.{refl, ℕ, ◌≤◌, ◌<◌, ◌+◌, ◌≡◌, arith, List, [], ◌∷◌, length}
use riceprobe.Errno.{Result, ok, err}
use riceprobe.Zephyr.{
  sleep_us, buf_put_finish, request, response, buf_get_finish, buf_put_claim, buf_get_claim,
  buf_store,
}
use riceprobe.Zephyr.Prog.{Server, run, Outcome, ask, ◌>>=◌}
use riceprobe.Zephyr.Prog
use riceprobe.Zephyr.Ends.{
  Ends-pure, Laws, Ends, EndsAt, Ends-ask, Ends-bind, EndsAt-ask, ends_rules, IsDone,
}
use riceprobe.Utf8.{decode_into}
use riceprobe.Utf8.Rbuf.{finish_put, finish_get, rbuf_put, rbuf_get}
use riceprobe.Utf8.Lengths.{decode_into-length}
use riceprobe.Dap.{first_byte, four_bytes, get_u8, ring_get_le32, respond}
use riceprobe.Io.{respond_command, respond_status, skip_request}

module _ {S W : Type 0} {server : Server W} {laws : Laws server} where
  Ends-first_byte : (xs : List ℕ) → Ends {S = S} server laws (first_byte xs)
  unfolding first_byte
  Ends-first_byte [] = search ends_rules
  Ends-first_byte (a ∷ []) = search ends_rules
  Ends-first_byte (a ∷ b ∷ xs) = search ends_rules

  Ends-four_bytes : (xs : List ℕ) → Ends {S = S} server laws (four_bytes xs)
  unfolding four_bytes
  Ends-four_bytes [] = search ends_rules
  Ends-four_bytes (a ∷ []) = search ends_rules
  Ends-four_bytes (a ∷ b ∷ []) = search ends_rules
  Ends-four_bytes (a ∷ b ∷ c ∷ []) = search ends_rules
  Ends-four_bytes (a ∷ b ∷ c ∷ d ∷ []) = search ends_rules
  Ends-four_bytes (a ∷ b ∷ c ∷ d ∷ e ∷ xs) = search ends_rules

  pub Ends-get_u8 : Ends {S = S} server laws get_u8
  unfolding get_u8
  Ends-get_u8 = search (ends_rules, Ends-first_byte)

  pub Ends-ring_get_le32 : Ends {S = S} server laws ring_get_le32
  unfolding ring_get_le32
  Ends-ring_get_le32 = search (ends_rules, Ends-four_bytes) depth 12

  pub Ends-respond : (xs : List ℕ) → Ends {S = S} server laws (respond xs)
  unfolding respond
  Ends-respond xs = search ends_rules depth 12

  pub Ends-store :
      (at : ℕ) (xs : List ℕ)
      → Ends {S = S} {A = Unit {0}} server laws (ask (buf_store response at xs))
  Ends-store at xs = Ends-ask (buf_store response at xs) tt

  pub Ends-sleep_us : (n : ℕ) → Ends {S = S} {A = Unit {0}} server laws (ask (sleep_us n))
  Ends-sleep_us n = Ends-ask (sleep_us n) tt

  Ends-finish_put :
      (at : ℕ) (r : Result (List ℕ)) → Ends {S = S} server laws (finish_put response at r)
  unfolding finish_put
  Ends-finish_put at (ok bytes) = Ends-bind (Ends-ask (buf_store response at bytes) tt) (λ _.
      Ends-bind (Ends-ask (buf_put_finish response (length bytes)) tt)
        (λ r. Ends-pure (length bytes)))
  Ends-finish_put at (err e) = search ends_rules

  pub Ends-rbuf_put : (x : ℕ) → Ends {S = S} server laws (rbuf_put response x)
  unfolding rbuf_put
  Ends-rbuf_put x = search (ends_rules, Ends-finish_put) depth 12

  Ends-finish_get : (x : Result ℕ × ℕ) → Ends {S = S} server laws (finish_get request x)
  unfolding finish_get
  Ends-finish_get (ok n, x) = search ends_rules
  Ends-finish_get (err e, x) = search ends_rules

  pub Ends-rbuf_get : (x : ℕ) → Ends {S = S} server laws (rbuf_get request x)
  unfolding rbuf_get
  Ends-rbuf_get x = search (ends_rules, Ends-finish_get) depth 12

  pub Ends-respond_command : (x : ℕ) → Ends {S = S} server laws (respond_command x)
  unfolding respond_command
  Ends-respond_command x = search (ends_rules, Ends-rbuf_put) depth 12

  pub Ends-respond_status : (x : ℕ) → Ends {S = S} server laws (respond_status x)
  unfolding respond_status
  Ends-respond_status x = Ends-respond _

  pub Ends-skip_request : (n : ℕ) → Ends {S = S} server laws (skip_request n)
  unfolding skip_request
  Ends-skip_request n = search ends_rules depth 12

module _ {S W : Type 0} (server : Server W) (laws : Laws server) where
  -- A command that was read took a byte of the request at least.
  finish_get-takes :
      (x : Result ℕ × ℕ) (s : S) (w : W) (a : ℕ)
      → ((n : ℕ) → x.0 ≡ ok n → (1 ≤ n) × (n ≤ length (server (buf_get_claim request 4) w).0))
      → (run server (finish_get request x s) (server (buf_get_claim request 4) w).1).0.0 ≡ Prog.ok a
      → laws.left (run server (finish_get request x s) (server (buf_get_claim request 4) w).1).1
        < laws.left w
  unfolding finish_get ◌>>=◌
  finish_get-takes (ok n, v) s w a fits e =
      omega (arith, laws.takes 4 n w (fits n refl).1, (fits n refl).0)
  finish_get-takes (err code, v) s w a fits e = ground arith

  pub rbuf_get-takes :
      (x : ℕ) (s : S) (w : W) (a : ℕ)
      → (run server (rbuf_get request x s) w).0.0 ≡ Prog.ok a
      → laws.left (run server (rbuf_get request x s) w).1 < laws.left w
  unfolding rbuf_get ◌>>=◌
  rbuf_get-takes x s w a e =
      finish_get-takes (decode_into (server (buf_get_claim request 4) w).0 x) s w a
        (decode_into-length (server (buf_get_claim request 4) w).0 x) e

pub ruleset finish_rules = (
  ends_rules, Ends-get_u8, Ends-ring_get_le32, Ends-respond, Ends-rbuf_get, Ends-respond_status,
  Ends-respond_command, Ends-skip_request, Ends-store, Ends-sleep_us,
)
