-- ===== src/Io/Calls/Rules.antt =====
-- The shared helpers of the IO driver make plain calls only.
use riceprobe.Base.{ℕ, List, [], ◌∷◌}
use riceprobe.Errno.{Result, ok, err}
use riceprobe.Zephyr.{Call, request, response, buf_store}
use riceprobe.Zephyr.Prog.{ask}
use riceprobe.Zephyr.Obeys.{Obeys, Obeys-ask, Obeys-bind, obeys_rules}
use riceprobe.Utf8.Rbuf.{finish_put, finish_get, rbuf_put, rbuf_get}
use riceprobe.Dap.{first_byte, four_bytes, get_u8, ring_get_le32, respond}
use riceprobe.Io.{respond_command, respond_status, skip_request}
use riceprobe.Io.Calls.{IsPlain}

module _ {S : Type 0} {P : S → Type 0} {Q : Call → Type 0}
    (plain : (c : Call) → IsPlain c → Q c) where
  pub Obeys-plain : (c : Call) → IsPlain c → Obeys Q P (ask c)
  Obeys-plain c h = Obeys-ask c (plain c h)

  Obeys-first_byte : (xs : List ℕ) → Obeys Q P (first_byte xs)
  unfolding first_byte
  Obeys-first_byte [] = search obeys_rules
  Obeys-first_byte (a ∷ []) = search obeys_rules
  Obeys-first_byte (a ∷ b ∷ xs) = search obeys_rules

  Obeys-four_bytes : (xs : List ℕ) → Obeys Q P (four_bytes xs)
  unfolding four_bytes
  Obeys-four_bytes [] = search obeys_rules
  Obeys-four_bytes (a ∷ []) = search obeys_rules
  Obeys-four_bytes (a ∷ b ∷ []) = search obeys_rules
  Obeys-four_bytes (a ∷ b ∷ c ∷ []) = search obeys_rules
  Obeys-four_bytes (a ∷ b ∷ c ∷ d ∷ []) = search obeys_rules
  Obeys-four_bytes (a ∷ b ∷ c ∷ d ∷ e ∷ xs) = search obeys_rules

  pub Obeys-get_u8 : Obeys Q P get_u8
  unfolding get_u8
  Obeys-get_u8 = search (obeys_rules, Obeys-plain, Obeys-first_byte)

  pub Obeys-ring_get_le32 : Obeys Q P ring_get_le32
  unfolding ring_get_le32
  Obeys-ring_get_le32 = search (obeys_rules, Obeys-plain, Obeys-four_bytes) depth 12

  pub Obeys-respond : (xs : List ℕ) → Obeys Q P (respond xs)
  unfolding respond
  Obeys-respond xs = search (obeys_rules, Obeys-plain) depth 12

  Obeys-finish_put : (at : ℕ) (r : Result (List ℕ)) → Obeys Q P (finish_put response at r)
  unfolding finish_put
  Obeys-finish_put at (ok bytes) =
      Obeys-bind (Obeys-plain (buf_store response at bytes) tt)
        (λ _. search (obeys_rules, Obeys-plain))
  Obeys-finish_put at (err e) = search (obeys_rules, Obeys-plain)

  pub Obeys-rbuf_put : (x : ℕ) → Obeys Q P (rbuf_put response x)
  unfolding rbuf_put
  Obeys-rbuf_put x = search (obeys_rules, Obeys-plain, Obeys-finish_put) depth 12

  Obeys-finish_get : (x : Result ℕ × ℕ) → Obeys Q P (finish_get request x)
  unfolding finish_get
  Obeys-finish_get (ok n, x) = search (obeys_rules, Obeys-plain)
  Obeys-finish_get (err e, x) = search (obeys_rules, Obeys-plain)

  pub Obeys-rbuf_get : (x : ℕ) → Obeys Q P (rbuf_get request x)
  unfolding rbuf_get
  Obeys-rbuf_get x = search (obeys_rules, Obeys-plain, Obeys-finish_get) depth 12

  pub Obeys-respond_command : (x : ℕ) → Obeys Q P (respond_command x)
  unfolding respond_command
  Obeys-respond_command x = search (obeys_rules, Obeys-rbuf_put) depth 12

  pub Obeys-respond_status : (x : ℕ) → Obeys Q P (respond_status x)
  unfolding respond_status
  Obeys-respond_status x = Obeys-respond _

  pub Obeys-skip_request : (n : ℕ) → Obeys Q P (skip_request n)
  unfolding skip_request
  Obeys-skip_request n = search (obeys_rules, Obeys-plain) depth 12
