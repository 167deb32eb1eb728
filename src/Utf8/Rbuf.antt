-- ===== src/Utf8/Rbuf.antt =====
-- firmware/src/utf8.c: a code point put on a ring buffer and taken from one.
use riceprobe.Base.{ℕ, List, some, length}
use riceprobe.Errno.{Result, ok, err}
use riceprobe.Zephyr.{
  Buffer, buf_put_claim, buf_put_finish, buf_store, buf_get_claim, buf_get_finish,
}
use riceprobe.Zephyr.Prog.{M, pure, fail, ask, ◌>>=◌, ◌>>◌}
use riceprobe.Utf8.{encode, decode_into}

module _ {S : Type 0} where
  unfoldable pub finish_put : Buffer → ℕ → Result (List ℕ) → M S ℕ
  unfolding ◌>>=◌
  finish_put b at (ok bytes) = do
    ask (buf_store b at bytes)
    _ ← ask (buf_put_finish b (length bytes))
    pure (length bytes)
  finish_put b at (err e) = do _ ← ask (buf_put_finish b 0); fail e

  -- `utf8_rbuf_put`: the bytes go to the storage that was claimed, if they fit.
  unfoldable pub rbuf_put : Buffer → ℕ → M S ℕ
  unfolding ◌>>=◌ finish_put
  rbuf_put b val = do
    (put_len, at) ← ask (buf_put_claim b 4)
    finish_put b at (encode val (some put_len))

  unfoldable pub finish_get : Buffer → Result ℕ × ℕ → M S ℕ
  unfolding ◌>>=◌
  finish_get b (ok nbytes, val) = do _ ← ask (buf_get_finish b nbytes); pure val
  finish_get b (err e, val) = do _ ← ask (buf_get_finish b 0); fail e

  -- `utf8_rbuf_get` on a `*result`: what is left there where it succeeds.
  unfoldable pub rbuf_get : Buffer → ℕ → M S ℕ
  unfolding ◌>>=◌ finish_get
  rbuf_get b result = do bytes ← ask (buf_get_claim b 4); finish_get b (decode_into bytes result)
