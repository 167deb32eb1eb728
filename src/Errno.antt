-- ===== src/Errno.antt =====
-- The negative return codes of the firmware's functions, and results that carry one.

pub data Errno : Type 0 where
  einval enobufs enodata emsgsize enotsup enodev eio eagain eshutdown : Errno

-- `int32_t` functions: a value at least 0, or a negative code.
pub data Result {ℓ} (A : Type ℓ) : Type ℓ where
  ok : A → Result A
  err : Errno → Result A
