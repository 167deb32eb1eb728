-- ===== src/Io/Calls/Handlers.antt =====
-- The commands of the pins: the calls that every one of them may make.
use riceprobe.Base.{ℕ, inl, inr}
use riceprobe.Zephyr.{Call}
use riceprobe.Zephyr.Prog.{ask}
use riceprobe.Zephyr.Obeys.{
  Every, logged, Safely-run, Obeys, Obeys-ask, Obeys-bind, Obeys-test, Obeys-if, Obeys-elim,
  Obeys-pure, Obeys-stop, Obeys-modify, Obeys-read, Obeys-fail, obeys_rules,
}
use riceprobe.Io.{Driver}
use riceprobe.Io.Gpio.{refuse_flags}
use riceprobe.Io.Calls.{IsPlain, IsPinsCall, IsPinCall}
use riceprobe.Io.Calls.Rules.{
  Obeys-plain, Obeys-get_u8, Obeys-ring_get_le32, Obeys-respond, Obeys-rbuf_get,
  Obeys-respond_status, Obeys-respond_command, Obeys-skip_request,
}

pub plain_io : (n : ℕ) (c : Call) → IsPlain c → IsPinsCall n c
plain_io n c h = inl h

module _ {n : ℕ} {P : Driver → Type 0} where
  pub Obeys-io : (c : Call) → IsPlain c → Obeys (IsPinsCall n) P (ask c)
  Obeys-io c h = Obeys-ask c (inl h)

  pub Obeys-pin : (c : Call) → IsPinCall n c → Obeys (IsPinsCall n) P (ask c)
  Obeys-pin c h = Obeys-ask c (inr h)

pub ruleset io_rules = (
  obeys_rules, Obeys-io, Obeys-pin, plain_io, Obeys-get_u8, Obeys-ring_get_le32, Obeys-respond,
  Obeys-rbuf_get, Obeys-respond_status, Obeys-respond_command, Obeys-skip_request,
)

module _ {n : ℕ} {P : Driver → Type 0} where
  pub Obeys-refuse_flags : (len : ℕ) → Obeys (IsPinsCall n) P (refuse_flags len)
  unfolding refuse_flags
  Obeys-refuse_flags len = search io_rules depth 20
