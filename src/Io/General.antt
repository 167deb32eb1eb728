-- ===== src/Io/General.antt =====
-- firmware/src/io/commands_general.c.
use riceprobe.Base.{ℕ, Bool, List, [], ◌∷◌, length, ◌==◌, if◌then◌else◌, not}
use riceprobe.Base.Int.{ℤ, pos, negsuc, is_negative}
use riceprobe.Base.Bits.{le16}
use riceprobe.Errno.{einval, enobufs, Result}
use riceprobe.Errno
use riceprobe.Nvs.{Nvs, strncpy, get_serial_number, get_uuid_str}
use riceprobe.Zephyr.{request, response, buf_put_claim, buf_put_finish, buf_store, sleep_us}
use riceprobe.Zephyr.Prog.{fail, ask, require, ◌>>=◌, ◌>>◌}
use riceprobe.Utf8.Rbuf.{rbuf_get}
use riceprobe.Dap.{respond, ring_get_le32}
use riceprobe.Dap.General.{Config, size_of}
use riceprobe.Io.{
  Action, Board, respond_command, respond_status, response_ok, response_enotsup, ring_buf_size,
  max_packet_size,
}

-- The two tests that are made of the status of a finish: `< 0` and `!= 0`.
abbrev pub at_least_zero : ℤ → Bool
at_least_zero ret = not (is_negative ret)

abbrev pub is_zero : ℤ → Bool
is_zero (pos n) = n == 0
is_zero (negsuc n) = Bool.false

-- A string answer: the status, its length, a `uint8_t`, and the characters, in one piece.
unfoldable pub respond_text : (ℤ → Bool) → ℕ → List ℕ → Action (Unit {0})
unfolding strncpy ◌>>=◌
respond_text finished len text = do
  respond (response_ok ∷ len ∷ [])
  (space, at) ← ask (buf_put_claim response len)
  require (space == len) enobufs
  ask (buf_store response at (strncpy space text))
  ret ← ask (buf_put_finish response space)
  require (finished ret) enobufs

-- "0.1.0"
abbrev io_protocol_version : List ℕ
io_protocol_version = 48 ∷ 46 ∷ 49 ∷ 46 ∷ 48 ∷ 0 ∷ []

-- The answer from a function of nvs.c.
unfoldable pub respond_stored : ℕ → Result (List ℕ) → Action (Unit {0})
unfolding respond_text
respond_stored len (Errno.err e) = fail einval
respond_stored len (Errno.ok text) = respond_text is_zero len text

-- The chain of tests on the id of `io_handle_cmd_info`.
unfoldable pub info_of : Board → Config → Nvs → ℕ → Action (Unit {0})
unfolding respond_stored respond_text get_serial_number
info_of board config nvs id =
    if id == 0x01
    then respond (response_ok ∷ 2 ∷ le16 max_packet_size)
    else if id == 0x02
    then respond (response_ok ∷ 2 ∷ le16 ring_buf_size)
    else if id == 0x03
    then respond_text at_least_zero (size_of config.manufacturer) config.manufacturer
    else if id == 0x04
    then respond_text at_least_zero (size_of config.descriptor) config.descriptor
    else if id == 0x05
    then respond_stored (size_of config.serial_format)
        (get_serial_number nvs (length config.serial_format))
    else if id == 0x06
    then respond_stored 37 (get_uuid_str nvs 37)
    else if id == 0x07
    then respond_text is_zero (size_of config.version) config.version
    else if id == 0x08
    then respond_text is_zero (size_of io_protocol_version) io_protocol_version
    else if id == 0x09
    then respond (response_ok ∷ 1 ∷ 0 ∷ [])
    else if id == 0x0a
    then respond (response_ok ∷ 2 ∷ le16 board.gpios)
    else respond_status response_enotsup

-- `io_handle_cmd_info`
unfoldable pub handle_info : Board → Config → Nvs → Action (Unit {0})
unfolding info_of
handle_info board config nvs = do
  id ← rbuf_get request 0
  respond_command 0x01
  info_of board config nvs id

-- `io_handle_cmd_delay`
unfoldable pub handle_delay : Action (Unit {0})
unfolding ◌>>=◌
handle_delay = do
  delay_us ← ring_get_le32
  ask (sleep_us delay_us)
  respond (0x04 ∷ response_ok ∷ [])
