-- ===== src/Vcp/Coding.antt =====
-- The line codings of firmware/src/vcp/usb.c.
use riceprobe.Base.{
  ℕ, ◌+◌, ◌%◌, ◌<◌, ◌≡◌, refl, sym, ap, arith, Bool, true, false, ◌==◌, if◌then◌else◌,
}
use riceprobe.Errno.{Errno, enodev, enotsup, Result, ok, err}

-- `UART_CFG_DATA_BITS_5` and so on.
pub data DataBits : Type 0 where
  bits_5 bits_6 bits_7 bits_8 bits_9 : DataBits

-- `struct cdc_acm_line_coding`
pub record LineCoding : Type 0 where
  pub dw_dte_rate : ℕ
  pub b_char_format : ℕ
  pub b_parity_type : ℕ
  pub b_data_bits : ℕ

-- `struct uart_config` less its flow control, which is always off.
pub record UartConfig : Type 0 where
  pub baudrate : ℕ
  pub parity : ℕ
  pub stop_bits : ℕ
  pub data_bits : DataBits

unfoldable pub uart_data_bits : ℕ → Result DataBits
uart_data_bits n =
    if n == 5
    then ok bits_5
    else if n == 6
    then ok bits_6
    else if n == 7
    then ok bits_7
    else if n == 8
    then ok bits_8
    else err enotsup

unfoldable pub usb_data_bits : DataBits → Result ℕ
usb_data_bits bits_5 = ok 5
usb_data_bits bits_6 = ok 6
usb_data_bits bits_7 = ok 7
usb_data_bits bits_8 = ok 8
usb_data_bits bits_9 = err enotsup

-- `SET_LINE_CODING`: the configuration that is handed to the UART. The stop bits are a `uint8_t`.
unfoldable pub to_uart : LineCoding → Result UartConfig
unfolding uart_data_bits
to_uart l = elim (uart_data_bits l.b_data_bits) [
  | err e ↦ err e
  | ok bits ↦ ok (record {
    baudrate = l.dw_dte_rate;
    parity = l.b_parity_type;
    stop_bits = (l.b_char_format + 1) % 256;
    data_bits = bits;
  })
]

-- `GET_LINE_CODING`
unfoldable pub from_uart : UartConfig → Result LineCoding
unfolding usb_data_bits
from_uart c = elim (usb_data_bits c.data_bits) [
  | err e ↦ err e
  | ok bits ↦ ok (record {
    dw_dte_rate = c.baudrate;
    b_char_format = (c.stop_bits + 255) % 256;
    b_parity_type = c.parity;
    b_data_bits = bits;
  })
]

-- `setup->bRequest`
pub data Request : Type 0 where
  set_line_coding get_line_coding set_control_line_state other_request : Request

-- What becomes of a request: a code, a configuration that the UART is given, whose status is returned,
-- nothing, or a coding for the host.
pub data Handled : Type 0 where
  failed : Errno → Handled
  configured : UartConfig → Handled
  ignored : Handled
  answered : LineCoding → Handled

unfoldable pub handle_set : Result UartConfig → Handled
handle_set (ok c) = configured c
handle_set (err e) = failed e

unfoldable pub handle_get : Result LineCoding → Handled
handle_get (ok l) = answered l
handle_get (err e) = failed e

-- `vcp_usb_class_handle_req`: whether the interface has a device, the direction, the request, the data
-- that came with it, and what `uart_config_get` gives.
unfoldable pub class_handle_req : Bool → Bool → Request → LineCoding → UartConfig → Handled
unfolding handle_set handle_get to_uart from_uart
class_handle_req false to_device req l c = failed enodev
class_handle_req true true set_line_coding l c = handle_set (to_uart l)
class_handle_req true true set_control_line_state l c = ignored
class_handle_req true true get_line_coding l c = failed enotsup
class_handle_req true true other_request l c = failed enotsup
class_handle_req true false get_line_coding l c = handle_get (from_uart c)
class_handle_req true false set_line_coding l c = failed enotsup
class_handle_req true false set_control_line_state l c = failed enotsup
class_handle_req true false other_request l c = failed enotsup

data_bits-back : (n : ℕ) (b : DataBits) → uart_data_bits n ≡ ok b → usb_data_bits b ≡ ok n
unfolding uart_data_bits usb_data_bits
data_bits-back n bits_5 h = ground arith
data_bits-back n bits_6 h = ground arith
data_bits-back n bits_7 h = ground arith
data_bits-back n bits_8 h = ground arith
data_bits-back n bits_9 h = ground arith

-- The UART's configuration for a coding with these data bits.
abbrev coded : LineCoding → DataBits → UartConfig
coded l bits = record {
  baudrate = l.dw_dte_rate;
  parity = l.b_parity_type;
  stop_bits = (l.b_char_format + 1) % 256;
  data_bits = bits;
}

format_back : (n : ℕ) → n < 256 → ((n + 1) % 256 + 255) % 256 ≡ n
format_back n h = omega (arith, h)

coded-back :
    (l : LineCoding) (b : DataBits)
    → l.b_char_format < 256
    → usb_data_bits b ≡ ok l.b_data_bits
    → from_uart (coded l b) ≡ ok l
unfolding from_uart
coded-back l b byte h = rw (h, format_back l.b_char_format byte) refl

configured_is : (c c' : UartConfig) → configured c ≡ configured c' → c ≡ c'
configured_is c c' h =
    ap (elim [ configured x ↦ x | failed e ↦ c | ignored ↦ c | answered l ↦ c ]) h

kept_by :
    (l : LineCoding) (c : UartConfig) (r : Result DataBits)
    → l.b_char_format < 256
    → uart_data_bits l.b_data_bits ≡ r
    → handle_set (elim r [ err e ↦ err e | ok bits ↦ ok (coded l bits) ]) ≡ configured c
    → handle_get (from_uart c) ≡ answered l
unfolding handle_set handle_get
kept_by l c (err e) byte same h = ground arith
kept_by l c (ok b) byte same h =
    rw
      (
        sym (configured_is (coded l b) c h),
        coded-back l b byte (data_bits-back l.b_data_bits b same),
      )
      refl

-- A line coding that the host sets is the one that it then gets: where a request to set it leads to a
-- configuration of the UART, a request to get it, made while the UART has that configuration, is answered
-- by the same coding, whatever character format it names.
pub line_coding_kept :
    (l l' : LineCoding) (c c' : UartConfig)
    → l.b_char_format < 256
    → class_handle_req true true set_line_coding l c' ≡ configured c
    → class_handle_req true false get_line_coding l' c ≡ answered l
unfolding class_handle_req
line_coding_kept l l' c c' byte h = kept_by l c (uart_data_bits l.b_data_bits) byte refl h
