-- ===== src/Vcp/Tests.antt =====
-- The virtual COM port on a concrete buffer.
use riceprobe.Base.{
  ℕ, ◌≤◌, ◌≡◌, ◌↔◌, refl, arith, true, false, List, [], ◌∷◌, ◌++◌, ◌+◌, min, length, length-take,
  take, some,
}
use riceprobe.Errno.{Result, ok}
use riceprobe.Zephyr.Ring.{Ring}
use riceprobe.Vcp.Fifo.{ring_ops, ring-Laws}
use riceprobe.Vcp.Coding.{
  LineCoding, UartConfig, bits_7, bits_8, set_line_coding, get_line_coding, class_handle_req,
  answered, configured, line_coding_kept,
}
use riceprobe.Vcp.Device.{
  tx_part, read_cb, status_cb, count_of, Vcp, bytes_of, configure, rx_part, keep_read, checked,
  work_handler,
}
use riceprobe.Zephyr.Ring.{cells}
use riceprobe.Base.Int.{ℤ, pos}
use riceprobe.Vcp.Feed.{ring-Feed}
use riceprobe.Vcp.Descriptor.{
  Spec, initial, interface_config, interfaces, items, AreNumbered, interface_config_lem,
}
use riceprobe.Vcp.Host
use riceprobe.Vcp.Host.{Upline, came, ready, pass, Reach-IsUpline}
use riceprobe.Vcp.Stream.{
  Line, received, worked, sent, step, accept, is_writing, started, Reach, opened, went,
}
use riceprobe.Vcp.Stream.Order.{IsLine}
use riceprobe.Vcp.Stream.Queue.{Reach-IsLine, Reach-goes}

abbrev ring : Ring
ring = record { cap = 1024; head = 0; bytes = []; taken = 0; claimed = []; stale = λ i. 0 }

abbrev closed : Vcp Ring
closed = record { configured = false; rx = ring; tx = ring }

-- The UART has three bytes.
abbrev three : ℕ → Result (List ℕ)
three n = ok (take n (10 ∷ 11 ∷ 12 ∷ []))

three_fit : (n : ℕ) → length (bytes_of (three n)) ≤ n
three_fit n = omega (arith, length-take {A = ℕ} n (10 ∷ 11 ∷ 12 ∷ []))

-- Three bytes come in, a transfer starts, three more come in, and two go to the host.
abbrev holding : ℕ → List ℕ → Ring
holding head bytes = record ring { head = head; bytes = bytes }

abbrev six_in : Line Ring
six_in = record {
  vcp = record {
    configured = true;
    rx = record ring { bytes = 10 ∷ 11 ∷ 12 ∷ 10 ∷ 11 ∷ 12 ∷ []; taken = 3 };
    tx = ring;
  };
  arrived = 10 ∷ 11 ∷ 12 ∷ 10 ∷ 11 ∷ 12 ∷ [];
  delivered = [];
  writing = some (10 ∷ 11 ∷ 12 ∷ []);
}

reach_six : Reach ring_ops six_in
unfolding step accept is_writing started rx_part keep_read checked work_handler configure
reach_six =
    went (received three) _ six_in
      (went worked _ _ (went (received three) _ _ (opened closed refl) three_fit refl) tt refl)
      three_fit refl

Reach-IsLine_example : IsLine ring_ops ring-Laws six_in
Reach-IsLine_example = Reach-IsLine ring_ops ring-Laws six_in reach_six

Reach-goes_example : (l' : Line Ring) × (step ring_ops (sent 2) six_in ≡ some l')
Reach-goes_example = Reach-goes ring_ops ring-Laws six_in (sent 2) reach_six (omega arith)

-- USB configures the port, three bytes come from the host, and the UART takes at most two at a time.
abbrev granted : ℕ → ℕ → List ℕ → Ring
granted head room bytes = record ring {
  head = head;
  bytes = bytes;
  claimed = cells (λ i. 0) (head + length bytes) room;
}

abbrev three_out : Upline Ring
three_out = record {
  vcp = record { configured = true; rx = ring; tx = granted 0 1021 (20 ∷ 21 ∷ 22 ∷ []) };
  accepted = 20 ∷ 21 ∷ 22 ∷ [];
  passed = [];
}

abbrev two_at_once : List ℕ → ℤ
two_at_once avail = pos (min 2 (length avail))

at_most_two : (avail : List ℕ) → count_of (two_at_once avail) ≤ length avail
at_most_two avail = omega arith

reach_three : Host.Reach ring_ops ring-Feed three_out
unfolding Host.step pass tx_part read_cb status_cb configure
reach_three =
    Host.went (came (20 ∷ 21 ∷ 22 ∷ [])) _ three_out (Host.opened closed refl)
      (omega arith, omega arith) refl

Reach-IsUpline_example :
    (◌++◌ {A = ℕ} [] (20 ∷ 21 ∷ 22 ∷ []) ≡ 20 ∷ 21 ∷ 22 ∷ [])
    × ((e : Host.Event)
        → Host.IsAllowed ring_ops ring-Feed e three_out
        → (l' : Upline Ring) × (Host.step ring_ops ring-Feed e three_out ≡ some l'))
Reach-IsUpline_example = Reach-IsUpline ring_ops ring-Feed three_out reach_three

abbrev fast : LineCoding
fast = record { dw_dte_rate = 115200; b_char_format = 2; b_parity_type = 1; b_data_bits = 7 }

abbrev slow : UartConfig
slow = record { baudrate = 9600; parity = 0; stop_bits = 1; data_bits = bits_8 }

fast_set :
    class_handle_req true true set_line_coding fast slow
    ≡ configured (record { baudrate = 115200; parity = 1; stop_bits = 3; data_bits = bits_7 })
unfolding class_handle_req
fast_set = refl

line_coding_kept_example :
    class_handle_req true false get_line_coding fast
      (record { baudrate = 115200; parity = 1; stop_bits = 3; data_bits = bits_7 })
    ≡ answered fast
line_coding_kept_example = line_coding_kept fast fast _ slow (omega arith) fast_set

abbrev zephyr : Spec
zephyr = record {
  sizeof_association = 8;
  sizeof_if = 9;
  sizeof_header = 5;
  sizeof_cm = 5;
  sizeof_acm = 4;
  sizeof_union = 5;
  sizeof_ep = 7;
  desc_interface_assoc = 11;
  desc_interface = 4;
  desc_cs_interface = 36;
  desc_endpoint = 5;
  bcc_cdc_control = 2;
  bcc_cdc_data = 10;
  acm_subclass = 2;
  header_func_desc = 0;
  call_management_func_desc = 1;
  acm_func_desc = 2;
  union_func_desc = 6;
  usb_srn_1_1 = 0x110;
  auto_ep_in = 128;
  auto_ep_out = 0;
  dc_ep_bulk = 2;
  dc_ep_interrupt = 3;
  max_fs_int_mps = 64;
}

interface_config_lem_example :
    let d = interface_config 7 2 (initial zephyr) in
    AreNumbered d.iad_cdc.b_first_interface (interfaces (items d))
    × (length (interfaces (items d)) ≡ d.iad_cdc.b_interface_count)
    × (d.union_b_control_interface ≡ d.if0.b_interface_number)
    × (d.union_b_subordinate_interface0 ≡ d.if1.b_interface_number)
    × ((d.cm_b_data_interface ≡ d.if1.b_interface_number) ↔ ◌≡◌ {A = ℕ} 2 0)
interface_config_lem_example = interface_config_lem zephyr 7 2 (omega arith)
