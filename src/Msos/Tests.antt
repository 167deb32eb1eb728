-- ===== src/Msos/Tests.antt =====
-- The descriptors on a concrete device.
use riceprobe.Base.{ℕ, ◌/◌, ◌%◌, ◌+◌, ◌*◌, ◌≤◌, ◌<◌, ◌≡◌, refl, arith, ◌⊎◌, [], ◌∷◌, ltb}
use riceprobe.Errno.{ok}
use riceprobe.Nvs.{Nvs, strlen, chars}
use riceprobe.Usb
use riceprobe.Io.Transport
use riceprobe.Msos.{
  Headers, Setup, initial, vendor_code, string_descr, compatid_descr, extprop_descr,
  custom_handle_req, vendor_handle_req, update_sn_string_descriptor,
}
use riceprobe.Msos.Reader.{Laws, requests_lem}
use riceprobe.Msos.Serial.{update_sn_string_descriptor_lem}

abbrev headers : Headers
headers = record {
  is_to_device = λ n. ltb n 128;
  descriptor_type = λ v. v / 256;
  descriptor_index = λ v. v % 256;
  desc_string = 3;
}

type_of : (t i : ℕ) → i < 256 → (t * 256 + i) / 256 ≡ t
type_of t i h = omega (arith, h)

index_of : (t i : ℕ) → i < 256 → (t * 256 + i) % 256 ≡ i
index_of t i h = omega (arith, h)

abbrev headers-Laws : Laws headers
headers-Laws = record { direction = λ n h. refl; type_of = type_of; index_of = index_of }

abbrev asks_functions : Setup
asks_functions = record {
  bm_request_type = 0xc0;
  b_request = vendor_code;
  w_value = 0;
  w_index = 4;
}

requests_lem_example :
    (custom_handle_req headers asks_functions ≡ ok (compatid_descr initial)
      → (128 ≤ asks_functions.bm_request_type)
        × (headers.descriptor_type asks_functions.w_value ≡ headers.desc_string)
        × (headers.descriptor_index asks_functions.w_value ≡ 0xee)
        × (string_descr headers ≡ compatid_descr initial))
    × (vendor_handle_req headers asks_functions initial ≡ ok (compatid_descr initial)
        → (128 ≤ asks_functions.bm_request_type)
          × (asks_functions.b_request ≡ vendor_code)
          × (((asks_functions.w_index ≡ 4) × (compatid_descr initial ≡ compatid_descr initial))
              ⊎ ((asks_functions.w_index ≡ 5) × (extprop_descr ≡ compatid_descr initial))))
requests_lem_example =
    requests_lem headers headers-Laws asks_functions initial (compatid_descr initial) (omega arith)

-- "RPB1"
abbrev device : Nvs
device = record { serial_number = 82 ∷ 80 ∷ 66 ∷ 49 ∷ 0 ∷ []; uuid = []; dns_txt_record = [] }

update_sn_string_descriptor_lem_example :
    (strlen device.serial_number < 8
      → chars (update_sn_string_descriptor device 8 (65 ∷ 66 ∷ [])) ≡ chars device.serial_number)
    × (8 ≤ strlen device.serial_number
        → chars (update_sn_string_descriptor device 8 (65 ∷ 66 ∷ [])) ≡ [])
update_sn_string_descriptor_lem_example = update_sn_string_descriptor_lem device 8 (65 ∷ 66 ∷ [])
