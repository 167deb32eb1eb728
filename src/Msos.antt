-- ===== src/Msos.antt =====
-- firmware/src/usb_msos.c: the descriptors from which Windows chooses a driver, and the requests for them. A
-- packed struct is its bytes, in the order of its fields.
pub mod Reader
pub mod Serial
mod Tests
use riceprobe.Base.{
  ℕ, zero, suc, ◌+◌, ◌%◌, ◌/◌, Bool, true, false, ◌&&◌, List, [], ◌∷◌, ◌++◌, length, replicate, set,
  ◌==◌, if◌then◌else◌,
}
use riceprobe.Base.Bits.{le16, le32}
use riceprobe.Errno.{Errno, einval, enotsup, Result, ok, err}
use riceprobe.Nvs.{Nvs, get_serial_number}

-- What Zephyr's headers define: the direction in `bmRequestType`, the two halves of `wValue`, the type of a string.
pub record Headers : Type 0 where
  pub is_to_device : ℕ → Bool
  pub descriptor_type : ℕ → ℕ
  pub descriptor_index : ℕ → ℕ
  pub desc_string : ℕ

-- `struct usb_setup_packet`
pub record Setup : Type 0 where
  pub bm_request_type : ℕ
  pub b_request : ℕ
  pub w_value : ℕ
  pub w_index : ℕ

-- `USB_MSOS_VENDOR_CODE`
abbrev pub vendor_code : ℕ
vendor_code = 0x20

-- The bytes of a text with a 0 behind each character.
abbrev pub wide : List ℕ → List ℕ
wide [] = []
wide (c ∷ cs) = c ∷ 0 ∷ wide cs

-- `struct usb_msos_string_descr`: "MSFT100". Its size is 18.
abbrev pub string_descr : Headers → List ℕ
string_descr h =
    18 ∷ h.desc_string ∷ (wide (77 ∷ 83 ∷ 70 ∷ 84 ∷ 49 ∷ 48 ∷ 48 ∷ []) ++ le16 vendor_code)

-- `struct usb_msos_compatid_func`: "WINUSB" for an interface.
abbrev pub winusb : List ℕ
winusb = 87 ∷ 73 ∷ 78 ∷ 85 ∷ 83 ∷ 66 ∷ 0 ∷ 0 ∷ []

abbrev pub compatid_func : ℕ → List ℕ
compatid_func interface = interface ∷ 1 ∷ (winusb ++ (replicate 8 0 ++ replicate 6 0))

-- The fields `bFirstInterfaceNumber` of `usb_msos_compatid_descr`, which are all that changes.
pub record Funcs : Type 0 where
  pub func0 : ℕ
  pub func1 : ℕ

abbrev pub initial : Funcs
initial = record { func0 = 0; func1 = 0 }

-- `usb_msos_set_func0_interface`, `usb_msos_set_func1_interface`
unfoldable pub set_func0_interface : ℕ → Funcs → Funcs
set_func0_interface intf f = record f { func0 = intf }

unfoldable pub set_func1_interface : ℕ → Funcs → Funcs
set_func1_interface intf f = record f { func1 = intf }

-- `struct usb_msos_compatid_descr`, whose size is 16 and twice 24.
unfoldable pub compatid_descr : Funcs → List ℕ
compatid_descr f =
    le32 64
    ++ (le16 0x100
        ++ (le16 4 ++ (2 ∷ (replicate 7 0 ++ (compatid_func f.func0 ++ compatid_func f.func1)))))

-- "DeviceInterfaceGUID", and the GUID in braces.
abbrev pub property_name : List ℕ
property_name =
    68 ∷ 101 ∷ 118 ∷ 105 ∷ 99 ∷ 101 ∷ 73 ∷ 110 ∷ 116 ∷ 101 ∷ 114 ∷ 102 ∷ 97 ∷ 99 ∷ 101 ∷ 71 ∷ 85
    ∷ 73 ∷ 68 ∷ []

abbrev pub property_data : List ℕ
property_data =
    123 ∷ 67 ∷ 68 ∷ 66 ∷ 51 ∷ 66 ∷ 53 ∷ 65 ∷ 68 ∷ 45 ∷ 50 ∷ 57 ∷ 51 ∷ 66 ∷ 45 ∷ 52 ∷ 54 ∷ 54 ∷ 51
    ∷ 45 ∷ 65 ∷ 65 ∷ 51 ∷ 54 ∷ 45 ∷ 49 ∷ 65 ∷ 65 ∷ 69 ∷ 52 ∷ 54 ∷ 52 ∷ 54 ∷ 51 ∷ 55 ∷ 55 ∷ 54 ∷ 125
    ∷ []

-- `struct usb_msos_device_intf_guid`, whose size is 132.
unfoldable pub device_intf_guid : List ℕ
device_intf_guid =
    le32 132
    ++ (le32 1
        ++ (le16 40
            ++ (wide property_name ++ (0 ∷ 0 ∷ (le32 78 ++ (wide property_data ++ (0 ∷ 0 ∷ [])))))))

-- `struct usb_msos_extprop_descr`, whose size is 10 more.
unfoldable pub extprop_descr : List ℕ
unfolding device_intf_guid
extprop_descr = le32 142 ++ (le16 0x100 ++ (le16 5 ++ (le16 1 ++ device_intf_guid)))

module _ (h : Headers) where
  -- `usb_msos_custom_handle_req`: the bytes that are to be sent.
  unfoldable pub custom_handle_req : Setup → Result (List ℕ)
  custom_handle_req s =
      if h.is_to_device s.bm_request_type
      then err enotsup
      else if h.descriptor_type s.w_value == h.desc_string && h.descriptor_index s.w_value == 0xee
      then ok (string_descr h)
      else err einval

  -- `usb_msos_vendor_handle_req`
  unfoldable pub vendor_handle_req : Setup → Funcs → Result (List ℕ)
  vendor_handle_req s f =
      if h.is_to_device s.bm_request_type
      then err enotsup
      else if s.b_request == vendor_code && s.w_index == 4
      then ok (compatid_descr f)
      else if s.b_request == vendor_code && s.w_index == 5
      then ok extprop_descr
      else err enotsup

-- `usb_update_sn_string_descriptor`: the array `serial` of this size, from what it held before.
unfoldable pub update_sn_string_descriptor : Nvs → ℕ → List ℕ → List ℕ
unfolding get_serial_number
update_sn_string_descriptor nvs size before = elim (get_serial_number nvs size) [
  | ok serial ↦ serial
  | err e ↦ set before 0 0
]
