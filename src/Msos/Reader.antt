-- ===== src/Msos/Reader.antt =====
-- The formats of the descriptors, from Microsoft's definition of them, as a reader; and what a host finds.
use riceprobe.Base.{
  ℕ, zero, suc, ◌+◌, ◌*◌, ◌≤◌, ◌<◌, ◌≡◌, arith, Bool, true, false, ◌&&◌, List, [], ◌∷◌, ◌++◌,
  length, take, drop, get_or, Option, none, some, ltb, ◌==◌, ◌⊎◌,
}
use riceprobe.Base.Bits.{get_le16, get_le32}
use riceprobe.Errno.{Result, ok, err}
use riceprobe.Usb
use riceprobe.Io.Transport
use riceprobe.Msos.{
  Headers, Setup, vendor_code, wide, string_descr, winusb, Funcs, compatid_descr, extprop_descr,
  custom_handle_req, vendor_handle_req, property_name, property_data,
}

-- Numbers in a list of bytes.
abbrev word : List ℕ → ℕ → ℕ
word xs at = get_le16 (get_or xs at 0) (get_or xs (at + 1) 0)

abbrev dword : List ℕ → ℕ → ℕ
dword xs at =
    get_le32 (get_or xs at 0) (get_or xs (at + 1) 0) (get_or xs (at + 2) 0) (get_or xs (at + 3) 0)

module _ {A : Type 0} where
  abbrev require : Bool → Option A → Option A
  require true m = m
  require false m = none

-- The header of a string descriptor with the signature "MSFT100": the vendor code.
unfoldable pub read_vendor_code : List ℕ → Option ℕ
read_vendor_code xs =
    require (get_or xs 0 0 == length xs && length xs == 18)
      (require (get_or xs 2 0 == 77 && get_or xs 4 0 == 83) (some (get_or xs 16 0)))

-- So many sections of 24 bytes: the interface and the ID of each.
unfoldable pub read_functions : ℕ → List ℕ → Option (List (ℕ × List ℕ))
read_functions zero [] = some []
read_functions zero (x ∷ xs) = none
read_functions (suc n) xs = elim (read_functions n (drop 24 xs)) [
  | none ↦ none
  | some more ↦ require (ltb 23 (length xs)) (some ((get_or xs 0 0, take 8 (drop 2 xs)) ∷ more))
]

-- A compatible ID descriptor: its whole length, version 1.0, index 4, the number of sections.
unfoldable pub read_compatid : List ℕ → Option (List (ℕ × List ℕ))
unfolding read_functions
read_compatid xs =
    require (dword xs 0 == length xs && (word xs 4 == 0x100 && word xs 6 == 4))
      (read_functions (get_or xs 8 0) (drop 16 xs))

-- A custom property: its size, type, and the name and the value behind their lengths.
pub record Property : Type 0 where
  pub kind : ℕ
  pub name : List ℕ
  pub value : List ℕ

unfoldable pub read_property : List ℕ → Option Property
read_property xs =
    let name_length = word xs 8 in
    let value_length = dword xs (10 + name_length) in
    require (dword xs 0 == length xs && length xs == 14 + name_length + value_length) (
      some (record {
        kind = dword xs 4;
        name = take name_length (drop 10 xs);
        value = take value_length (drop (14 + name_length) xs);
      }))

-- An extended properties descriptor with one property.
unfoldable pub read_extprop : List ℕ → Option Property
unfolding read_property
read_extprop xs =
    require (dword xs 0 == length xs && (word xs 4 == 0x100 && (word xs 6 == 5 && word xs 8 == 1)))
      (read_property (drop 10 xs))

-- The property that the device describes, and all that it tells for two interfaces.
abbrev pub driver_property : Property
driver_property = record {
  kind = 1;
  name = wide (property_name ++ (0 ∷ []));
  value = wide (property_data ++ (0 ∷ []));
}

abbrev pub installed : ℕ → ℕ → List (ℕ × List ℕ) × Property
installed i j = ((i, winusb) ∷ (j, winusb) ∷ [], driver_property)

module _ {A B : Type 0} where
  abbrev answered : Result A → (A → Option B) → Option B
  answered (ok a) f = f a
  answered (err e) f = none

  infixl 5 ◌>>=◌
  abbrev ◌>>=◌ : Option A → (A → Option B) → Option B
  none >>= f = none
  some a >>= f = f a

-- What a host does with a device that it does not know: it asks for string 0xee, and with the code that is there
-- for the two descriptors.
unfoldable pub discover : Headers → Funcs → Option (List (ℕ × List ℕ) × Property)
discover h f = do
  code ←
      answered
        (custom_handle_req h (record {
          bm_request_type = 0x80;
          b_request = 6;
          w_value = h.desc_string * 256 + 0xee;
          w_index = 0;
        }))
        read_vendor_code
  functions ←
      answered
        (vendor_handle_req h
          (record { bm_request_type = 0xc0; b_request = code; w_value = 0; w_index = 4 }) f)
        read_compatid
  property ←
      answered
        (vendor_handle_req h
          (record { bm_request_type = 0xc1; b_request = code; w_value = 0; w_index = 5 }) f)
        read_extprop
  some (functions, property)

-- What USB documents of a setup packet: bit 7 of the type is set towards the host, and a value is a descriptor's
-- type and index.
pub record Laws (h : Headers) : Type 0 where
  pub direction : (n : ℕ) → n < 256 → h.is_to_device n ≡ ltb n 128
  pub type_of : (t i : ℕ) → i < 256 → h.descriptor_type (t * 256 + i) ≡ t
  pub index_of : (t i : ℕ) → i < 256 → h.descriptor_index (t * 256 + i) ≡ i

module _ (h : Headers) (laws : Laws h) where
  -- Nothing else is answered: only a request to the host gets bytes, for a string with index 0xee those of the
  -- string descriptor, and with the vendor code and index 4 or 5 those of the other two.
  pub requests_lem :
      (s : Setup) (f : Funcs) (xs : List ℕ)
      → s.bm_request_type < 256
      → (custom_handle_req h s ≡ ok xs
          → (128 ≤ s.bm_request_type)
            × (h.descriptor_type s.w_value ≡ h.desc_string)
            × (h.descriptor_index s.w_value ≡ 0xee)
            × (string_descr h ≡ xs))
        × (vendor_handle_req h s f ≡ ok xs
            → (128 ≤ s.bm_request_type)
              × (s.b_request ≡ vendor_code)
              × (((s.w_index ≡ 4) × (compatid_descr f ≡ xs))
                  ⊎ ((s.w_index ≡ 5) × (extprop_descr ≡ xs))))
  unfolding custom_handle_req vendor_handle_req
  requests_lem s f xs byte = (
    λ h1. (
      ground (arith, laws.direction s.bm_request_type byte),
      ground (arith, laws.direction s.bm_request_type byte),
      ground (arith, laws.direction s.bm_request_type byte),
      ground (arith, laws.direction s.bm_request_type byte),
    ),
    λ h1. (
      ground (arith, laws.direction s.bm_request_type byte),
      ground (arith, laws.direction s.bm_request_type byte),
      ground (arith, laws.direction s.bm_request_type byte),
    ),
  )
