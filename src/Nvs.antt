-- ===== src/Nvs.antt =====
-- firmware/src/nvs.c: the serial number and the UUID of the device, read once from flash. Flash is not
-- in the repository: opening the partition and reading bytes are arguments. A `char` array is its
-- bytes.
pub mod Text
pub mod Uuid
pub mod Start
mod Tests
use riceprobe.Base.{
  ℕ, zero, suc, ◌+◌, ◌-◌, ◌*◌, ◌/◌, ◌%◌, Bool, true, false, Option, none, some, List, [], ◌∷◌, ◌++◌,
  length, get_or, take, drop, replicate, ltb, leb, ◌==◌, ◌/=◌, if◌then◌else◌,
}
use riceprobe.Base.Bits.{get_le16}
use riceprobe.Errno.{Errno, enobufs, einval, eio, enotsup, Result, ok, err}

-- The static `nvs` and `nvs_dns_txt_record`.
pub record Nvs : Type 0 where
  pub serial_number : List ℕ
  pub uuid : List ℕ
  pub dns_txt_record : List ℕ

-- `strlen`: the bytes before the first NUL.
unfoldable pub strlen : List ℕ → ℕ
strlen [] = 0
strlen (c ∷ cs) = if c == 0 then 0 else suc (strlen cs)

-- The characters of a string, without its NUL.
unfoldable pub chars : List ℕ → List ℕ
chars [] = []
chars (c ∷ cs) = if c == 0 then [] else c ∷ chars cs

-- What `strncpy` leaves in the `n` bytes of its target: the characters that fit, then NULs.
unfoldable pub strncpy : ℕ → List ℕ → List ℕ
strncpy zero cs = []
strncpy (suc n) [] = 0 ∷ strncpy n []
strncpy (suc n) (c ∷ cs) = if c == 0 then 0 ∷ replicate n 0 else c ∷ strncpy n cs

-- `nvs_get_serial_number`: what it writes to the buffer.
unfoldable pub get_serial_number : Nvs → ℕ → Result (List ℕ)
unfolding strlen strncpy
get_serial_number nvs buf_len =
    if leb buf_len (strlen nvs.serial_number)
    then err enobufs
    else ok (strncpy buf_len nvs.serial_number)

-- `%02x` of a byte.
unfoldable pub hex_digit : ℕ → ℕ
hex_digit n = if ltb n 10 then 48 + n else 87 + n

unfoldable pub hex : ℕ → List ℕ
unfolding hex_digit
hex b = hex_digit (b / 16) ∷ hex_digit (b % 16) ∷ []

unfoldable pub hex_all : List ℕ → List ℕ
unfolding hex
hex_all [] = []
hex_all (b ∷ bs) = hex b ++ hex_all bs

-- `nvs_get_uuid_str`, and the text in the record: the digits in groups of 4, 2, 2, 2 and 6 bytes.
unfoldable pub uuid_text : List ℕ → List ℕ
unfolding hex_all
uuid_text u =
    hex_all (take 4 u)
    ++ (45
        ∷ (hex_all (take 2 (drop 4 u))
            ++ (45
                ∷ (hex_all (take 2 (drop 6 u))
                    ++ (45
                        ∷ (hex_all (take 2 (drop 8 u)) ++ (45 ∷ hex_all (take 6 (drop 10 u)))))))))

-- `snprintk` into `size` bytes: what fits before the NUL.
unfoldable pub snprintk : ℕ → List ℕ → List ℕ
snprintk zero text = []
snprintk (suc n) text = take n text ++ (0 ∷ [])

unfoldable pub get_uuid_str : Nvs → ℕ → Result (List ℕ)
unfolding uuid_text snprintk
get_uuid_str nvs buf_len =
    if ltb buf_len 37 then err enobufs else ok (snprintk buf_len (uuid_text nvs.uuid))

-- `nvs_get_uuid`: `memcpy` of `buf_len` bytes from the array, none for a read behind its end.
unfoldable pub get_uuid : Nvs → ℕ → Result (Option (List ℕ))
get_uuid nvs buf_len =
    if ltb buf_len 16
    then err enobufs
    else ok (if ltb 16 buf_len then none else some (take buf_len nvs.uuid))

-- "serial=" and "uuid="
abbrev pub serial_key : List ℕ
serial_key = 115 ∷ 101 ∷ 114 ∷ 105 ∷ 97 ∷ 108 ∷ 61 ∷ []

abbrev pub uuid_key : List ℕ
uuid_key = 117 ∷ 117 ∷ 105 ∷ 100 ∷ 61 ∷ []

-- The end of `nvs_init`: both entries of the record, each behind its length, into 68 bytes. The second
-- is written over the NUL of the first.
unfoldable pub txt_record : List ℕ → List ℕ → List ℕ
unfolding strlen chars snprintk uuid_text
txt_record serial uuid =
    let first = snprintk 68 ((7 + strlen serial) % 256 ∷ (serial_key ++ chars serial)) in
    chars first ++ snprintk (68 - strlen first) (41 ∷ (uuid_key ++ uuid_text uuid))

-- `flash_area_read` of a number of bytes at an address; none for a negative code.
abbrev pub Flash : Type 0
Flash = ℕ → ℕ → Option (List ℕ)

abbrev half_word : List ℕ → ℕ
half_word bytes = get_le16 (get_or bytes 0 0) (get_or bytes 1 0)

-- The checks of `nvs_init` in order, once the partition is open.
unfoldable pub load : Flash → Result Nvs
unfolding txt_record
load flash = elim (flash 0 2) [
  | none ↦ err eio
  | some tag ↦ if half_word tag /= 0x7a5a then err einval else elim (flash 2 2) [
    | none ↦ err eio
    | some version ↦ if half_word version /= 0x0101 then err enotsup else elim (flash 4 32) [
      | none ↦ err eio
      | some serial ↦ if get_or serial 31 0 /= 0 then err einval else elim (flash 36 16) [
        | none ↦ err eio
        | some uuid ↦ ok (record {
          serial_number = serial;
          uuid = uuid;
          dns_txt_record = txt_record serial uuid;
        })
      ]
    ]
  ]
]

-- `nvs_init`
unfoldable pub init : Bool → Flash → Result Nvs
unfolding load
init opened flash = if opened then load flash else err eio
