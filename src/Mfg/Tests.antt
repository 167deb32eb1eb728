-- ===== src/Mfg/Tests.antt =====
-- The manufacturing data of one device.
use riceprobe.Base.{
  ℕ, ◌+◌, ◌-◌, ◌≡◌, refl, ◌≢◌, true, arith, some, none, List, [], ◌∷◌, ◌++◌, length, replicate,
  get_or, leb, if◌then◌else◌,
}
use riceprobe.Errno.{ok}
use riceprobe.Nvs.{Nvs, Flash, get_serial_number, serial_key, uuid_key, uuid_text, init}
use riceprobe.Mfg.{luhn_check_gen, checked_serial, hex_file}
use riceprobe.Mfg.Luhn.{single_error-shows, padding-keeps}
use riceprobe.Mfg.Flash.{cells, Programmed, init-names}

-- "RPB1-2352000001", the serial number in the script's document.
abbrev serial : List ℕ
serial = 82 ∷ 80 ∷ 66 ∷ 49 ∷ 45 ∷ 50 ∷ 51 ∷ 53 ∷ 50 ∷ 48 ∷ 48 ∷ 48 ∷ 48 ∷ 48 ∷ 49 ∷ []

-- With its check character, "Y".
abbrev full : List ℕ
full = serial ++ (89 ∷ [])

accepted : checked_serial serial ≡ some full
unfolding checked_serial
accepted = refl

abbrev id : List ℕ
id = replicate 16 0xa5

-- Flash from the address in the script's document on, in an erased memory.
abbrev base : ℕ
base = 0x5f0000

abbrev memory : ℕ → ℕ
memory n = get_or ((0x5a ∷ 0x7a ∷ 1 ∷ 1 ∷ []) ++ (full ++ (replicate 16 0 ++ id))) (n - base) 0xff

abbrev flash : Flash
flash at n = if leb (at + n) 0x200 then some (cells memory (base + at) n) else none

flash-Programmed : Programmed base (hex_file base full id) flash
unfolding hex_file
flash-Programmed = record {
  cell = memory;
  reads = λ at n h. ground arith;
  holds = (refl, (refl, (refl, (refl, (refl, tt)))));
}

init-names_example :
    (nvs : Nvs) × (init true flash ≡ ok nvs)
    × (get_serial_number nvs 32 ≡ ok (full ++ replicate (32 - length full) 0))
    × (nvs.uuid ≡ id)
    × (nvs.dns_txt_record
        ≡ ((7 + length full) ∷ (serial_key ++ full))
          ++ ((length (uuid_key ++ uuid_text id) ∷ (uuid_key ++ uuid_text id)) ++ (0 ∷ [])))
init-names_example = init-names base serial full id flash accepted refl flash-Programmed

-- "RPB12352" and what may follow it.
abbrev front : List ℕ
front = 82 ∷ 80 ∷ 66 ∷ 49 ∷ 50 ∷ 51 ∷ 53 ∷ 50 ∷ []

abbrev number : List ℕ
number = 48 ∷ 48 ∷ 48 ∷ 48 ∷ 49 ∷ []

right_number : luhn_check_gen (front ++ (48 ∷ number)) ≡ some 89
unfolding luhn_check_gen
right_number = refl

wrong_number : luhn_check_gen (front ++ (51 ∷ number)) ≡ some 86
unfolding luhn_check_gen
wrong_number = refl

single_error-shows_example : ◌≢◌ {A = ℕ} 89 86
single_error-shows_example =
    single_error-shows front number 48 51 89 86 (λ e. ground (arith, e)) right_number wrong_number

padding-keeps_example : luhn_check_gen (front ++ (48 ∷ 48 ∷ 48 ∷ number)) ≡ some 89
padding-keeps_example = padding-keeps front (48 ∷ number) 89 right_number
