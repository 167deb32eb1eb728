-- ===== src/Mfg.antt =====
-- scripts/mfg/gen_manufacturing_data_hex.py: the manufacturing data, which firmware/src/nvs.c reads. A string is the
-- list of its code points; the serial number is taken as `argparse` hands it over, in upper case. The file that
-- `intelhex` writes is the list of the calls of `puts`, an address with its bytes; the UUID is an argument.
pub mod Luhn
pub mod Flash
mod Tests
use riceprobe.Base.{
  ℕ, zero, suc, ◌+◌, ◌-◌, ◌*◌, ◌/◌, ◌%◌, Bool, true, false, ◌&&◌, Option, none, some, List, [], ◌∷◌,
  ◌++◌, length, replicate, leb, ◌==◌, if◌then◌else◌,
}
use riceprobe.Base.Bits.{le16}

-- `char_to_code`, none for `None`.
unfoldable pub char_to_code : ℕ → Option ℕ
char_to_code c =
    if leb 48 c && leb c 57
    then some (c - 48)
    else if leb 65 c && leb c 90
    then some (c - 65 + 10)
    else none

-- `code_to_char`
unfoldable pub code_to_char : ℕ → Option ℕ
code_to_char c =
    if leb c 9 then some (48 + c) else if leb 10 c && leb c 35 then some (65 + c - 10) else none

-- What a character adds to the sum: the digits of its code times the factor, to the base 36.
unfoldable pub addend : ℕ → ℕ → ℕ
addend factor code = factor * code / 36 + factor * code % 36

unfoldable pub next_factor : ℕ → ℕ
next_factor factor = if factor == 2 then 1 else 2

unfoldable pub add_code : Option ℕ → Option (ℕ × ℕ) → Option (ℕ × ℕ)
unfolding addend next_factor
add_code none rest = none
add_code (some code) none = none
add_code (some code) (some (factor, sum)) = some (next_factor factor, sum + addend factor code)

-- The loop of `luhn_mod36_check_gen`, from the last character to the first: `factor` and `sum` in front of these
-- characters. None where a character has no code, with which the script ends.
unfoldable pub luhn_loop : List ℕ → Option (ℕ × ℕ)
unfolding add_code char_to_code
luhn_loop [] = some (2, 0)
luhn_loop (c ∷ cs) = add_code (char_to_code c) (luhn_loop cs)

unfoldable pub check_of : Option (ℕ × ℕ) → Option ℕ
unfolding code_to_char
check_of none = none
check_of (some (factor, sum)) = code_to_char ((36 - sum % 36) % 36)

-- `luhn_mod36_check_gen`
unfoldable pub luhn_check_gen : List ℕ → Option ℕ
unfolding luhn_loop check_of
luhn_check_gen string = check_of (luhn_loop string)

-- `MFG_SERIAL_REGEX`, a range of characters for each place.
abbrev pub serial_regex : List (ℕ × ℕ)
serial_regex =
    (82, 82)
    ∷ (80, 80)
    ∷ (66, 66)
    ∷ (49, 49)
    ∷ (45, 45)
    ∷ (50, 51)
    ∷ (48, 57)
    ∷ (48, 53)
    ∷ (48, 57)
    ∷ replicate 6 (48, 57)

-- `re.match`; the `$` at the end of an expression also holds in front of a last line break.
unfoldable pub re_match : List (ℕ × ℕ) → List ℕ → Bool
re_match [] [] = true
re_match [] (c ∷ []) = c == 10
re_match [] (c ∷ b ∷ cs) = false
re_match (r ∷ rs) [] = false
re_match ((lo, hi) ∷ rs) (c ∷ cs) = (leb lo c && leb c hi) && re_match rs cs

-- `args.serial.replace('-', '')`
unfoldable pub without_hyphens : List ℕ → List ℕ
without_hyphens [] = []
without_hyphens (c ∷ cs) = if c == 45 then without_hyphens cs else c ∷ without_hyphens cs

unfoldable pub append_check : List ℕ → Option ℕ → Option (List ℕ)
append_check serial none = none
append_check serial (some check) = some (serial ++ (check ∷ []))

-- The serial number with its check character, or none where the script ends with an exception.
unfoldable pub checked_serial : List ℕ → Option (List ℕ)
unfolding re_match without_hyphens luhn_check_gen append_check
checked_serial serial =
    if re_match serial_regex serial
    then append_check serial (luhn_check_gen (without_hyphens serial))
    else none

-- `args.serial.ljust(MFG_DATA_SERIAL_LEN, '\x00').encode('utf-8')`; a serial number is of ASCII characters.
unfoldable pub serial_bytes : List ℕ → List ℕ
serial_bytes serial = serial ++ replicate (32 - length serial) 0

-- The calls of `ihex.puts`.
unfoldable pub hex_file : ℕ → List ℕ → List ℕ → List (ℕ × List ℕ)
unfolding serial_bytes
hex_file offset serial id =
    (offset + 0, le16 0x7a5a)
    ∷ (offset + 2, 1 ∷ [])
    ∷ (offset + 3, 1 ∷ [])
    ∷ (offset + 4, serial_bytes serial)
    ∷ (offset + 36, id)
    ∷ []
