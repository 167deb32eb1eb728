-- ===== src/Mfg/Flash.antt =====
-- A device that is programmed with the manufacturing data (scripts/mfg/gen_manufacturing_data_hex.py) and then starts
-- (firmware/src/nvs.c).
use riceprobe.Base.{
  ℕ, zero, suc, ◌+◌, ◌-◌, ◌%◌, ◌≤◌, ◌<◌, ◌≡◌, refl, sym, ap, ◌∙◌, arith, true, ◌&&◌, Option, none,
  some, List, [], ◌∷◌, ◌++◌, length, length-append, replicate, get_or, All, leb, Bool-cases, inl,
  inr,
}
use mathlib.Core.Path.{ap₂}
use riceprobe.Base.Bits.{le16}
use riceprobe.Errno.{ok}
use riceprobe.Nvs.{
  Nvs, Flash, strlen, chars, get_serial_number, uuid_key, serial_key, uuid_text, txt_record, load,
  init,
}
use riceprobe.Nvs.Text.{IsText, chars-end, length-chars, get_serial_number_lem, txt_record_complete}
use riceprobe.Mfg.{
  code_to_char, check_of, luhn_check_gen, luhn_loop, without_hyphens, re_match, serial_regex,
  append_check, checked_serial, serial_bytes, hex_file,
}

-- The bytes of a memory from an address on.
abbrev pub cells : (ℕ → ℕ) → ℕ → ℕ → List ℕ
cells cell at zero = []
cells cell at (suc n) = cell at ∷ cells cell (suc at) n

-- Flash whose partition starts at this address, after the file was written to it: reads inside the data go well
-- and show what the memory holds, and it holds each run of bytes that the file puts somewhere.
pub record Programmed (base : ℕ) (puts : List (ℕ × List ℕ)) (flash : Flash) : Type 0 where
  pub cell : ℕ → ℕ
  pub reads : (at n : ℕ) → at + n ≤ 52 → flash at n ≡ some (cells cell (base + at) n)
  pub holds : All (λ p. cells cell p.0 (length p.1) ≡ p.1) puts

-- What passes the regular expression.
abbrev Fits : List (ℕ × ℕ) → Type 0
Fits = All (λ r. 0 < r.0)

matched :
    (rs : List (ℕ × ℕ)) (cs : List ℕ)
    → Fits rs
    → re_match rs cs ≡ true
    → IsText cs × (length cs ≤ suc (length rs))
unfolding re_match
matched [] [] fits h = (tt, omega arith)
matched [] (c ∷ []) fits h = ((ground arith, tt), omega arith)
matched [] (c ∷ b ∷ cs) fits h = ground arith
matched (r ∷ rs) [] fits h = ground arith
matched ((lo, hi) ∷ rs) (c ∷ cs) (low, fits) h =
    let (text, short) = matched rs cs fits (rest c h) in ((reaches c h, text), omega (arith, short))
  where
    rest : (c : ℕ) → ((leb lo c && leb c hi) && re_match rs cs) ≡ true → re_match rs cs ≡ true
    rest c h = ground arith

    reaches : (c : ℕ) → ((leb lo c && leb c hi) && re_match rs cs) ≡ true → 0 < c
    reaches c h = ground arith

append-IsText : (xs : List ℕ) (c : ℕ) → IsText xs → 0 < c → IsText (xs ++ (c ∷ []))
append-IsText [] c text h = (h, tt)
append-IsText (x ∷ xs) c (p, text) h = (p, append-IsText xs c text h)

code_to_char_text : (a x : ℕ) → code_to_char a ≡ some x → 0 < x
unfolding code_to_char
code_to_char_text a x h = ground arith

check_of_text : (o : Option (ℕ × ℕ)) (x : ℕ) → check_of o ≡ some x → 0 < x
unfolding check_of
check_of_text none x h = ground arith
check_of_text (some (f, s)) x h = code_to_char_text ((36 - s % 36) % 36) x h

abbrev text_of : Option (List ℕ) → List ℕ
text_of none = []
text_of (some cs) = cs

appended :
    (serial full : List ℕ) (check : Option ℕ)
    → append_check serial check ≡ some full
    → (c : ℕ) × (check ≡ some c) × (serial ++ (c ∷ []) ≡ full)
unfolding append_check
appended serial full none h = ground arith
appended serial full (some c) h = (c, refl, ap text_of h)

letters : Fits serial_regex
letters = ground arith

-- A serial number with its check character is a text of at most 17 characters.
checked_serial-IsText :
    (serial full : List ℕ) → checked_serial serial ≡ some full → IsText full × (length full ≤ 17)
unfolding checked_serial luhn_check_gen
checked_serial-IsText serial full h = elim (Bool-cases (re_match serial_regex serial)) [
  | inr e ↦ ground (arith, rw e at h)
  | inl e ↦
      let (text, short) = matched serial_regex serial letters e in
      let (c, check, same) =
        appended serial full (luhn_check_gen (without_hyphens serial)) (rw e at h) in
      rw (sym same) (
        append-IsText serial c text (check_of_text (luhn_loop (without_hyphens serial)) c check),
        omega (arith, short, length-append serial (c ∷ [])),
      )
]

get_or-zeros : (i k : ℕ) → get_or (replicate {A = ℕ} k 0) i 0 ≡ 0
get_or-zeros i zero = refl
get_or-zeros zero (suc k) = refl
get_or-zeros (suc i) (suc k) = get_or-zeros i k

get_or-behind : (xs : List ℕ) (i k : ℕ) → length xs ≤ i → get_or (xs ++ replicate k 0) i 0 ≡ 0
get_or-behind [] i k h = get_or-zeros i k
get_or-behind (x ∷ xs) zero k h = ground arith
get_or-behind (x ∷ xs) (suc i) k h = get_or-behind xs i k (omega (arith, h))

length-zeros : (k : ℕ) → length (replicate {A = ℕ} k 0) ≡ k
length-zeros zero = refl
length-zeros (suc k) = ap suc (length-zeros k)

length-serial_bytes : (full : List ℕ) → length full ≤ 17 → length (serial_bytes full) ≡ 32
unfolding serial_bytes
length-serial_bytes full h =
    omega (
      arith,
      h,
      length-append full (replicate (32 - length full) 0),
      length-zeros (32 - length full),
    )

chars-serial_bytes :
    (full : List ℕ) → IsText full → length full ≤ 17 → chars (serial_bytes full) ≡ full
unfolding serial_bytes
chars-serial_bytes full text h =
    ap (λ k. chars (full ++ replicate k 0)) ends
    ∙ chars-end full (replicate (31 - length full) 0) text
  where
    ends : 32 - length full ≡ suc (31 - length full)
    ends = omega (arith, h)

-- What `nvs_init` makes of the data.
abbrev loaded : List ℕ → List ℕ → Nvs
loaded full id = record {
  serial_number = serial_bytes full;
  uuid = id;
  dns_txt_record = txt_record (serial_bytes full) id;
}

abbrev head : List ℕ → ℕ
head bytes = get_or bytes 0 0

-- A read of just what was put there.
read_back :
    (base at n : ℕ) (bytes : List ℕ) (cell : ℕ → ℕ) (flash : Flash)
    → at + n ≤ 52
    → length bytes ≡ n
    → ((at n : ℕ) → at + n ≤ 52 → flash at n ≡ some (cells cell (base + at) n))
    → cells cell (base + at) (length bytes) ≡ bytes
    → flash at n ≡ some bytes
read_back base at n bytes cell flash inside long reads holds =
    reads at n inside ∙ ap some (ap (cells cell (base + at)) (sym long) ∙ holds)

version_read :
    (base : ℕ) (cell : ℕ → ℕ) (flash : Flash)
    → ((at n : ℕ) → at + n ≤ 52 → flash at n ≡ some (cells cell (base + at) n))
    → cells cell (base + 2) 1 ≡ 1 ∷ []
    → cells cell (base + 3) 1 ≡ 1 ∷ []
    → flash 2 2 ≡ some (1 ∷ 1 ∷ [])
version_read base cell flash reads major minor =
    reads 2 2 (omega arith)
    ∙ ap some (ap₂ (λ a b. a ∷ b ∷ []) (ap head major) (ap cell next ∙ ap head minor))
  where
    next : suc (base + 2) ≡ base + 3
    next = omega arith

last_byte : (full : List ℕ) → length full ≤ 17 → get_or (serial_bytes full) 31 0 ≡ 0
unfolding serial_bytes
last_byte full short = get_or-behind full 31 (32 - length full) (omega (arith, short))

module _ (base : ℕ) (full id : List ℕ) (flash : Flash) (short : length full ≤ 17)
    (sixteen : length id ≡ 16) (programmed : Programmed base (hex_file base full id) flash) where
  init_loads : init true flash ≡ ok (loaded full id)
  unfolding init load hex_file
  init_loads =
      let (tag, (major, (minor, (serial, (uuid, _))))) = programmed.holds in
      let read = λ (at n : ℕ) (bytes : List ℕ). read_back base at n bytes programmed.cell flash in
      rw
        (
          init,
          load,
          read 0 2 (le16 0x7a5a) (omega arith) refl programmed.reads tag,
          version_read base programmed.cell flash programmed.reads major minor,
          read 4 32 (serial_bytes full) (omega arith) (length-serial_bytes full short)
              programmed.reads serial,
          read 36 16 id (omega arith) sixteen programmed.reads uuid,
          last_byte full short,
        )
        refl

strlen-serial_bytes :
    (full : List ℕ) → IsText full → length full ≤ 17 → strlen (serial_bytes full) ≡ length full
strlen-serial_bytes full text short =
    sym (length-chars (serial_bytes full)) ∙ ap length (chars-serial_bytes full text short)

-- A device that is programmed with the file that the manufacturing script makes of a serial number that it accepts
-- and a UUID, wherever in the memory, comes up with these names: `nvs_init` succeeds; the serial number that the
-- firmware hands out is the given one with its check character, and NULs behind it; the UUID is the one of the
-- file; and the DNS TXT record is complete, with both of them, each behind its length.
pub init-names :
    (base : ℕ) (serial full id : List ℕ) (flash : Flash)
    → checked_serial serial ≡ some full
    → length id ≡ 16
    → Programmed base (hex_file base full id) flash
    → (nvs : Nvs) × (init true flash ≡ ok nvs)
      × (get_serial_number nvs 32 ≡ ok (full ++ replicate (32 - length full) 0))
      × (nvs.uuid ≡ id)
      × (nvs.dns_txt_record
          ≡ ((7 + length full) ∷ (serial_key ++ full))
            ++ ((length (uuid_key ++ uuid_text id) ∷ (uuid_key ++ uuid_text id)) ++ (0 ∷ [])))
init-names base serial full id flash accepted sixteen programmed =
    let (text, short) = checked_serial-IsText serial full accepted in
    let long = strlen-serial_bytes full text short in
    let whole = chars-serial_bytes full text short in
    (
      loaded full id,
      init_loads base full id flash short sixteen programmed,
      (get_serial_number_lem (loaded full id) 32).1 (omega (arith, long, short))
          ∙ rw (whole, long) refl,
      refl,
      txt_record_complete (serial_bytes full) id (omega (arith, long, short)) sixteen
          ∙ rw (whole, long) refl,
    )
