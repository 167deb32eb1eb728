-- ===== src/Nvs/Text.antt =====
-- The texts that firmware/src/nvs.c makes of the stored names.
use riceprobe.Base.{
  ℕ, zero, suc, ◌+◌, ◌-◌, ◌*◌, ◌%◌, ◌≤◌, ◌<◌, ◌≡◌, refl, ap, ◌∙◌, arith, List, [], ◌∷◌, ◌++◌,
  length, take, drop, min, length-append, length-take, length-drop, replicate, ◌==◌, if◌then◌else◌,
  Bool-cases, inl, inr, false, All,
}
use riceprobe.Errno.{enobufs, ok, err}
use riceprobe.Nvs.{
  Nvs, strlen, chars, strncpy, get_serial_number, snprintk, uuid_text, serial_key, uuid_key,
  txt_record, hex, hex_all,
}

less_none : (n : ℕ) → n - 0 ≡ n
less_none n = omega arith

less_one : (n k : ℕ) → suc n - suc k ≡ n - k
less_one n k = omega arith

strncpy_lem :
    (n : ℕ) (cs : List ℕ) → strlen cs ≤ n → strncpy n cs ≡ chars cs ++ replicate (n - strlen cs) 0
unfolding strncpy strlen chars
strncpy_lem zero [] h = refl
strncpy_lem zero (c ∷ cs) h = elim (Bool-cases (c == 0)) [
  | inl e ↦ rw e refl
  | inr e ↦ ground arith
]
strncpy_lem (suc n) [] h =
    rw (less_none (suc n))
      (ap (λ cs. 0 ∷ cs) (strncpy_lem n [] (omega arith) ∙ ap (λ k. replicate k 0) (less_none n)))
strncpy_lem (suc n) (c ∷ cs) h = elim (Bool-cases (c == 0)) [
  | inl e ↦ rw e (rw (less_none (suc n)) refl)
  | inr e ↦ rw e (
      rw (less_one n (strlen cs))
        (ap (λ cs. c ∷ cs) (strncpy_lem n cs (omega (arith, longer e h)))))
]
  where
    longer : (c == 0) ≡ false → (if c == 0 then 0 else suc (strlen cs)) ≤ suc n → strlen cs ≤ n
    longer e h = ground arith

-- `nvs_get_serial_number` on every size of buffer: one with no room for the stored string and its NUL
-- gets `-ENOBUFS`; any other one is filled with the characters of the string and NULs behind them.
pub get_serial_number_lem :
    (nvs : Nvs) (buf_len : ℕ)
    → (buf_len ≤ strlen nvs.serial_number → get_serial_number nvs buf_len ≡ err enobufs)
      × (strlen nvs.serial_number < buf_len
          → get_serial_number nvs buf_len
            ≡ ok (chars nvs.serial_number ++ replicate (buf_len - strlen nvs.serial_number) 0))
unfolding get_serial_number
get_serial_number_lem nvs n =
    (λ h. ground arith, λ h. ground (arith, strncpy_lem n nvs.serial_number (omega arith)))

-- No byte is a NUL.
abbrev pub IsText : List ℕ → Type 0
IsText = All (λ c. 0 < c)

pub chars-end : (cs zs : List ℕ) → IsText cs → chars (cs ++ (0 ∷ zs)) ≡ cs
unfolding chars
chars-end [] zs h = refl
chars-end (c ∷ cs) zs (p, h) = elim (Bool-cases (c == 0)) [
  | inl e ↦ ground arith
  | inr e ↦ rw e (ap (λ cs. c ∷ cs) (chars-end cs zs h))
]

strlen-end : (cs : List ℕ) → IsText cs → strlen (cs ++ (0 ∷ [])) ≡ length cs
unfolding strlen
strlen-end [] h = refl
strlen-end (c ∷ cs) (p, h) = elim (Bool-cases (c == 0)) [
  | inl e ↦ ground arith
  | inr e ↦ rw e (ap suc (strlen-end cs h))
]

pub chars-IsText : (cs : List ℕ) → IsText (chars cs)
unfolding chars
chars-IsText [] = tt
chars-IsText (c ∷ cs) = elim (Bool-cases (c == 0)) [
  | inl e ↦ rw e tt
  | inr e ↦ rw e (ground arith, chars-IsText cs)
]

pub length-chars : (cs : List ℕ) → length (chars cs) ≡ strlen cs
unfolding chars strlen
length-chars [] = refl
length-chars (c ∷ cs) = elim (Bool-cases (c == 0)) [
  | inl e ↦ rw e refl
  | inr e ↦ rw e (ap suc (length-chars cs))
]

pub take_all : (n : ℕ) (cs : List ℕ) → length cs ≤ n → take n cs ≡ cs
take_all zero [] h = refl
take_all zero (c ∷ cs) h = ground arith
take_all (suc n) [] h = refl
take_all (suc n) (c ∷ cs) h = ap (λ cs. c ∷ cs) (take_all n cs (omega (arith, h)))

pub snprintk_lem : (n : ℕ) (cs : List ℕ) → length cs < n → snprintk n cs ≡ cs ++ (0 ∷ [])
unfolding snprintk
snprintk_lem zero cs h = ground arith
snprintk_lem (suc n) cs h = ap (λ xs. xs ++ (0 ∷ [])) (take_all n cs (omega (arith, h)))

length-hex_all : (bs : List ℕ) → length (hex_all bs) ≡ 2 * length bs
unfolding hex_all hex
length-hex_all [] = refl
length-hex_all (b ∷ bs) = omega (arith, length-hex_all bs)

group :
    (u : List ℕ) (n k : ℕ)
    → length u ≡ 16
    → length (hex_all (take n (drop k u))) ≡ 2 * min n (16 - k)
group u n k h =
    length-hex_all _
    ∙ ap (λ m. 2 * m) (length-take n (drop k u) ∙ ap (min n) (length-drop k u ∙ ap (λ l. l - k) h))

-- The text of a UUID has 36 characters.
pub length-uuid_text : (u : List ℕ) → length u ≡ 16 → length (uuid_text u) ≡ 36
unfolding uuid_text
length-uuid_text u h =
    rw
      (
        length-append (hex_all (take 4 u)) _,
        length-append (hex_all (take 2 (drop 4 u))) _,
        length-append (hex_all (take 2 (drop 6 u))) _,
        length-append (hex_all (take 2 (drop 8 u))) _,
      )
      (omega (arith, h, group u 4 0 h, group u 2 4 h, group u 2 6 h, group u 2 8 h, group u 6 10 h))

-- The first entry, without a NUL.
abbrev serial_entry : List ℕ → List ℕ
serial_entry serial = (7 + strlen serial) % 256 ∷ (serial_key ++ chars serial)

serial_entry-IsText : (serial : List ℕ) → strlen serial ≤ 17 → IsText (serial_entry serial)
serial_entry-IsText serial h = (
  omega arith,
  (
    omega arith,
    (
      omega arith,
      (
        omega arith,
        (omega arith, (omega arith, (omega arith, (omega arith, chars-IsText serial)))),
      ),
    ),
  ),
)

length-serial_entry : (serial : List ℕ) → length (serial_entry serial) ≡ 8 + strlen serial
length-serial_entry serial = omega (arith, length-chars serial)

-- Two entries written one behind the other, the second over the NUL of the first.
joined :
    (size : ℕ) (xs ys : List ℕ)
    → IsText xs
    → length xs + length ys < size
    → chars (snprintk size xs) ++ snprintk (size - strlen (snprintk size xs)) ys
      ≡ xs ++ (ys ++ (0 ∷ []))
joined size xs ys text room =
    rw
      (
        snprintk_lem size xs (omega (arith, room)),
        chars-end xs [] text,
        strlen-end xs text,
        snprintk_lem (size - length xs) ys (omega (arith, room)),
      )
      refl

-- The DNS TXT record is complete if the serial number has at most 17 characters and the UUID its 16
-- bytes: each entry stands behind its length, the serial number's first, and one NUL ends the record.
pub txt_record_complete :
    (serial uuid : List ℕ)
    → strlen serial ≤ 17
    → length uuid ≡ 16
    → txt_record serial uuid
      ≡ ((7 + strlen serial) ∷ (serial_key ++ chars serial))
        ++ ((length (uuid_key ++ uuid_text uuid) ∷ (uuid_key ++ uuid_text uuid)) ++ (0 ∷ []))
unfolding txt_record
txt_record_complete serial uuid h sixteen =
    joined 68 (serial_entry serial) (41 ∷ (uuid_key ++ uuid_text uuid))
      (serial_entry-IsText serial h)
      (omega (arith, length-serial_entry serial, length-uuid_text uuid sixteen))
    ∙ ap
        (λ n.
          (n ∷ (serial_key ++ chars serial)) ++ ((41 ∷ (uuid_key ++ uuid_text uuid)) ++ (0 ∷ [])))
        byte
    ∙ ap
        (λ n.
          ((7 + strlen serial) ∷ (serial_key ++ chars serial))
          ++ ((n ∷ (uuid_key ++ uuid_text uuid)) ++ (0 ∷ [])))
        long
  where
    byte : (7 + strlen serial) % 256 ≡ 7 + strlen serial
    byte = omega arith

    long : 41 ≡ length (uuid_key ++ uuid_text uuid)
    long = omega (arith, length-uuid_text uuid sixteen)
