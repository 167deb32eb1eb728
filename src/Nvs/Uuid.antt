-- ===== src/Nvs/Uuid.antt =====
-- The text of a UUID (firmware/src/nvs.c) as one who reads it.
use riceprobe.Base.{
  ℕ, zero, suc, ◌+◌, ◌-◌, ◌*◌, ◌/◌, ◌%◌, ◌≤◌, ◌<◌, ◌≡◌, refl, sym, ap, ◌∙◌, arith, false, ◌&&◌,
  Option, none, some, List, [], ◌∷◌, ◌++◌, length, length-take, length-drop, take, drop, take-drop,
  drop_add, All, All-take, All-drop, leb, ltb, ◌==◌, if◌then◌else◌,
}
use riceprobe.Errno.{ok}
use riceprobe.Nvs.{Nvs, hex_digit, hex_all, uuid_text, get_uuid_str}
use riceprobe.Nvs.Text.{take_all, snprintk_lem, length-uuid_text}

-- A hexadecimal digit of either case.
abbrev digit_of : ℕ → Option ℕ
digit_of c =
    if leb 48 c && leb c 57
    then some (c - 48)
    else if leb 97 c && leb c 102
    then some (c - 87)
    else if leb 65 c && leb c 70
    then some (c - 55)
    else none

abbrev joined : Option ℕ → Option ℕ → Option (List ℕ) → Option (List ℕ)
joined (some high) (some low) (some bs) = some ((16 * high + low) ∷ bs)
joined _ _ _ = none

-- A number of bytes, then a hyphen where more of them follow, by the format of RFC 4122.
unfoldable pub read_groups : List ℕ → List ℕ → Option (List ℕ)
read_groups [] [] = some []
read_groups [] (c ∷ cs) = none
read_groups (zero ∷ []) cs = read_groups [] cs
read_groups (zero ∷ n ∷ ns) [] = none
read_groups (zero ∷ n ∷ ns) (c ∷ cs) = if c == 45 then read_groups (n ∷ ns) cs else none
read_groups (suc n ∷ ns) (a ∷ b ∷ cs) = joined (digit_of a) (digit_of b) (read_groups (n ∷ ns) cs)
read_groups (suc n ∷ ns) (a ∷ []) = none
read_groups (suc n ∷ ns) [] = none

abbrev pub read_uuid : List ℕ → Option (List ℕ)
read_uuid = read_groups (4 ∷ 2 ∷ 2 ∷ 2 ∷ 6 ∷ [])

digit_back : (n : ℕ) → n < 16 → digit_of (hex_digit n) ≡ some n
unfolding hex_digit
digit_back n h = ground arith

byte_back :
    (b : ℕ) (rest : List ℕ)
    → b < 256
    → joined (digit_of (hex_digit (b / 16))) (digit_of (hex_digit (b % 16))) (some rest)
      ≡ some (b ∷ rest)
byte_back b rest h =
    rw (digit_back (b / 16) (omega (arith, h)), digit_back (b % 16) (omega arith))
      (ap (λ n. some (n ∷ rest)) (omega arith))

-- A byte of a UUID.
abbrev pub AreBytes : List ℕ → Type 0
AreBytes = All (λ b. b < 256)

read_group :
    (bs ns cs rest : List ℕ)
    → AreBytes bs
    → read_groups (0 ∷ ns) cs ≡ some rest
    → read_groups (length bs ∷ ns) (hex_all bs ++ cs) ≡ some (bs ++ rest)
unfolding read_groups hex_all
read_group [] ns cs rest h e = e
read_group (b ∷ bs) ns cs rest (p, h) e =
    ap (joined (digit_of (hex_digit (b / 16))) (digit_of (hex_digit (b % 16))))
      (read_group bs ns cs rest h e)
    ∙ byte_back b (bs ++ rest) p

read_last : (bs : List ℕ) → AreBytes bs → read_groups (length bs ∷ []) (hex_all bs) ≡ some bs
unfolding read_groups hex_all
read_last [] h = refl
read_last (b ∷ bs) (p, h) =
    ap (joined (digit_of (hex_digit (b / 16))) (digit_of (hex_digit (b % 16)))) (read_last bs h)
    ∙ byte_back b bs p

-- A group in front of a hyphen and the groups behind it.
hyphenated :
    (n m : ℕ) (bs ns cs rest : List ℕ)
    → length bs ≡ n
    → AreBytes bs
    → read_groups (m ∷ ns) cs ≡ some rest
    → read_groups (n ∷ m ∷ ns) (hex_all bs ++ (45 ∷ cs)) ≡ some (bs ++ rest)
unfolding read_groups
hyphenated n m bs ns cs rest e h go =
    ap (λ k. read_groups (k ∷ m ∷ ns) (hex_all bs ++ (45 ∷ cs))) (sym e)
    ∙ read_group bs (m ∷ ns) (45 ∷ cs) rest h go

module _ (u : List ℕ) (sixteen : length u ≡ 16) (bytes : AreBytes u) where
  abbrev part : ℕ → ℕ → List ℕ
  part n k = take n (drop k u)

  part-length : (n k : ℕ) → n + k ≤ 16 → length (part n k) ≡ n
  part-length n k h = omega (arith, h, sixteen, length-take n (drop k u), length-drop k u)

  part-AreBytes : (n k : ℕ) → AreBytes (part n k)
  part-AreBytes n k = All-take _ n (drop k u) (All-drop _ k u bytes)

  -- A part in front of all that is behind it.
  onward : (n k : ℕ) → part n k ++ drop (k + n) u ≡ drop k u
  onward n k = ap (λ xs. part n k ++ xs) (drop_add k n u) ∙ take-drop n (drop k u)

  last : part 6 10 ≡ drop 10 u
  last = take_all 6 (drop 10 u) (omega (arith, sixteen, length-drop 10 u))

  whole : part 4 0 ++ (part 2 4 ++ (part 2 6 ++ (part 2 8 ++ part 6 10))) ≡ u
  whole =
      ap (λ xs. part 4 0 ++ (part 2 4 ++ (part 2 6 ++ (part 2 8 ++ xs)))) last
      ∙ (ap (λ xs. part 4 0 ++ (part 2 4 ++ (part 2 6 ++ xs))) (onward 2 8)
          ∙ (ap (λ xs. part 4 0 ++ (part 2 4 ++ xs)) (onward 2 6)
              ∙ (ap (λ xs. part 4 0 ++ xs) (onward 2 4) ∙ onward 4 0)))

  read_text : read_uuid (uuid_text u) ≡ some u
  unfolding uuid_text
  read_text =
      hyphenated 4 2 (part 4 0) _ _ _ (part-length 4 0 (omega arith)) (part-AreBytes 4 0) (
        hyphenated 2 2 (part 2 4) _ _ _ (part-length 2 4 (omega arith)) (part-AreBytes 2 4) (
          hyphenated 2 2 (part 2 6) _ _ _ (part-length 2 6 (omega arith)) (part-AreBytes 2 6) (
            hyphenated 2 6 (part 2 8) _ _ _ (part-length 2 8 (omega arith)) (part-AreBytes 2 8) (
              ap (λ n. read_groups (n ∷ []) (hex_all (part 6 10)))
                (sym (part-length 6 10 (omega arith)))
              ∙ read_last (part 6 10) (part-AreBytes 6 10)))))
      ∙ ap some whole

-- The UUID that the firmware hands out as text can be read back: a buffer with room for 37 bytes is given the text
-- and a NUL behind it, and one who reads the text by the format of UUIDs gets the sixteen stored bytes.
pub get_uuid_str-reads :
    (nvs : Nvs) (buf_len : ℕ)
    → 37 ≤ buf_len
    → length nvs.uuid ≡ 16
    → AreBytes nvs.uuid
    → (text : List ℕ) × (get_uuid_str nvs buf_len ≡ ok (text ++ (0 ∷ [])))
      × (length text ≡ 36)
      × (read_uuid text ≡ some nvs.uuid)
unfolding get_uuid_str
get_uuid_str-reads nvs buf_len room sixteen bytes = (
  uuid_text nvs.uuid,
  rw (no_refusal buf_len room) (
      ap ok (
        snprintk_lem buf_len (uuid_text nvs.uuid)
          (omega (arith, room, length-uuid_text nvs.uuid sixteen)))),
  length-uuid_text nvs.uuid sixteen,
  read_text nvs.uuid sixteen bytes,
)
  where
    no_refusal : (n : ℕ) → 37 ≤ n → ltb n 37 ≡ false
    no_refusal n h = ground arith
