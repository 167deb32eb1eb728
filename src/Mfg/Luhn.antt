-- ===== src/Mfg/Luhn.antt =====
-- The check character of a serial number (scripts/mfg/gen_manufacturing_data_hex.py), and what
-- docs/non_volatile_data.md says of it.
use riceprobe.Base.{
  ℕ, ◌+◌, ◌-◌, ◌%◌, ◌<◌, ◌≡◌, ◌≢◌, refl, sym, ap, ◌∙◌, arith, ◌⊎◌, inl, inr, Option, none, some,
  List, [], ◌∷◌, ◌++◌, ◌==◌, Bool-cases,
}
use mathlib.Core.Path.{ap₂}
use riceprobe.Mfg.{
  char_to_code, code_to_char, addend, next_factor, add_code, luhn_loop, check_of, luhn_check_gen,
}

-- A character with this code.
code_below : (c a : ℕ) → char_to_code c ≡ some a → a < 36
unfolding char_to_code
code_below c a h = ground arith

code_is_of_one : (c d a : ℕ) → char_to_code c ≡ some a → char_to_code d ≡ some a → c ≡ d
unfolding char_to_code
code_is_of_one c d a h k = ground arith

char_is_of_one : (a b x : ℕ) → code_to_char a ≡ some x → code_to_char b ≡ some x → a ≡ b
unfolding code_to_char
char_is_of_one a b x h k = ground arith

abbrev got : Option (ℕ × ℕ) → ℕ × ℕ
got none = (0, 0)
got (some p) = p

same_pair : {f s g u : ℕ} → ◌≡◌ {A = Option (ℕ × ℕ)} (some (f, s)) (some (g, u)) → (f ≡ g) × (s ≡ u)
same_pair h = (ap (λ o. (got o).0) h, ap (λ o. (got o).1) h)

pair_of : {f s g u : ℕ} → f ≡ g → s ≡ u → ◌≡◌ {A = Option (ℕ × ℕ)} (some (f, s)) (some (g, u))
pair_of p q = ap₂ (λ f s. some (f, s)) p q

-- What stands behind a step of the loop that went well.
record Step (code : Option ℕ) (rest : Option (ℕ × ℕ)) (factor sum : ℕ) : Type 0 where
  pub code_of : ℕ
  pub factor_of : ℕ
  pub sum_of : ℕ
  pub coded : code ≡ some code_of
  pub behind : rest ≡ some (factor_of, sum_of)
  pub factor_is : factor ≡ next_factor factor_of
  pub sum_is : sum ≡ sum_of + addend factor_of code_of

step :
    (code : Option ℕ) (rest : Option (ℕ × ℕ)) (factor sum : ℕ)
    → add_code code rest ≡ some (factor, sum)
    → Step code rest factor sum
unfolding add_code
step none rest factor sum h = ground arith
step (some a) none factor sum h = ground arith
step (some a) (some (f, s)) factor sum h = record {
  code_of = a;
  factor_of = f;
  sum_of = s;
  coded = refl;
  behind = refl;
  factor_is = sym (same_pair h).0;
  sum_is = sym (same_pair h).1;
}

factor_cases : (cs : List ℕ) (f s : ℕ) → luhn_loop cs ≡ some (f, s) → (f ≡ 1) ⊎ (f ≡ 2)
unfolding luhn_loop next_factor
factor_cases [] f s h = inr (sym (same_pair h).0)
factor_cases (c ∷ cs) f s h = elim (Bool-cases (st.factor_of == 2)) [
  | inl e ↦ inl (st.factor_is ∙ rw e refl)
  | inr e ↦ inr (st.factor_is ∙ rw e refl)
]
  where
    st : Step (char_to_code c) (luhn_loop cs) f s
    st = step (char_to_code c) (luhn_loop cs) f s h

-- Characters in front add the same to every sum behind them.
shifted :
    (xs zs zs' : List ℕ) (f s t g u : ℕ)
    → luhn_loop zs ≡ some (f, s)
    → luhn_loop zs' ≡ some (f, t)
    → luhn_loop (xs ++ zs) ≡ some (g, u)
    → (k : ℕ) × (u ≡ s + k) × (luhn_loop (xs ++ zs') ≡ some (g, t + k))
unfolding luhn_loop add_code
shifted [] zs zs' f s t g u h h' whole = (0, sym same.1 ∙ more s, h' ∙ pair_of same.0 (more t))
  where
    same : (f ≡ g) × (s ≡ u)
    same = same_pair (sym h ∙ whole)

    more : (n : ℕ) → n ≡ n + 0
    more n = omega arith
shifted (x ∷ xs) zs zs' f s t g u h h' whole =
    let st = step (char_to_code x) (luhn_loop (xs ++ zs)) g u whole in
    let (k, same, other) = shifted xs zs zs' f s t st.factor_of st.sum_of h h' st.behind in
    (
      k + addend st.factor_of st.code_of,
      st.sum_is ∙ omega (arith, same),
      ap₂ add_code st.coded other ∙ pair_of (sym st.factor_is) (omega arith),
    )

-- What stands behind a check character.
checked :
    (o : Option (ℕ × ℕ)) (x : ℕ)
    → check_of o ≡ some x
    → (f : ℕ) × (s : ℕ) × (o ≡ some (f, s)) × (code_to_char ((36 - s % 36) % 36) ≡ some x)
unfolding check_of
checked none x h = ground arith
checked (some (f, s)) x h = (f, s, refl, h)

-- A loop that went well went well behind.
behind :
    (xs zs : List ℕ) (g u : ℕ)
    → luhn_loop (xs ++ zs) ≡ some (g, u)
    → (f : ℕ) × (s : ℕ) × (luhn_loop zs ≡ some (f, s))
unfolding luhn_loop
behind [] zs g u h = (g, u, h)
behind (x ∷ xs) zs g u h = behind xs zs st.factor_of st.sum_of st.behind
  where
    st : Step (char_to_code x) (luhn_loop (xs ++ zs)) g u
    st = step (char_to_code x) (luhn_loop (xs ++ zs)) g u h

-- The remainder tells the addends apart.
told_apart :
    (f a b s k : ℕ)
    → (f ≡ 1) ⊎ (f ≡ 2)
    → a < 36
    → b < 36
    → (36 - (s + addend f a + k) % 36) % 36 ≡ (36 - (s + addend f b + k) % 36) % 36
    → a ≡ b
unfolding addend
told_apart f a b s k (inl e) small small' same = omega (arith, small, small', rw e at same)
told_apart f a b s k (inr e) small small' same = omega (arith, small, small', rw e at same)

same_check :
    (xs ys : List ℕ) (c d check : ℕ)
    → luhn_check_gen (xs ++ (c ∷ ys)) ≡ some check
    → luhn_check_gen (xs ++ (d ∷ ys)) ≡ some check
    → c ≡ d
unfolding luhn_check_gen luhn_loop add_code
same_check xs ys c d check first second =
    let (g, u, whole, char) = checked (luhn_loop (xs ++ (c ∷ ys))) check first in
    let (g', u', whole', char') = checked (luhn_loop (xs ++ (d ∷ ys))) check second in
    let (f, s, part) = behind xs (c ∷ ys) g u whole in
    let (f', s', part') = behind xs (d ∷ ys) g' u' whole' in
    let st = step (char_to_code c) (luhn_loop ys) f s part in
    let st' = step (char_to_code d) (luhn_loop ys) f' s' part' in
    let (k, sum, other) =
      shifted xs (c ∷ ys) (d ∷ ys) (next_factor st.factor_of)
        (st.sum_of + addend st.factor_of st.code_of) (st.sum_of + addend st.factor_of st'.code_of) g
        u (ap₂ add_code st.coded st.behind) (ap₂ add_code st'.coded st.behind) whole in
    let left_out = λ (n : ℕ). (36 - n % 36) % 36 in
    let codes =
      told_apart st.factor_of st.code_of st'.code_of st.sum_of k
        (factor_cases ys st.factor_of st.sum_of st.behind) (code_below c st.code_of st.coded)
        (code_below d st'.code_of st'.coded)
        (ap left_out (sym sum)
          ∙ (char_is_of_one (left_out u) (left_out u') check char char'
              ∙ ap left_out (sym (same_pair (sym other ∙ whole')).1))) in
    code_is_of_one c d st'.code_of (st.coded ∙ ap some codes) st'.coded

-- A serial number with one wrong character has another check character: two strings that differ in one place, and
-- that both get a check character, get different ones, so a character that is mistaken for another one, whichever
-- it is, shows.
pub single_error-shows :
    (xs ys : List ℕ) (c d check check' : ℕ)
    → c ≢ d
    → luhn_check_gen (xs ++ (c ∷ ys)) ≡ some check
    → luhn_check_gen (xs ++ (d ∷ ys)) ≡ some check'
    → check ≢ check'
single_error-shows xs ys c d check check' differ first second same =
    differ (same_check xs ys c d check' (first ∙ ap some same) second)

same_in_front :
    (xs zs zs' : List ℕ)
    → luhn_loop zs ≡ luhn_loop zs'
    → luhn_loop (xs ++ zs) ≡ luhn_loop (xs ++ zs')
unfolding luhn_loop
same_in_front [] zs zs' h = h
same_in_front (x ∷ xs) zs zs' h = ap (add_code (char_to_code x)) (same_in_front xs zs zs' h)

zeros :
    (f s : ℕ)
    → (f ≡ 1) ⊎ (f ≡ 2)
    → add_code (char_to_code 48) (add_code (char_to_code 48) (some (f, s))) ≡ some (f, s)
unfolding add_code char_to_code
zeros f s (inl e) = rw e (pair_of refl (omega arith))
zeros f s (inr e) = rw e (pair_of refl (omega arith))

-- Two zeros anywhere in a string that gets a check character leave it as it is, which the documents of the serial
-- number rely on: the running number can be padded with zeros, two at a time.
pub padding-keeps :
    (xs ys : List ℕ) (check : ℕ)
    → luhn_check_gen (xs ++ ys) ≡ some check
    → luhn_check_gen (xs ++ (48 ∷ 48 ∷ ys)) ≡ some check
unfolding luhn_check_gen luhn_loop
padding-keeps xs ys check h =
    let (g, u, whole, char) = checked (luhn_loop (xs ++ ys)) check h in
    let (f, s, part) = behind xs ys g u whole in
    ap check_of
      (same_in_front xs (48 ∷ 48 ∷ ys) ys (rw part (zeros f s (factor_cases ys f s part))))
    ∙ h
