-- ===== src/Canonical/Chars.antt =====
-- Strings and integers of the canonical form: where they end, and what they stand for.
use m_url.Base.{
  ℕ, suc, ◌+◌, ◌-◌, ◌*◌, ◌/◌, ◌%◌, ◌<◌, ◌≡◌, ◌≢◌, refl, sym, ◌∙◌, ap, Bool, true, not, [], ◌∷◌,
  ◌++◌, append_assoc, Option, none, some, ltb, ◌==◌, if◌then◌else◌, all, arith,
}
use m_url.Base.Int.{ℤ, pos, negsuc}
use m_url.Base.Text.{Bytes, is_digit}
use m_url.Base.Text.Cut.{Stops, Runs, cut}
use m_url.Base.Decimal.{show, digits_value}
use m_url.Base.Decimal.RoundTrip.{show-digits, show-nonempty, digits_value-show}
use m_url.Canonical.{lower_hex, write_char, write_chars, write_string, write_integer}

-- Reading one character of a string back.
abbrev unhex : ℕ → ℕ
unhex c = if ltb c b'a' then c - b'0' else c - b'a' + 10

abbrev plain : ℕ → ℕ
plain e =
    if e == b'b'
    then 0x08
    else if e == b'f'
    then 0x0c
    else if e == b'n'
    then 0x0a
    else if e == b'r'
    then 0x0d
    else if e == b't'
    then 0x09
    else e

abbrev read_hex : Bytes → Option (ℕ × Bytes)
read_hex (z ∷ z' ∷ h ∷ l ∷ s) = some (unhex h * 16 + unhex l, s)
read_hex _ = none

abbrev read_escape : Bytes → Option (ℕ × Bytes)
read_escape [] = none
read_escape (e ∷ s) = if e == b'u' then read_hex s else some (plain e, s)

abbrev read_char : Bytes → Option (ℕ × Bytes)
read_char [] = none
read_char (c ∷ s) = if c == b'\\' then read_escape s else some (c, s)

hex_value : (c : ℕ) → c < 0x20 → unhex (lower_hex (c / 16)) * 16 + unhex (lower_hex (c % 16)) ≡ c
hex_value c h = ground arith

read_char-write_char : (c : ℕ) (s : Bytes) → read_char (write_char c ++ s) ≡ some (c, s)
unfolding write_char
read_char-write_char c s = ground (arith, hex_value c)

write_char-quote : (c : ℕ) (s t : Bytes) → write_char c ++ s ≢ b'"' ∷ t
unfolding write_char
write_char-quote c s t h = ground arith

write_chars_unique :
    (s t x y : Bytes) → write_chars s ++ b'"' ∷ x ≡ write_chars t ++ b'"' ∷ y → (s ≡ t) × (x ≡ y)
unfolding write_chars
write_chars_unique [] [] x y h = (refl, cc)
write_chars_unique [] (d ∷ t) x y h = absurd (
    write_char-quote d (write_chars t ++ b'"' ∷ y) x
      (sym (h ∙ append_assoc (write_char d) (write_chars t) (b'"' ∷ y))))
write_chars_unique (c ∷ s) [] x y h = absurd (
    write_char-quote c (write_chars s ++ b'"' ∷ x) y
      (sym (append_assoc (write_char c) (write_chars s) (b'"' ∷ x)) ∙ h))
write_chars_unique (c ∷ s) (d ∷ t) x y h =
    let p = write_chars s ++ b'"' ∷ x in
    let q = write_chars t ++ b'"' ∷ y in
    let whole : write_char c ++ p ≡ write_char d ++ q =
      sym (append_assoc (write_char c) (write_chars s) (b'"' ∷ x))
      ∙ (h ∙ append_assoc (write_char d) (write_chars t) (b'"' ∷ y)) in
    let same : ◌≡◌ {A = Option (ℕ × Bytes)} (some (c, p)) (some (d, q)) =
      sym (read_char-write_char c p) ∙ (ap read_char whole ∙ read_char-write_char d q) in
    let head : c ≡ d = cc in
    let tail : p ≡ q = cc in
    let (e, ex) = write_chars_unique s t x y tail in (rw head (rw e refl), ex)

-- A string tells where it ends, and what it stands for.
pub write_string_unique :
    (s t x y : Bytes) → write_string s ++ x ≡ write_string t ++ y → (s ≡ t) × (x ≡ y)
unfolding write_string
write_string_unique s t x y h =
    let inside : write_chars s ++ b'"' ∷ x ≡ write_chars t ++ b'"' ∷ y =
      sym (append_assoc (write_chars s) (b'"' ∷ []) x)
      ∙ (strip h ∙ append_assoc (write_chars t) (b'"' ∷ []) y) in
    write_chars_unique s t x y inside
  where
    strip : {a b : Bytes} → b'"' ∷ a ≡ b'"' ∷ b → a ≡ b
    strip e = cc

-- What may follow an integer.
abbrev pub is_stop : ℕ → Bool
is_stop c = not (is_digit c)

show-Runs : (n : ℕ) → Runs is_stop (show n)
show-Runs n = All-of (show n) (show-digits n)
  where
    All-of : (s : Bytes) → all is_digit s ≡ true → Runs is_stop s
    All-of [] h = tt
    All-of (c ∷ s) h = (ground arith, All-of s (ground arith))

show_unique :
    (m n : ℕ) (x y : Bytes)
    → Stops is_stop x
    → Stops is_stop y
    → show m ++ x ≡ show n ++ y
    → (m ≡ n) × (x ≡ y)
show_unique m n x y hx hy h =
    let (e, ex) = cut is_stop (show m) (show n) x y (show-Runs m) (show-Runs n) hx hy h in
    (sym (digits_value-show m) ∙ (ap (digits_value 0) e ∙ digits_value-show n), ex)

-- The first byte of a number is a digit.
pub show-head : (n : ℕ) → (c : ℕ) × (s : Bytes) × (show n ≡ c ∷ s) × (is_digit c ≡ true)
show-head n = go (show n) refl
  where
    go : (t : Bytes) → show n ≡ t → (c : ℕ) × (s : Bytes) × (show n ≡ c ∷ s) × (is_digit c ≡ true)
    go [] e = absurd (let nonempty = rw e at (show-nonempty n) in cc)
    go (c ∷ s) e = (
      c,
      s,
      e,
      (let digits : all is_digit (c ∷ s) ≡ true = rw e at (show-digits n) in ground arith),
    )

show-minus : (n : ℕ) (x y : Bytes) → show n ++ x ≢ b'-' ∷ y
show-minus n x y h =
    let (c, s, e, digit) = show-head n in
    let h' : c ∷ (s ++ x) ≡ b'-' ∷ y = rw e at h in let minus : c ≡ b'-' = cc in ground arith

-- An integer tells where it ends, when no digit follows it.
pub write_integer_unique :
    (m n : ℤ) (x y : Bytes)
    → Stops is_stop x
    → Stops is_stop y
    → write_integer m ++ x ≡ write_integer n ++ y
    → (m ≡ n) × (x ≡ y)
unfolding write_integer
write_integer_unique (pos m) (pos n) x y hx hy h =
    let (e, ex) = show_unique m n x y hx hy h in (rw e refl, ex)
write_integer_unique (pos m) (negsuc n) x y hx hy h = absurd (show-minus m x _ h)
write_integer_unique (negsuc m) (pos n) x y hx hy h = absurd (show-minus n y _ (sym h))
write_integer_unique (negsuc m) (negsuc n) x y hx hy h =
    let (e, ex) = show_unique (suc m) (suc n) x y hx hy cc in
    let same : m ≡ n = omega arith in (rw same refl, ex)
