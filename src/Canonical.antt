-- ===== src/Canonical.antt =====
-- crates/murl-core/src/canonical.rs: the canonical bytes of a JSON document. A character above 0x7f
-- consists of bytes above 0x7f, which are emitted as they are, so the loop runs over bytes.
pub mod Chars
pub mod Shapes
pub mod Unique
mod Tests
use m_url.Base.{
  ℕ, suc, ◌+◌, ◌-◌, ◌/◌, ◌%◌, Bool, true, false, List, [], ◌∷◌, ◌++◌, Result, ok, err, ◌>>=◌, ltb,
  ◌==◌, if◌then◌else◌,
}
use m_url.Base.Int.{ℤ, pos, negsuc}
use m_url.Base.Text.{Bytes, codes}
use m_url.Base.Decimal.{show}
use m_url.Manifest.Json.{
  Value, null, bool, integer, fraction, string, array, object, Items, nil, cons, Members, end,
  member,
}

-- The number's text.
pub data CanonicalError : Type 0 where
  non_integer_number : Bytes → CanonicalError

abbrev pub lower_hex : ℕ → ℕ
lower_hex n = if ltb n 10 then b'0' + n else b'a' + (n - 10)

-- One round of the loop of `write_string`.
unfoldable pub write_char : ℕ → Bytes
write_char c =
    if c == b'"'
    then b'\\' ∷ b'"' ∷ []
    else if c == b'\\'
    then b'\\' ∷ b'\\' ∷ []
    else if c == 0x08
    then b'\\' ∷ b'b' ∷ []
    else if c == 0x0c
    then b'\\' ∷ b'f' ∷ []
    else if c == 0x0a
    then b'\\' ∷ b'n' ∷ []
    else if c == 0x0d
    then b'\\' ∷ b'r' ∷ []
    else if c == 0x09
    then b'\\' ∷ b't' ∷ []
    else if ltb c 0x20
    then b'\\' ∷ b'u' ∷ b'0' ∷ b'0' ∷ lower_hex (c / 16) ∷ lower_hex (c % 16) ∷ []
    else c ∷ []

unfoldable pub write_chars : Bytes → Bytes
write_chars [] = []
write_chars (c ∷ s) = write_char c ++ write_chars s

unfoldable pub write_string : Bytes → Bytes
write_string s = b'"' ∷ (write_chars s ++ b'"' ∷ [])

unfoldable pub write_integer : ℤ → Bytes
write_integer (pos n) = show n
write_integer (negsuc n) = b'-' ∷ show (suc n)

-- `if i > 0 { out.push(','); }`
abbrev pub separator : Bool → Bytes
separator true = []
separator false = b',' ∷ []

-- The items and members from some position on; the flag tells whether it is the first.
unfoldable mutual
  pub write_value : Value → Result CanonicalError Bytes
  write_value null = ok (codes "null")
  write_value (bool true) = ok (codes "true")
  write_value (bool false) = ok (codes "false")
  write_value (integer n) = ok (write_integer n)
  write_value (fraction text) = err (non_integer_number text)
  write_value (string s) = ok (write_string s)
  write_value (array items) = do body ← write_items true items; ok (b'[' ∷ (body ++ b']' ∷ []))
  write_value (object map) = do body ← write_members true map; ok (b'{' ∷ (body ++ b'}' ∷ []))

  pub write_items : Bool → Items → Result CanonicalError Bytes
  write_items first nil = ok []
  write_items first (cons v items) = do
    here ← write_value v
    rest ← write_items false items
    ok (separator first ++ (here ++ rest))

  pub write_members : Bool → Members → Result CanonicalError Bytes
  write_members first end = ok []
  write_members first (member k v map) = do
    here ← write_value v
    rest ← write_members false map
    ok (separator first ++ (write_string k ++ (b':' ∷ (here ++ rest))))

unfoldable pub canonical_json_bytes : Value → Result CanonicalError Bytes
canonical_json_bytes value = write_value value
