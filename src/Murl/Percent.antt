-- ===== src/Murl/Percent.antt =====
-- crates/murl-core/src/murl.rs: `percent_decode`, `encode_segment`, `hex_val` and `decode_segment`.
pub mod RoundTrip
pub mod Segments
use m_url.Base.{
  ℕ, ◌+◌, ◌-◌, ◌*◌, ◌/◌, ◌%◌, Bool, true, false, ◌&&◌, ◌||◌, List, [], ◌∷◌, ◌++◌, Option, none,
  some, Result, ok, err, ◌>>=◌, ◌>>◌, refuse_if, ok_or, ltb, leb, ◌==◌, if◌then◌else◌, length, any,
}
use m_url.Base.Text.{Bytes, codes, bytes_eq, is_digit, is_alphanumeric, is_empty}
use m_url.Murl.Types.{
  MurlParseError, empty_segment, segment_too_long, invalid_segment, invalid_percent_encoding,
  not_utf8, control_character, path_separator, dot_segment, truncated_escape, bad_hex_digits,
  max_segment_bytes,
}
use m_url.Murl.Utf8.{chars, is_control}

unfoldable pub hex_val : ℕ → Option ℕ
hex_val b =
    if leb b'0' b && leb b b'9'
    then some (b - b'0')
    else if leb b'a' b && leb b b'f'
    then some (b - b'a' + 10)
    else if leb b'A' b && leb b b'F'
    then some (b - b'A' + 10)
    else none

abbrev pub push : ℕ → Result MurlParseError Bytes → Result MurlParseError Bytes
push b rest = rest >>= λ out. ok (b ∷ out)

-- `(h << 4) | l` of two values below 16 is their sum with weights.
unfoldable pub push_escape :
    Option ℕ → Option ℕ → Result MurlParseError Bytes → Result MurlParseError Bytes
push_escape none l rest = err (invalid_percent_encoding bad_hex_digits)
push_escape (some h) none rest = err (invalid_percent_encoding bad_hex_digits)
push_escape (some h) (some l) rest = push (h * 16 + l) rest

-- The `while i < raw.len()` loop, on the bytes from `i` on. A loop that fails later fails here with
-- the first error, as `push` passes the error of the rest on.
unfoldable pub percent_decode : Bytes → Result MurlParseError Bytes
percent_decode [] = ok []
percent_decode (b ∷ []) =
    if b == b'%' then err (invalid_percent_encoding truncated_escape) else ok (b ∷ [])
percent_decode (b ∷ c ∷ []) =
    let rest = push b (percent_decode (c ∷ [])) in
    if b == b'%' then err (invalid_percent_encoding truncated_escape) else rest
percent_decode (b ∷ c ∷ d ∷ s) =
    let escaped = push_escape (hex_val c) (hex_val d) (percent_decode s) in
    let plain = push b (percent_decode (c ∷ d ∷ s)) in if b == b'%' then escaped else plain

-- `char::from_digit(n, 16)` in upper case
abbrev pub hex_digit : ℕ → ℕ
hex_digit n = if ltb n 10 then b'0' + n else b'A' + (n - 10)

abbrev pub is_unreserved : ℕ → Bool
is_unreserved b = is_alphanumeric b || b == b'-' || b == b'.' || b == b'_' || b == b'~'

-- What one round of the loop of `encode_segment` appends.
unfoldable pub encode_byte : ℕ → Bytes
encode_byte b =
    if is_unreserved b then b ∷ [] else b'%' ∷ hex_digit (b / 16) ∷ hex_digit (b % 16) ∷ []

unfoldable pub encode_segment : Bytes → Bytes
encode_segment [] = []
encode_segment (b ∷ s) = encode_byte b ++ encode_segment s

abbrev pub is_separator : ℕ → Bool
is_separator c = c == b'/' || c == b'\\'

-- The loop over `s.chars()`: the first offending character decides.
unfoldable pub check_chars : List ℕ → Result MurlParseError (Unit {0})
check_chars [] = ok tt
check_chars (c ∷ cs) = do
  refuse_if (is_control c) (invalid_segment control_character)
  refuse_if (is_separator c) (invalid_segment path_separator)
  check_chars cs

-- `decode_segment` after the decoding of the escapes.
unfoldable pub check_segment : Bytes → Result MurlParseError Bytes
check_segment bytes = do
  refuse_if (ltb max_segment_bytes (length bytes)) segment_too_long
  cs ← ok_or (chars bytes) (invalid_segment not_utf8)
  check_chars cs
  refuse_if (bytes_eq bytes (codes ".") || bytes_eq bytes (codes ".."))
      (invalid_segment dot_segment)
  ok bytes

unfoldable pub decode_segment : Bytes → Result MurlParseError Bytes
decode_segment raw = do
  refuse_if (is_empty raw) empty_segment
  bytes ← percent_decode raw
  check_segment bytes
