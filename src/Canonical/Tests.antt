-- ===== src/Canonical/Tests.antt =====
-- Canonical forms, and their properties there.
use m_url.Base.Text.{
  bytes_eq, lowercase, contains, strip_prefix, starts_with, ends_with, ends_with_text, split_once,
  rsplit_once, split_by, split, first_piece, last_piece, join,
}
use m_url.Base.Decimal.{show_from, show, digits_value}
use m_url.Canonical.{
  write_char, write_chars, write_string, write_integer, write_value, write_items, write_members,
  canonical_json_bytes,
}
use m_url.Base.{◌≡◌, refl, false, [], ◌∷◌, ok, err}
use m_url.Base.Int.{pos, negsuc}
use m_url.Base.Text.{codes}
use m_url.Manifest.Json.{
  Value, null, bool, integer, fraction, string, array, object, nil, cons, end, member,
}
use m_url.Canonical.{non_integer_number}
use m_url.Canonical.Unique.{canonical_json_bytes-injective}

program : Unit {0}
unfolding bytes_eq lowercase contains strip_prefix starts_with ends_with ends_with_text split_once
    rsplit_once split_by split first_piece last_piece join show_from show digits_value write_char
    write_chars write_string write_integer write_value write_items write_members
    canonical_json_bytes
program = tt

abbrev document : Value
document = object (
    member (codes "a")
      (array (cons (integer (pos 10)) (cons (integer (negsuc 0)) (cons (bool false) nil))))
      (member (codes "b") (string (b'x' ∷ b'"' ∷ 0x0a ∷ 0x01 ∷ [])) (member (codes "c") null end)))

document_bytes :
    canonical_json_bytes document
    ≡ ok (codes "{\"a\":[10,-1,false],\"b\":\"x\\\"\\n\\u0001\",\"c\":null}")
unfolding program
document_bytes = refl

fraction_refused :
    canonical_json_bytes (array (cons (fraction (codes "1.5")) nil))
    ≡ err (non_integer_number (codes "1.5"))
unfolding program
fraction_refused = refl

canonical_json_bytes-injective_example : document ≡ document
canonical_json_bytes-injective_example =
    canonical_json_bytes-injective document document
      (codes "{\"a\":[10,-1,false],\"b\":\"x\\\"\\n\\u0001\",\"c\":null}") document_bytes
      document_bytes
