-- ===== src/Murl/Authority.antt =====
-- crates/murl-core/src/murl.rs: `parse_authority` and the `Display` of `Authority`.
pub mod Valid
pub mod RoundTrip
use m_url.Base.{
  ℕ, Bool, true, false, not, ◌&&◌, ◌||◌, List, [], ◌∷◌, ◌++◌, Option, none, some, Result, ok, err,
  ◌>>=◌, ◌>>◌, refuse_if, ltb, ◌==◌, if◌then◌else◌, length, all,
}
use m_url.Base.Text.{
  Bytes, bytes_eq, contains, is_digit, is_lower, is_empty, lowercase, starts_with, ends_with, split,
  split_once,
}
use m_url.Base.Decimal.{show, digits_value}
use m_url.Murl.Types.{
  MurlParseError, missing_authority, userinfo_forbidden, ipv6_not_supported, invalid_authority,
  invalid_port, host_too_long, local_takes_no_port, bad_label, bad_label_bytes, label_edge_dash,
  Authority, local, remote, max_authority_len, local_authority,
}

abbrev pub is_label_byte : ℕ → Bool
is_label_byte b = is_lower b || is_digit b || b == b'-'

-- The text after the colon.
unfoldable pub parse_port : Bytes → Result MurlParseError ℕ
parse_port p = do
  refuse_if (is_empty p || ltb 5 (length p) || not (all is_digit p)) (invalid_port p)
  let port = digits_value 0 p
  refuse_if (port == 0 || ltb 65535 port) (invalid_port p)
  ok port

unfoldable pub split_port :
    Bytes → Option (Bytes × Bytes) → Result MurlParseError (Bytes × Option ℕ)
split_port raw none = ok (raw, none)
split_port raw (some (h, p)) = do port ← parse_port p; ok (h, some port)

-- One round of the loop over the labels of the host.
unfoldable pub check_label : Bytes → Result MurlParseError (Unit {0})
check_label label = do
  refuse_if (is_empty label || ltb 63 (length label)) (invalid_authority bad_label)
  refuse_if (not (all is_label_byte label)) (invalid_authority bad_label_bytes)
  refuse_if (starts_with b'-' label || ends_with b'-' label) (invalid_authority label_edge_dash)

unfoldable pub check_labels : List Bytes → Result MurlParseError (Unit {0})
check_labels [] = ok tt
check_labels (l ∷ ls) = do check_label l; check_labels ls

unfoldable pub is_some_port : Option ℕ → Bool
is_some_port none = false
is_some_port (some p) = true

-- What follows once host and port are known.
unfoldable pub build_authority : Bytes → Option ℕ → Result MurlParseError Authority
build_authority host port = do
  refuse_if (ltb max_authority_len (length host)) (invalid_authority host_too_long)
  let reserved = do refuse_if (is_some_port port) (invalid_authority local_takes_no_port); ok local
  let named = do check_labels (split b'.' host); ok (remote host port)
  if bytes_eq host local_authority then reserved else named

unfoldable pub parse_authority : Bytes → Result MurlParseError Authority
parse_authority raw = do
  refuse_if (is_empty raw) missing_authority
  refuse_if (contains b'@' raw) userinfo_forbidden
  refuse_if (contains b'[' raw || contains b']' raw) ipv6_not_supported
  (host_raw, port) ← split_port raw (split_once b':' raw)
  build_authority (lowercase host_raw) port

unfoldable pub show_authority : Authority → Bytes
show_authority local = local_authority
show_authority (remote host none) = host
show_authority (remote host (some p)) = host ++ b':' ∷ show p
