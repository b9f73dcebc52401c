-- ===== src/Manifest/Target/Hosts.antt =====
-- crates/murl-core/src/manifest.rs: targets of remote sessions.
use m_url.Base.{
  ℕ, Bool, not, ◌&&◌, ◌||◌, Option, none, some, ok, ◌>>=◌, ◌>>◌, refuse_if, ok_or, ltb, leb, ◌==◌,
  length, all,
}
use m_url.Base.Text.{
  Bytes, codes, is_digit, is_alphanumeric, contains, is_empty, strip_prefix, starts_with,
  split_once, rsplit_once, first_piece,
}
use m_url.Base.Decimal.{digits_value}
use m_url.Manifest.Target.Types.{
  bad_scheme, empty_host, two_ats, user_length, user_bytes, user_dash, userinfo, bad_port,
  host_length, host_dash, host_bytes, Checked, is_host_byte,
}

abbrev pub is_user_byte : ℕ → Bool
is_user_byte b = is_alphanumeric b || (b == b'.' || b == b'_' || b == b'-')

unfoldable pub is_valid_port : Bytes → Bool
is_valid_port port =
    not (is_empty port)
    && leb (length port) 5
    && all is_digit port
    && leb 1 (digits_value 0 port)
    && leb (digits_value 0 port) 65535

unfoldable pub check_port : Option (Bytes × Bytes) → Checked
check_port none = ok tt
check_port (some (host, port)) = refuse_if (not (is_valid_port port)) bad_port

abbrev pub host_of : Bytes → Option (Bytes × Bytes) → Bytes
host_of hostport none = hostport
host_of hostport (some (host, port)) = host

unfoldable pub validate_hostport : Bytes → Checked
validate_hostport hostport = do
  refuse_if (is_empty hostport) empty_host
  check_port (rsplit_once b':' hostport)
  let host = host_of hostport (rsplit_once b':' hostport)
  refuse_if (is_empty host || ltb 253 (length host)) host_length
  refuse_if (starts_with b'-' host) host_dash
  refuse_if (not (all is_host_byte host)) host_bytes

abbrev pub ends_authority : ℕ → Bool
ends_authority c = c == b'/' || c == b'?' || c == b'#'

unfoldable pub check_user : Bytes → Checked
check_user user = do
  refuse_if (is_empty user || ltb 64 (length user)) user_length
  refuse_if (not (all is_user_byte user)) user_bytes
  refuse_if (starts_with b'-' user) user_dash

unfoldable pub check_ssh_authority : Bytes → Option (Bytes × Bytes) → Checked
check_ssh_authority authority none = validate_hostport authority
check_ssh_authority authority (some (user, host)) = do
  refuse_if (contains b'@' host) two_ats
  check_user user
  validate_hostport host

unfoldable pub validate_ssh_target : Bytes → Checked
validate_ssh_target target = do
  rest ← ok_or (strip_prefix (codes "ssh://") target) bad_scheme
  let authority = first_piece ends_authority rest
  refuse_if (is_empty authority) empty_host
  check_ssh_authority authority (split_once b'@' authority)

abbrev pub or_else : Option Bytes → Option Bytes → Option Bytes
or_else none second = second
or_else (some a) second = some a

unfoldable pub validate_remote_desktop_target : Bytes → Checked
validate_remote_desktop_target target = do
  rest ←
      ok_or (or_else (strip_prefix (codes "rdp://") target) (strip_prefix (codes "vnc://") target))
        bad_scheme
  let authority = first_piece ends_authority rest
  refuse_if (contains b'@' authority) userinfo
  validate_hostport authority
