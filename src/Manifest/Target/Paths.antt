-- ===== src/Manifest/Target/Paths.antt =====
-- crates/murl-core/src/manifest.rs: `https`, path and custom targets.
use m_url.Base.{
  ℕ, Bool, true, false, not, ◌&&◌, ◌||◌, List, [], ◌∷◌, Option, none, some, Result, ok, err, ◌>>=◌,
  ◌>>◌, refuse_if, ◌==◌, if◌then◌else◌, any, drop,
}
use m_url.Base.Text.{
  Bytes, codes, bytes_eq, is_alphabetic, lowercase, contains, is_empty, strip_prefix, starts_with,
  ends_with_text, split_by, first_piece,
}
use m_url.Manifest.Target.Hosts.{ends_authority}
use m_url.Manifest.Target.Types.{
  TargetFault, bad_scheme, empty_host, userinfo, has_space, plain_http, network_path,
  empty_segments, drive_letter, relative_path, dot_segments, option_like, Checked,
}

-- `is_separator`
abbrev pub is_path_sep : ℕ → Bool
is_path_sep c = c == b'/' || c == b'\\'

unfoldable pub is_network_path : Bytes → Bool
is_network_path (a ∷ b ∷ rest) = is_path_sep a && is_path_sep b
is_network_path _ = false

unfoldable pub starts_with_drive : Bytes → Bool
starts_with_drive (a ∷ b ∷ rest) = is_alphabetic a && b == b':'
starts_with_drive _ = false

unfoldable pub is_loopback_host : Bytes → Bool
is_loopback_host host =
    bytes_eq host (codes "localhost")
    || bytes_eq host (codes "127.0.0.1")
    || ends_with_text (codes ".localhost") host

-- What follows the scheme of a web target.
unfoldable pub check_web : Bytes → Bytes → Bool → Checked
check_web target rest plain = do
  let authority = first_piece ends_authority rest
  refuse_if (is_empty authority) empty_host
  refuse_if (contains b'@' authority) userinfo
  let host = lowercase (first_piece (λ c. c == b':') authority)
  refuse_if (is_empty host) empty_host
  refuse_if (contains b' ' target) has_space
  refuse_if (plain && not (is_loopback_host host)) plain_http

-- The `if let` over the two schemes.
unfoldable pub check_web_scheme : Bytes → Option Bytes → Option Bytes → Checked
check_web_scheme target (some rest) plain = check_web target rest false
check_web_scheme target none (some rest) = check_web target rest true
check_web_scheme target none none = err bad_scheme

unfoldable pub validate_web_target : Bytes → Checked
validate_web_target target =
    check_web_scheme target (strip_prefix (codes "https://") target)
      (strip_prefix (codes "http://") target)

-- `rest.strip_suffix(is_separator).unwrap_or(rest)`
unfoldable pub drop_last_separator : Bytes → Bytes
drop_last_separator [] = []
drop_last_separator (c ∷ []) = if is_path_sep c then [] else c ∷ []
drop_last_separator (c ∷ d ∷ s) = c ∷ drop_last_separator (d ∷ s)

-- The checks of a target that starts with `~/`, on a rest that is not empty.
unfoldable pub check_home_segments : Option Bytes → Checked
check_home_segments none = ok tt
check_home_segments (some []) = ok tt
check_home_segments (some (c ∷ rest)) = do
  let segments = split_by is_path_sep (drop_last_separator (c ∷ rest))
  refuse_if (any is_empty segments) empty_segments
  refuse_if (any starts_with_drive segments) drive_letter

abbrev pub is_dots : Bytes → Bool
is_dots segment = bytes_eq segment (codes "..") || bytes_eq segment (codes ".")

unfoldable pub check_dots : List Bytes → Checked
check_dots [] = ok tt
check_dots (segment ∷ segments) = do refuse_if (is_dots segment) dot_segments; check_dots segments

abbrev pub is_windows_absolute : Bytes → Bool
is_windows_absolute (a ∷ b ∷ c ∷ rest) = is_alphabetic a && b == b':' && is_path_sep c
is_windows_absolute _ = false

-- What the dot segments are looked for in, from the two prefixes.
unfoldable pub path_body : Bytes → Option Bytes → Option Bytes → Result TargetFault Bytes
path_body target (some rest) absolute = ok rest
path_body target none (some rest) = ok rest
path_body target none none = do
  refuse_if (not (is_windows_absolute target)) relative_path
  ok (drop 3 target)

unfoldable pub check_body : Bytes → Checked
check_body target = if bytes_eq target (codes "~") then ok tt else do
  body ← path_body target (strip_prefix (codes "~/") target) (strip_prefix (codes "/") target)
  check_dots (split_by is_path_sep body)

unfoldable pub validate_path_target : Bytes → Checked
validate_path_target target = do
  refuse_if (is_network_path target) network_path
  check_home_segments (strip_prefix (codes "~/") target)
  check_body target

unfoldable pub validate_custom_target : Bytes → Checked
validate_custom_target target = do
  refuse_if (starts_with b'-' target) option_like
  refuse_if (is_network_path target) network_path
