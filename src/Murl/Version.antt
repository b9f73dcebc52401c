-- ===== src/Murl/Version.antt =====
-- crates/murl-core/src/murl.rs: `VersionTag::parse` and its `Display`.
pub mod RoundTrip
use m_url.Base.{
  ℕ, Bool, true, false, not, ◌&&◌, ◌||◌, List, [], ◌∷◌, map, Result, ok, err, ◌>>=◌, ◌>>◌,
  refuse_if, ltb, if◌then◌else◌, length, all,
}
use m_url.Base.Text.{Bytes, codes, bytes_eq, is_digit, is_empty, starts_with, split, join}
use m_url.Base.Decimal.{show, digits_value}
use m_url.Murl.Types.{
  MurlParseError, invalid_version, empty_version, too_many_components, bad_component, leading_zero,
  VersionTag, latest, pinned,
}

-- One round of the loop over the dotted components.
unfoldable pub parse_component : Bytes → Result MurlParseError ℕ
parse_component p = do
  refuse_if (is_empty p || ltb 5 (length p) || not (all is_digit p)) (invalid_version bad_component)
  refuse_if (ltb 1 (length p) && starts_with b'0' p) (invalid_version leading_zero)
  ok (digits_value 0 p)

unfoldable pub parse_components : List Bytes → Result MurlParseError (List ℕ)
parse_components [] = ok []
parse_components (p ∷ ps) = do n ← parse_component p; ns ← parse_components ps; ok (n ∷ ns)

unfoldable pub parse_version : Bytes → Result MurlParseError VersionTag
parse_version s = if bytes_eq s (codes "latest") then ok latest else do
  refuse_if (is_empty s) (invalid_version empty_version)
  let parts = split b'.' s
  refuse_if (ltb 3 (length parts)) (invalid_version too_many_components)
  nums ← parse_components parts
  ok (pinned nums)

unfoldable pub is_latest : VersionTag → Bool
is_latest latest = true
is_latest (pinned v) = false

unfoldable pub show_version : VersionTag → Bytes
show_version latest = codes "latest"
show_version (pinned v) = join (codes ".") (map show v)
