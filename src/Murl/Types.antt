-- ===== src/Murl/Types.antt =====
-- crates/murl-core/src/murl.rs: the data of a mURL, its limits and its parse errors. Where the source
-- puts a message text into an error, the model names the reason by a constructor.
use m_url.Base.{ℕ, List, Option, Bool, true, false, ◌||◌}
use m_url.Base.Text.{Bytes, codes, bytes_eq, ends_with_text}

abbrev pub max_murl_len : ℕ
max_murl_len = 1024

abbrev pub max_segments : ℕ
max_segments = 8

abbrev pub max_segment_bytes : ℕ
max_segment_bytes = 64

abbrev pub max_authority_len : ℕ
max_authority_len = 253

abbrev pub max_selector_items : ℕ
max_selector_items = 8

abbrev pub local_authority : Bytes
local_authority = codes "local"

pub data AuthorityFault : Type 0 where
  host_too_long local_takes_no_port bad_label bad_label_bytes label_edge_dash : AuthorityFault

pub data SegmentFault : Type 0 where
  not_utf8 control_character path_separator dot_segment : SegmentFault

pub data EscapeFault : Type 0 where
  truncated_escape bad_hex_digits : EscapeFault

pub data VersionFault : Type 0 where
  empty_version too_many_components bad_component leading_zero : VersionFault

pub data SelectorFault : Type 0 where
  empty_fragment too_many_items bad_role bad_tag bad_id : SelectorFault

pub data MurlParseError : Type 0 where
  too_long : MurlParseError
  canonical_too_long : ℕ → MurlParseError
  invalid_character : ℕ → MurlParseError
  missing_scheme missing_authority userinfo_forbidden ipv6_not_supported : MurlParseError
  invalid_authority : AuthorityFault → MurlParseError
  invalid_port : Bytes → MurlParseError
  missing_name empty_segment too_many_segments segment_too_long : MurlParseError
  invalid_segment : SegmentFault → MurlParseError
  invalid_percent_encoding : EscapeFault → MurlParseError
  misplaced_version_marker : MurlParseError
  invalid_version : VersionFault → MurlParseError
  invalid_selector : SelectorFault → MurlParseError
  invalid_query : Bytes → MurlParseError

-- `local`, or a host with an optional port.
pub data Authority : Type 0 where
  local : Authority
  remote : (host : Bytes) (port : Option ℕ) → Authority

unfoldable pub is_local : Authority → Bool
is_local local = true
is_local (remote host port) = false

unfoldable pub is_loopback : Authority → Bool
is_loopback local = false
is_loopback (remote host port) =
    bytes_eq host (codes "localhost")
    || bytes_eq host (codes "127.0.0.1")
    || ends_with_text (codes ".localhost") host

pub data VersionTag : Type 0 where
  latest : VersionTag
  pinned : List ℕ → VersionTag

pub data SelectorItem : Type 0 where
  id role tag : Bytes → SelectorItem

pub record Murl : Type 0 where
  pub authority : Authority
  pub name : List Bytes
  pub version : VersionTag
  pub selector : Option (List SelectorItem)
  pub query : Option Bytes
