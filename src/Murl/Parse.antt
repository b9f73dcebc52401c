-- ===== src/Murl/Parse.antt =====
-- crates/murl-core/src/murl.rs: `Murl::parse`, `identity` and the `Display` of `Murl`.
pub mod Valid
pub mod Canonical
pub mod RoundTrip
pub mod Safety
use m_url.Base.{
  ℕ, suc, Bool, true, false, not, ◌&&◌, ◌||◌, List, [], ◌∷◌, ◌++◌, map, Option, none, some, Result,
  ok, err, ◌>>=◌, ◌>>◌, refuse_if, ok_or, ltb, leb, if◌then◌else◌, length, take, drop,
}
use m_url.Base.Text.{Bytes, codes, bytes_eq, contains, is_empty, lowercase, split, split_once, join}
use m_url.Murl.Types.{
  MurlParseError, too_long, canonical_too_long, invalid_character, missing_scheme, missing_name,
  empty_segment, too_many_segments, misplaced_version_marker, invalid_query, max_murl_len,
  max_segments, VersionTag, latest, pinned, SelectorItem, Murl,
}
use m_url.Murl.Percent.{encode_segment, decode_segment}
use m_url.Murl.Version.{parse_version, show_version}
use m_url.Murl.Authority.{parse_authority, show_authority}
use m_url.Murl.Selector.{parse_selector, show_item}

abbrev pub is_printable : ℕ → Bool
is_printable b = leb 0x21 b && leb b 0x7e

-- The loop over `input.bytes().enumerate()`, from offset `i` on.
unfoldable pub check_printable : ℕ → Bytes → Result MurlParseError (Unit {0})
check_printable i [] = ok tt
check_printable i (b ∷ s) = do
  refuse_if (not (is_printable b)) (invalid_character i)
  check_printable (suc i) s

unfoldable pub strip_scheme : Bytes → Option Bytes
strip_scheme input =
    if ltb (length input) 7
    then none
    else if bytes_eq (lowercase (take 7 input)) (codes "murl://")
    then some (drop 7 input)
    else none

-- `match rest.split_once(sep) { Some((r, f)) => (r, Some(f)), None => (rest, None) }`
unfoldable pub cut_suffix : Bytes → Option (Bytes × Bytes) → Bytes × Option Bytes
cut_suffix rest none = (rest, none)
cut_suffix rest (some (r, f)) = (r, some f)

-- The round of the segment loop at `i == last_idx`.
unfoldable pub last_segment :
    Bytes → Option (Bytes × Bytes) → Result MurlParseError (List Bytes × VersionTag)
last_segment raw none = do seg ← decode_segment raw; ok (seg ∷ [], latest)
last_segment raw (some (base, ver)) = do
  refuse_if (contains b'@' ver) misplaced_version_marker
  refuse_if (is_empty base) empty_segment
  version ← parse_version ver
  seg ← decode_segment base
  ok (seg ∷ [], version)

-- The segment loop; `split` leaves at least one segment, so the first clause is not reached.
unfoldable pub parse_segments : List Bytes → Result MurlParseError (List Bytes × VersionTag)
parse_segments [] = ok ([], latest)
parse_segments (raw ∷ []) = last_segment raw (split_once b'@' raw)
parse_segments (raw ∷ next ∷ rest) = do
  refuse_if (contains b'@' raw) misplaced_version_marker
  seg ← decode_segment raw
  (segs, version) ← parse_segments (next ∷ rest)
  ok (seg ∷ segs, version)

unfoldable pub parse_fragment : Option Bytes → Result MurlParseError (Option (List SelectorItem))
parse_fragment none = ok none
parse_fragment (some f) = do items ← parse_selector f; ok (some items)

unfoldable pub check_query : Option Bytes → Result MurlParseError (Unit {0})
check_query none = ok tt
check_query (some q) = refuse_if (contains b'#' q || ltb 512 (length q)) (invalid_query q)

unfoldable pub slash_segments : List Bytes → Bytes
slash_segments [] = []
slash_segments (seg ∷ segs) = b'/' ∷ (encode_segment seg ++ slash_segments segs)

unfoldable pub show_pin : VersionTag → Bytes
show_pin latest = []
show_pin (pinned v) = b'@' ∷ show_version (pinned v)

unfoldable pub identity : Murl → Bytes
identity m =
    codes "murl://" ++ (show_authority m.authority ++ (slash_segments m.name ++ show_pin m.version))

unfoldable pub selector_display : Option (List SelectorItem) → Option Bytes
selector_display none = none
selector_display (some items) = some (join (codes ",") (map show_item items))

unfoldable pub show_suffix : ℕ → Option Bytes → Bytes
show_suffix mark none = []
show_suffix mark (some s) = mark ∷ s

-- `murl.to_string()`
unfoldable pub show_murl : Murl → Bytes
show_murl m =
    identity m ++ (show_suffix b'?' m.query ++ show_suffix b'#' (selector_display m.selector))

-- `Murl::parse` from the split at the first slash on.
unfoldable pub parse_located :
    Option (Bytes × Bytes) → Option Bytes → Option Bytes → Result MurlParseError Murl
parse_located none query fragment = err missing_name
parse_located (some (auth_raw, path_raw)) query fragment = do
  authority ← parse_authority auth_raw
  refuse_if (is_empty path_raw) missing_name
  let raw_segments = split b'/' path_raw
  refuse_if (ltb max_segments (length raw_segments)) too_many_segments
  (segments, version) ← parse_segments raw_segments
  selector ← parse_fragment fragment
  check_query query
  ok (record {
    authority = authority;
    name = segments;
    version = version;
    selector = selector;
    query = query;
  })

-- `Murl::parse` after the scheme.
unfoldable pub parse_rest : Bytes → Result MurlParseError Murl
parse_rest after =
    let (before_fragment, fragment) = cut_suffix after (split_once b'#' after) in
    let (rest, query) = cut_suffix before_fragment (split_once b'?' before_fragment) in
    parse_located (split_once b'/' rest) query fragment

-- The canonical form must itself be within the length limit.
unfoldable pub check_canonical : Murl → Result MurlParseError Murl
check_canonical m = do
  let canonical_len = length (show_murl m)
  refuse_if (ltb max_murl_len canonical_len) (canonical_too_long canonical_len)
  ok m

unfoldable pub parse : Bytes → Result MurlParseError Murl
parse input = do
  refuse_if (ltb max_murl_len (length input)) too_long
  check_printable 0 input
  rest ← ok_or (strip_scheme input) missing_scheme
  m ← parse_rest rest
  check_canonical m

unfoldable pub name_path : Murl → Bytes
name_path m = join (codes "/") m.name
