-- ===== src/Kind.antt =====
-- crates/murl-core/src/kind.rs: the registry of resource kinds.
mod Tests
pub mod RoundTrip
pub mod Extension
use m_url.Base.{
  ℕ, Bool, true, false, not, ◌||◌, List, [], ◌∷◌, ◌++◌, Option, none, some, Result, ok, err, ◌>>=◌,
  ◌>>◌, refuse_if, ltb, ◌==◌, if◌then◌else◌, length, any,
}
use m_url.Base.Text.{
  Bytes, codes, bytes_eq, is_empty, lowercase, strip_prefix, rsplit_once, last_piece,
}
use m_url.Grammar.{all_indexed, is_alnum, is_id_byte}

pub data Kind : Type 0 where
  https file dir murl terminal ssh remote_desktop geo mailto : Kind
  custom : Bytes → Kind

pub data KindFault : Type 0 where
  bad_custom_length bad_custom_name unknown_kind : KindFault

abbrev pub max_custom_name : ℕ
max_custom_name = 32

-- The last arm of the match.
unfoldable pub parse_custom : Option Bytes → Result KindFault Kind
parse_custom none = err unknown_kind
parse_custom (some name) = do
  refuse_if (is_empty name || ltb max_custom_name (length name)) bad_custom_length
  refuse_if (not (all_indexed is_alnum is_id_byte name)) bad_custom_name
  ok (custom name)

unfoldable pub parse_kind : Bytes → Result KindFault Kind
parse_kind s =
    if bytes_eq s (codes "https")
    then ok https
    else if bytes_eq s (codes "file")
    then ok file
    else if bytes_eq s (codes "dir")
    then ok dir
    else if bytes_eq s (codes "murl")
    then ok murl
    else if bytes_eq s (codes "terminal")
    then ok terminal
    else if bytes_eq s (codes "ssh")
    then ok ssh
    else if bytes_eq s (codes "remote-desktop")
    then ok remote_desktop
    else if bytes_eq s (codes "geo")
    then ok geo
    else if bytes_eq s (codes "mailto")
    then ok mailto
    else parse_custom (strip_prefix (codes "custom:") s)

unfoldable pub is_filesystem : Kind → Bool
is_filesystem file = true
is_filesystem dir = true
is_filesystem terminal = true
is_filesystem _ = false

-- The `Display` of a kind.
unfoldable pub show_kind : Kind → Bytes
show_kind https = codes "https"
show_kind file = codes "file"
show_kind dir = codes "dir"
show_kind murl = codes "murl"
show_kind terminal = codes "terminal"
show_kind ssh = codes "ssh"
show_kind remote_desktop = codes "remote-desktop"
show_kind geo = codes "geo"
show_kind mailto = codes "mailto"
show_kind (custom name) = codes "custom:" ++ name

abbrev pub executable_extensions : List Bytes
executable_extensions =
    codes "desktop"
    ∷ codes "exe"
    ∷ codes "bat"
    ∷ codes "cmd"
    ∷ codes "com"
    ∷ codes "scr"
    ∷ codes "msi"
    ∷ codes "ps1"
    ∷ codes "vbs"
    ∷ codes "vbe"
    ∷ codes "js"
    ∷ codes "jse"
    ∷ codes "wsf"
    ∷ codes "wsh"
    ∷ codes "hta"
    ∷ codes "sh"
    ∷ codes "run"
    ∷ codes "appimage"
    ∷ codes "jar"
    ∷ codes "lnk"
    ∷ codes "url"
    ∷ codes "reg"
    ∷ codes "app"
    ∷ []

abbrev pub is_path_separator : ℕ → Bool
is_path_separator c = c == b'/' || c == b'\\'

abbrev pub is_padding : ℕ → Bool
is_padding c = c == b'.' || c == b' '

-- `s.trim_end_matches(['.', ' '])`
unfoldable pub trim_end : Bytes → Bytes
trim_end [] = []
trim_end (c ∷ s) = elim (trim_end s) [
  | [] ↦ if is_padding c then [] else c ∷ []
  | d ∷ t ↦ c ∷ d ∷ t
]

unfoldable pub is_listed_extension : Option (Bytes × Bytes) → Bool
is_listed_extension none = false
is_listed_extension (some (stem, ext)) = any (bytes_eq ext) executable_extensions

unfoldable pub has_executable_extension : Bytes → Bool
has_executable_extension target =
    is_listed_extension
      (rsplit_once b'.' (trim_end (last_piece is_path_separator (lowercase target))))
