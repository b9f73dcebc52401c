-- ===== src/Fetch.antt =====
-- crates/murl-core/src/fetch.rs: where manifests are found. Reading a file is a parameter.
pub mod Names
pub mod Paths
pub mod Urls
mod Tests
use m_url.Base.{
  ℕ, ◌/◌, ◌%◌, Bool, true, false, ◌||◌, List, [], ◌∷◌, ◌++◌, Option, none, some, Result, ok, err,
  ◌==◌, if◌then◌else◌,
}
use m_url.Base.Text.{Bytes, codes, is_alphanumeric}
use m_url.Murl.Types.{Murl, Authority, local, remote, is_loopback, VersionTag}
use m_url.Murl.Percent.{hex_digit}
use m_url.Murl.Authority.{show_authority}
use m_url.Murl.Parse.{slash_segments, show_pin}

abbrev pub scheme_of : Authority → Bytes
scheme_of authority = if is_loopback authority then codes "http" else codes "https"

abbrev pub manifest_suffix : Bytes
manifest_suffix = codes ".murl.json"

-- The name and version in a URL: `path` and `suffix`, and what follows them.
unfoldable pub url_path : Murl → Bytes
url_path m = slash_segments m.name ++ (show_pin m.version ++ manifest_suffix)

unfoldable pub url_of : Murl → Authority → Option Bytes
url_of m local = none
url_of m (remote host port) = some (
    scheme_of (remote host port)
    ++ (codes "://"
        ++ (show_authority (remote host port) ++ (codes "/.well-known/murl" ++ url_path m))))

unfoldable pub well_known_url : Murl → Option Bytes
well_known_url m = url_of m m.authority

abbrev pub is_safe_byte : ℕ → Bool
is_safe_byte b = is_alphanumeric b || (b == b'.' || b == b'_' || b == b'-')

-- One round of the loop of `sanitize_component`.
unfoldable pub sanitize_byte : ℕ → Bytes
sanitize_byte b =
    if is_safe_byte b then b ∷ [] else b'%' ∷ hex_digit (b / 16) ∷ hex_digit (b % 16) ∷ []

unfoldable pub sanitize_component : Bytes → Bytes
sanitize_component [] = []
sanitize_component (b ∷ s) = sanitize_byte b ++ sanitize_component s

-- The components that `manifest_path` pushes to the root, the last one with version and suffix. A name
-- has at least one segment, so the first clause is not reached.
unfoldable pub path_components : VersionTag → List Bytes → List Bytes
path_components version [] = []
path_components version (seg ∷ []) =
    (sanitize_component seg ++ (show_pin version ++ manifest_suffix)) ∷ []
path_components version (seg ∷ next ∷ rest) =
    sanitize_component seg ∷ path_components version (next ∷ rest)

-- `path.push(component)` is `push path component`, which the standard library decides: it may put a
-- separator between the two or none.
unfoldable pub push_components : (Bytes → Bytes → Bytes) → Bytes → List Bytes → Bytes
push_components push path [] = path
push_components push path (c ∷ cs) = push_components push (push path c) cs

unfoldable pub manifest_path : (Bytes → Bytes → Bytes) → Bytes → Murl → Bytes
manifest_path push root m = push_components push root (path_components m.version m.name)

-- What reading a file gives.
pub data FileRead : Type 0 where
  content : Bytes → FileRead
  no_file : FileRead
  io_fault : Bytes → FileRead

pub data FetchFault : Type 0 where
  not_in_store : Bytes → FetchFault
  io_error : Bytes → FetchFault

unfoldable pub load_read : Bytes → FileRead → Result FetchFault (Bytes × Bytes)
load_read path (content bytes) = ok (bytes, path)
load_read path no_file = err (not_in_store path)
load_read path (io_fault e) = err (io_error e)

-- `LocalStore::load`, on the store at `root`.
unfoldable pub load :
    (Bytes → Bytes → Bytes) → (Bytes → FileRead) → Bytes → Murl → Result FetchFault (Bytes × Bytes)
load push read root m = load_read (manifest_path push root m) (read (manifest_path push root m))
