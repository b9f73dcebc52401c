-- ===== src/Resolver/Locality.antt =====
-- crates/murl-core/src/resolver.rs: `Origin`, and how far away a manifest or a name lives.
use m_url.Base.{
  ℕ, Bool, true, false, ◌&&◌, List, [], ◌∷◌, ◌++◌, Option, none, some, ltb, ◌==◌, if◌then◌else◌,
}
use m_url.Base.Text.{Bytes, codes, bytes_eq}
use m_url.Murl.Types.{Murl, Authority, local, remote, is_local, is_loopback, VersionTag, pinned}
use m_url.Resolver.Types.{Origin}

unfoldable pub is_remote : Origin → Bool
is_remote (Origin.remote url from_cache) = true
is_remote _ = false

unfoldable pub describe_origin : Origin → Bytes
describe_origin (Origin.local_store p) = codes "local store (" ++ (p ++ codes ")")
describe_origin (Origin.local_file p) = codes "file (" ++ (p ++ codes ")")
describe_origin (Origin.remote url true) = codes "cache (" ++ (url ++ codes ")")
describe_origin (Origin.remote url false) = codes "remote (" ++ (url ++ codes ")")

-- In the order of the derived `Ord`.
pub data Locality : Type 0 where
  this_device loopback network : Locality

abbrev pub rank : Locality → ℕ
rank this_device = 0
rank loopback = 1
rank network = 2

-- `a < b`
abbrev pub nearer : Locality → Locality → Bool
nearer a b = ltb (rank a) (rank b)

unfoldable pub locality_of : Authority → Locality
locality_of authority =
    if is_local authority then this_device else if is_loopback authority then loopback else network

unfoldable pub of_source : Origin → Option Murl → Locality
of_source (Origin.local_store p) murl = this_device
of_source (Origin.local_file p) murl = this_device
of_source (Origin.remote url from_cache) (some m) = locality_of m.authority
of_source (Origin.remote url from_cache) none = network

abbrev pub eq_port : Option ℕ → Option ℕ → Bool
eq_port none none = true
eq_port (some p) (some q) = p == q
eq_port _ _ = false

-- The derived equality of authorities, of lists of texts, and of pinned versions.
unfoldable pub eq_authority : Authority → Authority → Bool
eq_authority local local = true
eq_authority (remote h p) (remote h₂ q) = bytes_eq h h₂ && eq_port p q
eq_authority _ _ = false

unfoldable pub eq_names : List Bytes → List Bytes → Bool
eq_names [] [] = true
eq_names (s ∷ ss) (t ∷ ts) = bytes_eq s t && eq_names ss ts
eq_names _ _ = false

-- `(Pinned(a), Pinned(b)) if a != b`
unfoldable pub version_conflicts : VersionTag → VersionTag → Bool
version_conflicts (pinned a) (pinned b) = if bytes_eq a b then false else true
version_conflicts _ _ = false
