-- ===== src/Bundle.antt =====
-- crates/murl-core/src/bundle.rs: bundles of manifests. The JSON library and the generated conversion to a
-- bundle are parameters.
pub mod Intact
mod Tests
use m_url.Base.{
  ℕ, ◌*◌, Bool, true, false, not, ◌&&◌, List, [], ◌∷◌, map, Option, none, some, Result, ok, err,
  ◌>>=◌, ◌>>◌, refuse_if, ok_or, map_err, ltb, if◌then◌else◌, length, take, any,
}
use m_url.Base.Text.{Bytes, codes, bytes_eq}
use m_url.Limits.{Limits}
use m_url.Murl.Types.{Murl, MurlParseError}
use m_url.Murl.Parse.{parse, identity as identity_of}
use m_url.Trust.Store.{Crypto, TrustFault, sha256_hex, make_integrity, check_integrity}
use m_url.Manifest.Json.{Value}
use m_url.Manifest.Types.{Manifest}
use m_url.Manifest.Strict.{JsonFault, visit}
use m_url.Manifest.Target.Messages.{Floats}
use m_url.Manifest.Validate.Types.{Issue, into_result}
use m_url.Manifest.Validate.Document.{Json, ManifestFault, from_slice as read_manifest, validate}
use m_url.Resolver.Types.{ResolvedNode, Resolution}

pub record BundleEntry : Type 0 where
  pub identity : Option Bytes
  pub name : Bytes
  pub integrity : Bytes
  pub bytes : Bytes

pub record Bundle : Type 0 where
  pub bundle_version : Bytes
  pub root : Option Bytes
  pub entries : List BundleEntry

pub data BundleFault : Type 0 where
  too_many_manifests bundle_too_large invalid_json schema_mismatch : BundleFault
  strict_fault : JsonFault → BundleFault
  unsupported_version no_manifests bad_base64 entry_too_large : BundleFault
  integrity_fault : TrustFault → BundleFault
  manifest_fault : ManifestFault → BundleFault
  invalid_manifest : List Issue → BundleFault
  invalid_identity : MurlParseError → BundleFault
  not_canonical duplicate_identity unknown_root : Bytes → BundleFault
  no_root : BundleFault

abbrev pub current_version : Bytes
current_version = codes "0.2"

abbrev pub max_bundle_entries : ℕ
max_bundle_entries = 64

-- `limits.max_manifest_bytes.saturating_mul(8)`
unfoldable pub bundle_cap : ℕ → ℕ
bundle_cap max_manifest_bytes =
    if ltb 18446744073709551615 (max_manifest_bytes * 8)
    then 18446744073709551615
    else max_manifest_bytes * 8

abbrev pub is_no_entry : List BundleEntry → Bool
is_no_entry [] = true
is_no_entry (e ∷ es) = false

module _ (crypto : Crypto) where
  abbrev pub entry_of : ResolvedNode → BundleEntry
  entry_of node = record {
    identity = node.identity;
    name = node.manifest.doc.name;
    integrity = make_integrity crypto node.raw_bytes;
    bytes = crypto.encode_b64 node.raw_bytes;
  }

  -- The bundle, when the resolution has a root; without one the source panics.
  abbrev pub bundle_of : List ResolvedNode → Result BundleFault Bundle
  bundle_of [] = err no_root
  bundle_of (n ∷ nodes) = ok (record {
    bundle_version = current_version;
    root = n.identity;
    entries = map entry_of (n ∷ nodes);
  })

  unfoldable pub from_resolution : Resolution → Result BundleFault Bundle
  from_resolution res = do
    refuse_if (ltb max_bundle_entries (length res.nodes)) too_many_manifests
    bundle_of res.nodes

  unfoldable pub fingerprint : Bytes → Bytes
  fingerprint bytes = take 16 (sha256_hex crypto bytes)

  unfoldable pub decode : BundleEntry → Limits → Result BundleFault Bytes
  decode entry limits = do
    raw ← ok_or (crypto.decode_b64 entry.bytes) bad_base64
    refuse_if (ltb limits.max_manifest_bytes (length raw)) entry_too_large
    ok raw

  -- The check of an entry's identity, with those seen before.
  unfoldable pub check_identity : List Bytes → Option Bytes → Result BundleFault (List Bytes)
  check_identity seen none = ok seen
  check_identity seen (some id) = do
    parsed ← map_err invalid_identity (parse id)
    refuse_if (not (bytes_eq (identity_of parsed) id)) (not_canonical id)
    refuse_if (any (bytes_eq id) seen) (duplicate_identity id)
    ok (id ∷ seen)

  abbrev pub has_identity : Bytes → BundleEntry → Bool
  has_identity id entry = elim entry.identity [ none ↦ false | some other ↦ bytes_eq other id ]

  unfoldable pub check_root : List BundleEntry → Option Bytes → Result BundleFault (Unit {0})
  check_root entries none = ok tt
  check_root entries (some root) =
      refuse_if (not (any (has_identity root) entries)) (unknown_root root)

module _ (crypto : Crypto) (floats : Floats) (json : Json) (limits : Limits) where
  -- One round of the loop over the entries; it returns the identities seen.
  unfoldable pub check_bundle_entry : List Bytes → BundleEntry → Result BundleFault (List Bytes)
  check_bundle_entry seen entry = do
    raw ← decode crypto entry limits
    intact ← map_err integrity_fault (check_integrity crypto raw entry.integrity)
    manifest ← map_err manifest_fault (read_manifest json limits raw)
    report ← map_err invalid_manifest (into_result (validate crypto floats manifest))
    check_identity crypto seen entry.identity

  unfoldable pub check_entries : List Bytes → List BundleEntry → Result BundleFault (List Bytes)
  check_entries seen [] = ok seen
  check_entries seen (entry ∷ entries) = do
    seen' ← check_bundle_entry seen entry
    check_entries seen' entries

  -- `Bundle::from_slice`, with the conversion of a value to a bundle.
  unfoldable pub from_slice : (Value → Option Bundle) → Bytes → Result BundleFault Bundle
  from_slice typed bytes = do
    refuse_if (ltb (bundle_cap limits.max_manifest_bytes) (length bytes)) bundle_too_large
    syntax ← ok_or (json.read bytes) invalid_json
    value ← map_err strict_fault (visit syntax)
    bundle ← ok_or (typed value) schema_mismatch
    refuse_if (not (bytes_eq bundle.bundle_version current_version)) unsupported_version
    refuse_if (is_no_entry bundle.entries) no_manifests
    refuse_if (ltb max_bundle_entries (length bundle.entries)) too_many_manifests
    seen ← check_entries [] bundle.entries
    check_root crypto bundle.entries bundle.root
    ok bundle
