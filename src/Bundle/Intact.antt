-- ===== src/Bundle/Intact.antt =====
-- What a bundle that was read guarantees.
use m_url.Base.{
  not-false, ◌≤◌, ◌≡◌, ◌≢◌, refl, subst, Bool, true, false, not, List, [], ◌∷◌, Option, none, some,
  Result, ok, err, >>=-eq-ok, refuse_if-eq-ok, ok_or-eq-ok, ok_or, map_err, refuse_if, ltb,
  if◌then◌else◌, length, any, arith,
}
use m_url.Base.Text.{Bytes, bytes_eq}
use m_url.Base.Text.Equality.{bytes_eq→eq}
use m_url.Limits.{Limits}
use m_url.Murl.Types.{Murl}
use m_url.Murl.Parse.{parse, identity as identity_of}
use m_url.Trust.Store.{Crypto, check_integrity}
use m_url.Manifest.Json.{Value}
use m_url.Manifest.Types.{Manifest}
use m_url.Manifest.Strict.{visit}
use m_url.Manifest.Target.Messages.{Floats}
use m_url.Manifest.Validate.Types.{ValidationReport, is_valid, into_result}
use m_url.Manifest.Validate.Document.{Json, from_slice as read_manifest, validate}
use m_url.Manifest.Validate.Sound.{AreRunnable, validate-AreRunnable}
use m_url.Bundle.{
  BundleEntry, Bundle, BundleFault, too_many_manifests, bundle_too_large, invalid_json,
  schema_mismatch, strict_fault, unsupported_version, no_manifests, bad_base64, entry_too_large,
  integrity_fault, manifest_fault, invalid_manifest, invalid_identity, not_canonical,
  duplicate_identity, unknown_root, current_version, max_bundle_entries, bundle_cap, decode,
  check_identity, has_identity, check_root, check_bundle_entry, check_entries, is_no_entry,
  from_slice,
}

map_err-eq-ok :
    {E F A : Type 0} (f : E → F) (r : Result E A) (a : A) → map_err f r ≡ ok a → r ≡ ok a
map_err-eq-ok f (ok b) a h = cc
map_err-eq-ok f (err e) a h = absurd cc

-- The identity of an entry, if it has one, is the canonical text of a mURL and none of those before.
abbrev pub IsNewIdentity : List Bytes → Option Bytes → Type 0
IsNewIdentity seen none = Unit
IsNewIdentity seen (some id) =
    (m : Murl) × (parse id ≡ ok m) × (identity_of m ≡ id) × (any (bytes_eq id) seen ≡ false)

abbrev pub seen_with : List Bytes → Option Bytes → List Bytes
seen_with seen none = seen
seen_with seen (some id) = id ∷ seen

module _ (crypto : Crypto) (floats : Floats) (json : Json) (limits : Limits) where
  -- The entry decodes to bytes within the limit that match its pin, and they are a manifest without
  -- validation errors.
  abbrev pub IsIntact : BundleEntry → Type 0
  IsIntact entry =
      (raw : Bytes) × (m : Manifest) × (crypto.decode_b64 entry.bytes ≡ some raw)
      × (length raw ≤ limits.max_manifest_bytes)
      × (check_integrity crypto raw entry.integrity ≡ ok tt)
      × (read_manifest json limits raw ≡ ok m)
      × AreRunnable floats m.doc.resources

  abbrev pub AreIntact : List Bytes → List BundleEntry → Type 0
  AreIntact seen [] = Unit
  AreIntact seen (e ∷ es) =
      IsIntact e × IsNewIdentity seen e.identity × AreIntact (seen_with seen e.identity) es

  decode-within :
      (e : BundleEntry) (raw : Bytes)
      → decode crypto e limits ≡ ok raw
      → (crypto.decode_b64 e.bytes ≡ some raw) × (length raw ≤ limits.max_manifest_bytes)
  unfolding decode
  decode-within e raw h =
      let (raw', h₀, h₁) = >>=-eq-ok (ok_or (crypto.decode_b64 e.bytes) bad_base64) _ h in
      let (fits, h₂) =
        refuse_if-eq-ok (ltb limits.max_manifest_bytes (length raw')) entry_too_large _ h₁ in
      let same : raw' ≡ raw = cc in
      let there = ok_or-eq-ok (crypto.decode_b64 e.bytes) bad_base64 h₀ in
      (rw same at there, (let fits' = rw same at fits in ground arith))

  check_identity-new :
      (seen after : List Bytes) (id : Option Bytes)
      → check_identity crypto seen id ≡ ok after
      → IsNewIdentity seen id × (after ≡ seen_with seen id)
  unfolding check_identity
  check_identity-new seen after none h = (tt, cc)
  check_identity-new seen after (some id) h =
      let (m, h₀, h₁) = >>=-eq-ok (map_err invalid_identity (parse id)) _ h in
      let (canonical, h₂) =
        refuse_if-eq-ok (not (bytes_eq (identity_of m) id)) (not_canonical id) _ h₁ in
      let (new, h₃) = refuse_if-eq-ok (any (bytes_eq id) seen) (duplicate_identity id) _ h₂ in
      (
        (
          m,
          map_err-eq-ok invalid_identity (parse id) m h₀,
          bytes_eq→eq (identity_of m) id (not-false canonical),
          new,
        ),
        cc,
      )

  into_result-valid :
      (rep : ValidationReport) (r : ValidationReport)
      → map_err invalid_manifest (into_result rep) ≡ ok r
      → is_valid rep ≡ true
  unfolding into_result
  into_result-valid rep r h =
      go (is_valid rep) refl (map_err-eq-ok invalid_manifest (into_result rep) r h)
    where
      go :
          (b : Bool)
          → is_valid rep ≡ b
          → (if b then ok rep else err rep.errors) ≡ ok r
          → is_valid rep ≡ true
      go true e h = e
      go false e h = absurd cc

  check_bundle_entry-IsIntact :
      (seen after : List Bytes) (e : BundleEntry)
      → check_bundle_entry crypto floats json limits seen e ≡ ok after
      → IsIntact e × IsNewIdentity seen e.identity × (after ≡ seen_with seen e.identity)
  unfolding check_bundle_entry
  check_bundle_entry-IsIntact seen after e h =
      let (raw, h₀, h₁) = >>=-eq-ok (decode crypto e limits) _ h in
      let (u, h₂, h₃) =
        >>=-eq-ok (map_err integrity_fault (check_integrity crypto raw e.integrity)) _ h₁ in
      let (m, h₄, h₅) = >>=-eq-ok (map_err manifest_fault (read_manifest json limits raw)) _ h₃ in
      let (report, h₆, h₇) =
        >>=-eq-ok (map_err invalid_manifest (into_result (validate crypto floats m))) _ h₅ in
      let (decoded, fits) = decode-within e raw h₀ in
      let (new, same) = check_identity-new seen after e.identity h₇ in
      (
        (
          raw,
          m,
          decoded,
          fits,
          map_err-eq-ok integrity_fault (check_integrity crypto raw e.integrity) tt h₂,
          map_err-eq-ok manifest_fault (read_manifest json limits raw) m h₄,
          validate-AreRunnable crypto floats m
              (into_result-valid (validate crypto floats m) report h₆),
        ),
        new,
        same,
      )

  check_entries-AreIntact :
      (seen after : List Bytes) (es : List BundleEntry)
      → check_entries crypto floats json limits seen es ≡ ok after
      → AreIntact seen es
  unfolding check_entries
  check_entries-AreIntact seen after [] h = tt
  check_entries-AreIntact seen after (e ∷ es) h =
      let (next, h₀, h₁) = >>=-eq-ok (check_bundle_entry crypto floats json limits seen e) _ h in
      let (intact, new, same) = check_bundle_entry-IsIntact seen next e h₀ in
      (intact, new, check_entries-AreIntact (seen_with seen e.identity) after es (rw same at h₁))

abbrev pub HasRoot : Crypto → Option Bytes → List BundleEntry → Type 0
HasRoot crypto none entries = Unit
HasRoot crypto (some root) entries = any (has_identity crypto root) entries ≡ true

-- What `from_slice` guarantees of a bundle.
pub record IsSealed (crypto : Crypto) (floats : Floats) (json : Json) (limits : Limits) (b : Bundle)
    : Type 0 where
  pub version : b.bundle_version ≡ current_version
  pub some_entry : b.entries ≢ []
  pub few_entries : length b.entries ≤ 64
  pub intact : AreIntact crypto floats json limits [] b.entries
  pub rooted : HasRoot crypto b.root b.entries

check_root-HasRoot :
    (crypto : Crypto) (entries : List BundleEntry) (root : Option Bytes)
    → check_root crypto entries root ≡ ok tt
    → HasRoot crypto root entries
unfolding check_root
check_root-HasRoot crypto entries none h = tt
check_root-HasRoot crypto entries (some root) h = go (any (has_identity crypto root) entries) h
  where
    go : (b : Bool) → refuse_if {E = BundleFault} (not b) (unknown_root root) ≡ ok tt → b ≡ true
    go true h = refl
    go false h = absurd cc

-- A bundle that is read has the current version and from 1 to 64 entries; each entry decodes to bytes
-- within the size limit that match its pin and are a manifest whose resources can be run; the
-- identities are canonical and pairwise different; and the root, if there is one, is that of an entry.
pub from_slice-IsSealed :
    (crypto : Crypto) (floats : Floats) (json : Json) (limits : Limits)
    (typed : Value → Option Bundle) (bytes : Bytes) (b : Bundle)
    → from_slice crypto floats json limits typed bytes ≡ ok b
    → IsSealed crypto floats json limits b
unfolding from_slice
from_slice-IsSealed crypto floats json limits typed bytes b h =
    let (small, h₁) =
      refuse_if-eq-ok (ltb (bundle_cap limits.max_manifest_bytes) (length bytes)) bundle_too_large _
        h in
    let (syntax, e₁, h₂) = >>=-eq-ok (ok_or (json.read bytes) invalid_json) _ h₁ in
    let (value, e₂, h₃) = >>=-eq-ok (map_err strict_fault (visit syntax)) _ h₂ in
    let (c, e₃, h₄) = >>=-eq-ok (ok_or (typed value) schema_mismatch) _ h₃ in
    let (version, h₅) =
      refuse_if-eq-ok (not (bytes_eq c.bundle_version current_version)) unsupported_version _ h₄ in
    let (nonempty, h₆) = refuse_if-eq-ok (is_no_entry c.entries) no_manifests _ h₅ in
    let (few, h₇) =
      refuse_if-eq-ok (ltb max_bundle_entries (length c.entries)) too_many_manifests _ h₆ in
    let (seen, e₄, h₈) = >>=-eq-ok (check_entries crypto floats json limits [] c.entries) _ h₇ in
    let (u, e₅, h₉) = >>=-eq-ok (check_root crypto c.entries c.root) _ h₈ in
    subst (IsSealed crypto floats json limits) (ok_eq h₉) (record {
      version = bytes_eq→eq c.bundle_version current_version (not-false version);
      some_entry = some_entry c.entries nonempty;
      few_entries = (let fits : ltb 64 (length c.entries) ≡ false = few in ground arith);
      intact = check_entries-AreIntact crypto floats json limits [] seen c.entries e₄;
      rooted = check_root-HasRoot crypto c.entries c.root e₅;
    })
  where
    ok_eq : {a b : Bundle} → ◌≡◌ {A = Result BundleFault Bundle} (ok a) (ok b) → a ≡ b
    ok_eq e = cc

    some_entry : (es : List BundleEntry) → is_no_entry es ≡ false → es ≢ []
    some_entry [] h e = absurd cc
    some_entry (x ∷ es) h e = cc
