-- ===== src/Trust/Verify.antt =====
-- crates/murl-core/src/trust.rs: `signable_bytes`, `sign_manifest`, `verify_manifest`. The signature
-- scheme is a parameter.
use m_url.Base.{
  Bool, not, Option, none, some, Result, ok, ◌>>=◌, ◌>>◌, refuse_if, ok_or, map_err, ◌==◌,
  if◌then◌else◌, length,
}
use m_url.Base.Text.{Bytes, codes, bytes_eq}
use m_url.Manifest.Json.{Value, string, object, Members, end, member}
use m_url.Canonical.{canonical_json_bytes}
use m_url.Trust.Store.{Crypto, bytes_lt, key_id_for}

-- The signature scheme, over the bytes of keys, messages and signatures.
pub record Scheme : Type 0 where
  pub public_key : Bytes → Bytes
  pub sign : Bytes → Bytes → Bytes
  pub verify : Bytes → Bytes → Bytes → Bool

pub data SignatureFault : Type 0 where
  not_object not_canonical signature_not_object : SignatureFault
  missing_field : Bytes → SignatureFault
  unsupported_algorithm bad_public_key_encoding public_key_length key_id_mismatch : SignatureFault
  bad_sig_encoding sig_length invalid_public_key verification_failed : SignatureFault

pub record VerifiedSignature : Type 0 where
  pub key_id : Bytes
  pub public_key_b64 : Bytes

-- `Map::get`, `Map::remove` and `Map::insert`; the map is sorted by name.
unfoldable pub get_member : Bytes → Members → Option Value
get_member k end = none
get_member k (member n v map) = let rest = get_member k map in if bytes_eq n k then some v else rest

unfoldable pub remove_member : Bytes → Members → Members
remove_member k end = end
remove_member k (member n v map) =
    let rest = remove_member k map in if bytes_eq n k then rest else member n v rest

unfoldable pub insert_member : Bytes → Value → Members → Members
insert_member k w end = member k w end
insert_member k w (member n v map) =
    let rest = insert_member k w map in
    if bytes_eq n k
    then member n w map
    else if bytes_lt k n
    then member k w (member n v map)
    else member n v rest

-- `Value::as_object` and `Value::as_str`
abbrev pub as_object : Value → Option Members
as_object (object map) = some map
as_object _ = none

abbrev pub as_str : Value → Option Bytes
as_str (string s) = some s
as_str _ = none

unfoldable pub signable_members : Members → Result SignatureFault Bytes
signable_members map =
    map_err (λ e. not_canonical)
      (canonical_json_bytes (object (remove_member (codes "signature") map)))

unfoldable pub signable_bytes : Value → Result SignatureFault Bytes
signable_bytes raw = do map ← ok_or (as_object raw) not_object; signable_members map

-- The closure `field`.
abbrev pub string_of : Option Value → Option Bytes
string_of none = none
string_of (some v) = as_str v

unfoldable pub field : Members → Bytes → Result SignatureFault Bytes
field block name = ok_or (string_of (get_member name block)) (missing_field name)

module _ (crypto : Crypto) (scheme : Scheme) where
  -- The block that `sign_manifest` inserts.
  unfoldable pub signature_block : Bytes → Bytes → Members
  signature_block secret bytes = member (codes "alg") (string (codes "ed25519")) (
      member (codes "keyId") (string (key_id_for crypto (scheme.public_key secret))) (
        member (codes "publicKey") (string (crypto.encode_b64 (scheme.public_key secret)))
          (member (codes "sig") (string (crypto.encode_b64 (scheme.sign secret bytes))) end)))

  unfoldable pub sign_manifest : Bytes → Value → Result SignatureFault Value
  sign_manifest secret raw = do
    bytes ← signable_bytes raw
    map ← ok_or (as_object raw) not_object
    ok (object (insert_member (codes "signature") (object (signature_block secret bytes)) map))

  -- What is checked of the fields `keyId`, `publicKey` and `sig`.
  unfoldable pub check_signature :
      Value → (key_id public_key_b64 sig_b64 : Bytes) → Result SignatureFault VerifiedSignature
  check_signature raw key_id public_key_b64 sig_b64 = do
    pk ← ok_or (crypto.decode_b64 public_key_b64) bad_public_key_encoding
    refuse_if (not (length pk == 32)) public_key_length
    refuse_if (not (bytes_eq (key_id_for crypto pk) key_id)) key_id_mismatch
    sig ← ok_or (crypto.decode_b64 sig_b64) bad_sig_encoding
    refuse_if (not (length sig == 64)) sig_length
    refuse_if (not (crypto.is_point pk)) invalid_public_key
    bytes ← signable_bytes raw
    refuse_if (not (scheme.verify pk bytes sig)) verification_failed
    ok (record { key_id = key_id; public_key_b64 = public_key_b64 })

  -- What is checked of a signature block.
  unfoldable pub verify_block : Value → Members → Result SignatureFault VerifiedSignature
  verify_block raw block = do
    alg ← field block (codes "alg")
    refuse_if (not (bytes_eq alg (codes "ed25519"))) unsupported_algorithm
    key_id ← field block (codes "keyId")
    public_key_b64 ← field block (codes "publicKey")
    sig_b64 ← field block (codes "sig")
    check_signature raw key_id public_key_b64 sig_b64

  -- What is done with the member `signature`, if there is one.
  unfoldable pub verify_member :
      Value → Option Value → Result SignatureFault (Option VerifiedSignature)
  verify_member raw none = ok none
  verify_member raw (some sig_val) = do
    block ← ok_or (as_object sig_val) signature_not_object
    v ← verify_block raw block
    ok (some v)

  unfoldable pub verify_manifest : Value → Result SignatureFault (Option VerifiedSignature)
  verify_manifest raw = do
    obj ← ok_or (as_object raw) not_object
    verify_member raw (get_member (codes "signature") obj)
