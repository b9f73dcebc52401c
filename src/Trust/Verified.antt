-- ===== src/Trust/Verified.antt =====
-- What verifies: the results of verification by the members of the signature block.
use m_url.Base.{
  ◌≡◌, ◌↔◌, refl, subst, Bool, true, false, not, Option, none, some, Result, ok, >>=-eq-ok,
  refuse_if-eq-ok, ok_or-eq-ok, ok_or, ◌==◌, length, arith,
}
use m_url.Base.Text.{Bytes, codes, bytes_eq}
use m_url.Base.Text.Equality.{bytes_eq→eq, bytes_eq_refl}
use m_url.Manifest.Json.{Value, null, bool, integer, fraction, string, array, object, Members}
use m_url.Trust.Store.{Crypto, key_id_for}
use m_url.Trust.Verify.{
  Scheme, SignatureFault, signature_not_object, unsupported_algorithm, bad_public_key_encoding,
  public_key_length, key_id_mismatch, bad_sig_encoding, invalid_public_key, verification_failed,
  missing_field, VerifiedSignature, get_member, as_object, signable_bytes, string_of, field,
  check_signature, verify_block, verify_member, verify_manifest,
}

-- The members of a signature block, what they decode to, and what holds of these.
pub record IsSigned (crypto : Crypto) (scheme : Scheme) (raw : Value) (block : Members)
    (v : VerifiedSignature) : Type 0 where
  pub sig_b64 : Bytes
  pub pk : Bytes
  pub sig : Bytes
  pub bytes : Bytes
  pub alg : get_member (codes "alg") block ≡ some (string (codes "ed25519"))
  pub key_id : get_member (codes "keyId") block ≡ some (string v.key_id)
  pub public_key : get_member (codes "publicKey") block ≡ some (string v.public_key_b64)
  pub sig_text : get_member (codes "sig") block ≡ some (string sig_b64)
  pub pk_decoded : crypto.decode_b64 v.public_key_b64 ≡ some pk
  pub pk_length : length pk ≡ 32
  pub pk_id : key_id_for crypto pk ≡ v.key_id
  pub sig_decoded : crypto.decode_b64 sig_b64 ≡ some sig
  pub sig_length : length sig ≡ 64
  pub point : crypto.is_point pk ≡ true
  pub signable : signable_bytes raw ≡ ok bytes
  pub valid : scheme.verify pk bytes sig ≡ true

string_of-eq : (o : Option Value) (text : Bytes) → string_of o ≡ some text → o ≡ some (string text)
string_of-eq none text h = absurd cc
string_of-eq (some null) text h = absurd cc
string_of-eq (some (bool b)) text h = absurd cc
string_of-eq (some (integer i)) text h = absurd cc
string_of-eq (some (fraction x)) text h = absurd cc
string_of-eq (some (string s)) text h = let same : s ≡ text = cc in rw same refl
string_of-eq (some (array vs)) text h = absurd cc
string_of-eq (some (object map)) text h = absurd cc

field-eq :
    (block : Members) (k text : Bytes)
    → field block k ≡ ok text
    → get_member k block ≡ some (string text)
unfolding field
field-eq block k text h =
    string_of-eq (get_member k block) text
      (ok_or-eq-ok (string_of (get_member k block)) (missing_field k) h)

as_object-eq : (v : Value) (map : Members) → as_object v ≡ some map → v ≡ object map
as_object-eq null map h = absurd cc
as_object-eq (bool b) map h = absurd cc
as_object-eq (integer i) map h = absurd cc
as_object-eq (fraction x) map h = absurd cc
as_object-eq (string s) map h = absurd cc
as_object-eq (array vs) map h = absurd cc
as_object-eq (object m) map h = let same : m ≡ map = cc in rw same refl

module _ (crypto : Crypto) (scheme : Scheme) where
  -- The result of verification that is right for the members of a manifest.
  abbrev pub IsVerified : Members → Option VerifiedSignature → Type 0
  IsVerified map none = get_member (codes "signature") map ≡ none
  IsVerified map (some v) =
      (block : Members) × (get_member (codes "signature") map ≡ some (object block))
      × IsSigned crypto scheme (object map) block v

  verify_block-IsSigned :
      (raw : Value) (block : Members) (v : VerifiedSignature)
      → verify_block crypto scheme raw block ≡ ok v
      → IsSigned crypto scheme raw block v
  unfolding verify_block check_signature
  verify_block-IsSigned raw block v h =
      let (alg, h₀, h₁) = >>=-eq-ok (field block (codes "alg")) _ h in
      let (known, h₂) =
        refuse_if-eq-ok (not (bytes_eq alg (codes "ed25519"))) unsupported_algorithm _ h₁ in
      let (key_id, e₁, h₃) = >>=-eq-ok (field block (codes "keyId")) _ h₂ in
      let (public_key, e₂, h₄) = >>=-eq-ok (field block (codes "publicKey")) _ h₃ in
      let (sig_b64, e₃, h₅) = >>=-eq-ok (field block (codes "sig")) _ h₄ in
      let (pk, hpk, k₁) =
        >>=-eq-ok (ok_or (crypto.decode_b64 public_key) bad_public_key_encoding) _ h₅ in
      let (long, k₂) = refuse_if-eq-ok (not (length pk == 32)) public_key_length _ k₁ in
      let (id, k₃) =
        refuse_if-eq-ok (not (bytes_eq (key_id_for crypto pk) key_id)) key_id_mismatch _ k₂ in
      let (sig, hsig, k₄) = >>=-eq-ok (ok_or (crypto.decode_b64 sig_b64) bad_sig_encoding) _ k₃ in
      let (sig_long, k₅) =
        refuse_if-eq-ok (not (length sig == 64)) SignatureFault.sig_length _ k₄ in
      let (point, k₆) = refuse_if-eq-ok (not (crypto.is_point pk)) invalid_public_key _ k₅ in
      let (bytes, hb, k₇) = >>=-eq-ok (signable_bytes raw) _ k₆ in
      let (valid, k₈) =
        refuse_if-eq-ok (not (scheme.verify pk bytes sig)) verification_failed _ k₇ in
      let same : alg ≡ codes "ed25519" = bytes_eq→eq alg (codes "ed25519") (not-false known) in
      subst (IsSigned crypto scheme raw block) (ok_eq k₈) (record {
        sig_b64 = sig_b64;
        pk = pk;
        sig = sig;
        bytes = bytes;
        alg = rw same at (field-eq block (codes "alg") alg h₀);
        key_id = field-eq block (codes "keyId") key_id e₁;
        public_key = field-eq block (codes "publicKey") public_key e₂;
        sig_text = field-eq block (codes "sig") sig_b64 e₃;
        pk_decoded = ok_or-eq-ok (crypto.decode_b64 public_key) bad_public_key_encoding hpk;
        pk_length = ground arith;
        pk_id = bytes_eq→eq (key_id_for crypto pk) key_id (not-false id);
        sig_decoded = ok_or-eq-ok (crypto.decode_b64 sig_b64) bad_sig_encoding hsig;
        sig_length = ground arith;
        point = not-false point;
        signable = hb;
        valid = not-false valid;
      })
    where
      ok_eq :
          {a b : VerifiedSignature}
          → ◌≡◌ {A = Result SignatureFault VerifiedSignature} (ok a) (ok b)
          → a ≡ b
      ok_eq e = cc

      not-false : {b : Bool} → not b ≡ false → b ≡ true
      not-false {b = true} e = refl
      not-false {b = false} e = cc

  check_signature-IsSigned :
      (raw : Value) (block : Members) (v : VerifiedSignature)
      (s : IsSigned crypto scheme raw block v)
      → check_signature crypto scheme raw v.key_id v.public_key_b64 s.sig_b64 ≡ ok v
  unfolding check_signature
  check_signature-IsSigned raw block v s =
      let id : bytes_eq (key_id_for crypto s.pk) v.key_id ≡ true =
        rw s.pk_id (bytes_eq_refl v.key_id) in
      let long = s.pk_length in
      let sig_long = s.sig_length in
      rw s.pk_decoded (
        rw long
          (rw id (rw s.sig_decoded (rw sig_long (rw s.point (rw s.signable (rw s.valid refl)))))))

  IsSigned-verify_block :
      (raw : Value) (block : Members) (v : VerifiedSignature)
      → IsSigned crypto scheme raw block v
      → verify_block crypto scheme raw block ≡ ok v
  unfolding verify_block field
  IsSigned-verify_block raw block v s = rw s.alg (
      rw (bytes_eq_refl (codes "ed25519"))
        (rw s.key_id (rw s.public_key (rw s.sig_text (check_signature-IsSigned raw block v s)))))

  verify_member-IsVerified :
      (map : Members) (o : Option Value) (r : Option VerifiedSignature)
      → get_member (codes "signature") map ≡ o
      → verify_member crypto scheme (object map) o ≡ ok r
      → IsVerified map r
  unfolding verify_member
  verify_member-IsVerified map none none e h = e
  verify_member-IsVerified map none (some v) e h = absurd cc
  verify_member-IsVerified map (some value) r e h =
      let (block, hb, h₁) = >>=-eq-ok (ok_or (as_object value) signature_not_object) _ h in
      let (v, hv, h₂) = >>=-eq-ok (verify_block crypto scheme (object map) block) _ h₁ in
      let same : some v ≡ r = cc in
      let is_object =
        as_object-eq value block (ok_or-eq-ok (as_object value) signature_not_object hb) in
      subst (IsVerified map) same
        (block, rw is_object at e, verify_block-IsSigned (object map) block v hv)

  IsVerified-verify_member :
      (map : Members) (r : Option VerifiedSignature)
      → IsVerified map r
      → verify_member crypto scheme (object map) (get_member (codes "signature") map) ≡ ok r
  unfolding verify_member
  IsVerified-verify_member map none e = rw e refl
  IsVerified-verify_member map (some v) (block, e, s) =
      rw e (rw (IsSigned-verify_block (object map) block v s) refl)

-- Verifying a manifest that is a JSON object gives that it is unsigned exactly if it has no member
-- `signature`. It gives a key id and a public key exactly if that member is an object whose members
-- `keyId` and `publicKey` are these texts, whose `alg` is "ed25519", whose `publicKey` is base64 for 32
-- bytes that are a point and have this key id, and whose `sig` is base64 for 64 bytes that the scheme
-- accepts, under this key, as the signature of the bytes that a signature of the manifest covers. It is
-- an error otherwise.
pub verify_manifest_iff :
    (crypto : Crypto) (scheme : Scheme) (map : Members) (r : Option VerifiedSignature)
    → (verify_manifest crypto scheme (object map) ≡ ok r) ↔ IsVerified crypto scheme map r
unfolding verify_manifest
verify_manifest_iff crypto scheme map r = (
  verify_member-IsVerified crypto scheme map (get_member (codes "signature") map) r refl,
  IsVerified-verify_member crypto scheme map r,
)
