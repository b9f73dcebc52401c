-- ===== src/Trust/Signed.antt =====
-- Signed manifests verify, and the signed bytes tell manifests apart.
use m_url.Base.{
  ◌≡◌, refl, inl, inr, true, some, Result, ok, err, >>=-eq-ok, ok_or, map_err, Bool-cases, length,
}
use m_url.Base.Text.{Bytes, codes, bytes_eq}
use m_url.Base.Text.Equality.{bytes_eq_refl}
use m_url.Manifest.Json.{Value, object, Members, end, member}
use m_url.Canonical.{CanonicalError}
use m_url.Canonical.Unique.{canonical_json_bytes-injective}
use m_url.Trust.Store.{Crypto, bytes_lt, key_id_for}
use m_url.Trust.Verify.{
  Scheme, SignatureFault, not_object, not_canonical, VerifiedSignature, get_member, remove_member,
  insert_member, as_object, signable_members, signable_bytes, field, signature_block, sign_manifest,
  check_signature, verify_block, verify_member, verify_manifest,
}

get_member-insert_member :
    (k : Bytes) (w : Value) (map : Members) → get_member k (insert_member k w map) ≡ some w
unfolding get_member insert_member
get_member-insert_member k w end = rw (bytes_eq_refl k) refl
get_member-insert_member k w (member n v map) = elim (Bool-cases (bytes_eq n k)) [
  | inl e ↦ rw e (rw e refl)
  | inr e ↦ elim (Bool-cases (bytes_lt k n)) [
    | inl l ↦ rw e (rw l (rw (bytes_eq_refl k) refl))
    | inr l ↦ rw e (rw l (rw e (get_member-insert_member k w map)))
  ]
]

remove_member-insert_member :
    (k : Bytes) (w : Value) (map : Members)
    → remove_member k (insert_member k w map) ≡ remove_member k map
unfolding remove_member insert_member
remove_member-insert_member k w end = rw (bytes_eq_refl k) refl
remove_member-insert_member k w (member n v map) = elim (Bool-cases (bytes_eq n k)) [
  | inl e ↦ rw e (rw e refl)
  | inr e ↦ elim (Bool-cases (bytes_lt k n)) [
    | inl l ↦ rw e (rw l (rw (bytes_eq_refl k) (rw e refl)))
    | inr l ↦ rw e (rw l (rw e (rw (remove_member-insert_member k w map) refl)))
  ]
]

module _ (crypto : Crypto) (scheme : Scheme) (secret : Bytes) where
  -- What verification needs of base64 and of the scheme, at one key.
  pub record IsLawful : Type 0 where
    pub decodes : (s : Bytes) → crypto.decode_b64 (crypto.encode_b64 s) ≡ some s
    pub key_length : length (scheme.public_key secret) ≡ 32
    pub key_valid : crypto.is_point (scheme.public_key secret) ≡ true
    pub sig_length : (m : Bytes) → length (scheme.sign secret m) ≡ 64
    pub verifies :
        (m : Bytes) → scheme.verify (scheme.public_key secret) m (scheme.sign secret m) ≡ true

  -- What `verify_manifest` gives for this key.
  abbrev pub own_signature : VerifiedSignature
  own_signature = record {
    key_id = key_id_for crypto (scheme.public_key secret);
    public_key_b64 = crypto.encode_b64 (scheme.public_key secret);
  }

  verify_block-signature_block :
      (raw : Value) (bytes : Bytes)
      → IsLawful
      → signable_bytes raw ≡ ok bytes
      → verify_block crypto scheme raw (signature_block crypto scheme secret bytes)
        ≡ ok own_signature
  unfolding verify_block check_signature signature_block field get_member bytes_eq
  verify_block-signature_block raw bytes laws signable =
      let long = laws.key_length in
      let sig_long = laws.sig_length bytes in
      rw (laws.decodes (scheme.public_key secret)) (
        rw long (
          rw (bytes_eq_refl (key_id_for crypto (scheme.public_key secret))) (
            rw (laws.decodes (scheme.sign secret bytes))
              (rw sig_long (rw laws.key_valid (rw signable (rw (laws.verifies bytes) refl)))))))

  sign_object :
      (map : Members) (bytes : Bytes)
      → IsLawful
      → signable_members map ≡ ok bytes
      → verify_manifest crypto scheme (
          object (
            insert_member
              (codes "signature")
              (object (signature_block crypto scheme secret bytes))
              map))
        ≡ ok (some own_signature)
  unfolding verify_manifest verify_member signable_bytes signable_members
  sign_object map bytes laws signable =
      let block = signature_block crypto scheme secret bytes in
      rw (get_member-insert_member (codes "signature") (object block) map) (
        rw
          (verify_block-signature_block
            (object (insert_member (codes "signature") (object block) map)) bytes laws
            (rw (remove_member-insert_member (codes "signature") (object block) map) signable))
          refl)

-- A manifest whose signed bytes exist can be signed by any key for which base64 and the signature
-- scheme do what they promise, also when it carries a signature already; the signed manifest verifies,
-- with that key's id and public key.
pub verify_manifest-sign_manifest :
    (crypto : Crypto) (scheme : Scheme) (secret bytes : Bytes) (raw : Value)
    → IsLawful crypto scheme secret
    → signable_bytes raw ≡ ok bytes
    → (signed : Value) × (sign_manifest crypto scheme secret raw ≡ ok signed)
      × (verify_manifest crypto scheme signed ≡ ok (some (own_signature crypto scheme secret)))
unfolding sign_manifest signable_bytes
verify_manifest-sign_manifest crypto scheme secret bytes raw laws h =
    let (map, hm, hb) = >>=-eq-ok (ok_or (as_object raw) not_object) signable_members h in
    (
      object (
          insert_member (codes "signature") (object (signature_block crypto scheme secret bytes))
            map),
      rw hm (rw hb refl),
      sign_object crypto scheme secret map bytes laws hb,
    )

-- Two manifests with the same signed bytes differ at most in their signature: a signature covers every
-- other member.
pub signable_bytes-injective :
    (map map' : Members) (bytes : Bytes)
    → signable_bytes (object map) ≡ ok bytes
    → signable_bytes (object map') ≡ ok bytes
    → remove_member (codes "signature") map ≡ remove_member (codes "signature") map'
unfolding signable_bytes signable_members
signable_bytes-injective map map' bytes h h' =
    let same =
      canonical_json_bytes-injective (object (remove_member (codes "signature") map))
        (object (remove_member (codes "signature") map')) bytes (map_err-ok _ bytes h)
        (map_err-ok _ bytes h') in
    cc
  where
    map_err-ok :
        (x : Result CanonicalError Bytes) (b : Bytes)
        → map_err {E = CanonicalError} {F = SignatureFault} (λ e. not_canonical) x ≡ ok b
        → x ≡ ok b
    map_err-ok (ok a) b h = cc
    map_err-ok (err e) b h = absurd cc
