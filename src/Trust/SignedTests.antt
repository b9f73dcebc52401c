-- ===== src/Trust/SignedTests.antt =====
-- Signing and verifying a manifest, and the properties there.
use m_url.Base.Text.{
  bytes_eq, lowercase, contains, strip_prefix, starts_with, ends_with, ends_with_text, split_once,
  rsplit_once, split_by, split, first_piece, last_piece, join,
}
use m_url.Base.Decimal.{show_from, show, digits_value}
use m_url.Canonical.{
  write_char, write_chars, write_string, write_integer, write_value, write_items, write_members,
  canonical_json_bytes,
}
use m_url.Trust.Store.{
  hex, bytes_lt, find_keys, replace_keys, insert_keys, remove_keys, normalize_authority, pin, unpin,
  sha256_hex, key_id_for, make_integrity, check_integrity, check_key, save, add_checked,
  remove_checked, remove, is_trusted_name, is_trusted,
}
use m_url.Trust.Verify.{
  get_member, remove_member, insert_member, signable_members, signable_bytes, field,
  signature_block, sign_manifest, check_signature, verify_block, verify_member, verify_manifest,
}
use m_url.Base.{ℕ, ◌↔◌, ◌≡◌, refl, true, [], ◌∷◌, some, ok, err, length, replicate}
use m_url.Base.Text.{Bytes, codes}
use m_url.Base.Text.Equality.{bytes_eq_refl}
use m_url.Manifest.Json.{Value, null, string, object, Members, end, member}
use m_url.Trust.Store.{Crypto}
use m_url.Trust.Verify.{Scheme, verification_failed}
use m_url.Trust.Signed.{IsLawful, own_signature, verify_manifest-sign_manifest}
use m_url.Trust.Verified.{IsVerified, verify_manifest_iff}

program : Unit {0}
unfolding bytes_eq lowercase contains strip_prefix starts_with ends_with ends_with_text split_once
    rsplit_once split_by split first_piece last_piece join show_from show digits_value write_char
    write_chars write_string write_integer write_value write_items write_members
    canonical_json_bytes hex bytes_lt find_keys replace_keys insert_keys remove_keys
    normalize_authority pin unpin sha256_hex key_id_for make_integrity check_integrity check_key
    save add_checked remove_checked remove is_trusted_name is_trusted get_member remove_member
    insert_member signable_members signable_bytes field signature_block sign_manifest
    check_signature verify_block verify_member verify_manifest
program = tt

-- Text stands for itself, and a hash is 32 times the first byte.
abbrev first : Bytes → ℕ
first [] = 0
first (c ∷ s) = c

abbrev plain : Crypto
plain = record {
  encode_b64 = λ s. s;
  decode_b64 = λ s. some s;
  sha256 = λ s. replicate 32 (first s);
  is_point = λ s. true;
}

-- A signature is 64 times the length of the message.
abbrev counting : Scheme
counting = record {
  public_key = λ secret. replicate 32 (first secret);
  sign = λ secret m. replicate 64 (length m);
  verify = λ pk m sig. bytes_eq sig (replicate 64 (length m));
}

abbrev secret : Bytes
secret = codes "k"

laws : IsLawful plain counting secret
unfolding program
laws = record {
  decodes = λ s. refl;
  key_length = refl;
  key_valid = refl;
  sig_length = λ m. refl;
  verifies = λ m. bytes_eq_refl (replicate 64 (length m));
}

abbrev members : Members
members = member (codes "name") (string (codes "x")) end

abbrev signed_bytes : Bytes
signed_bytes = codes "{\"name\":\"x\"}"

signable_sample : signable_bytes (object members) ≡ ok signed_bytes
unfolding program
signable_sample = refl

verify_manifest-sign_manifest_example :
    (signed : Value) × (sign_manifest plain counting secret (object members) ≡ ok signed)
    × (verify_manifest plain counting signed ≡ ok (some (own_signature plain counting secret)))
verify_manifest-sign_manifest_example =
    verify_manifest-sign_manifest plain counting secret signed_bytes (object members) laws
      signable_sample

abbrev signed_members : Members
signed_members =
    insert_member (codes "signature") (object (signature_block plain counting secret signed_bytes))
      members

verify_sample :
    verify_manifest plain counting (object signed_members)
    ≡ ok (some (own_signature plain counting secret))
unfolding program
verify_sample = refl

-- A member that is added behind the signer's back breaks the signature.
verify_changed :
    verify_manifest plain counting (object (insert_member (codes "extra") null signed_members))
    ≡ err verification_failed
unfolding program
verify_changed = refl

verify_manifest_iff_example :
    (verify_manifest plain counting (object signed_members)
      ≡ ok (some (own_signature plain counting secret)))
    ↔ IsVerified plain counting signed_members (some (own_signature plain counting secret))
verify_manifest_iff_example =
    verify_manifest_iff plain counting signed_members (some (own_signature plain counting secret))
