-- ===== src/Manifest/Validate/Relations.antt =====
-- crates/murl-core/src/manifest.rs: `validate_relations` and `validate_signature_shape`.
use m_url.Base.{
  ℕ, suc, Bool, false, not, ◌&&◌, ◌||◌, List, [], ◌∷◌, ◌++◌, Option, none, some, ltb, leb, ◌==◌,
  length, all, any,
}
use m_url.Base.Text.{Bytes, codes, bytes_eq, is_empty, is_lower, is_digit, strip_prefix}
use m_url.Grammar.{all_indexed}
use m_url.Manifest.Types.{ResourceDoc, Relation, SignatureBlock}
use m_url.Trust.Store.{Crypto}
use m_url.Manifest.Validate.Types.{
  Finding, error_if, item_path, max_relations, too_many, unknown_id, bad_grammar,
  unsupported_algorithm, bad_encoding,
}

unfoldable pub is_known_id : List ResourceDoc → Bytes → Bool
is_known_id resources id = any (λ r. bytes_eq r.id id) resources

-- `[a-z][a-z-]{0,31}`
unfoldable pub is_valid_rel : Bytes → Bool
is_valid_rel rel =
    not (is_empty rel)
    && leb (length rel) 32
    && all_indexed is_lower (λ b. is_lower b || b == b'-') rel

unfoldable pub relation_findings : List ResourceDoc → ℕ → Relation → List Finding
relation_findings resources i rel =
    error_if (not (is_known_id resources rel.from)) (item_path (codes "relations") i (codes "from"))
      unknown_id
    ++ (error_if (not (is_known_id resources rel.to)) (item_path (codes "relations") i (codes "to"))
          unknown_id
        ++ error_if (not (is_valid_rel rel.rel)) (item_path (codes "relations") i (codes "rel"))
            bad_grammar)

unfoldable pub relations_findings : List ResourceDoc → ℕ → List Relation → List Finding
relations_findings resources i [] = []
relations_findings resources i (rel ∷ rels) =
    relation_findings resources i rel ++ relations_findings resources (suc i) rels

unfoldable pub validate_relations : List ResourceDoc → List Relation → List Finding
validate_relations resources relations =
    error_if (ltb max_relations (length relations)) (codes "/relations") too_many
    ++ relations_findings resources 0 relations

-- `Ok(bytes) if bytes.len() == len`
abbrev pub has_length : ℕ → Option Bytes → Bool
has_length len none = false
has_length len (some bytes) = length bytes == len

abbrev pub is_lower_hex_digit : ℕ → Bool
is_lower_hex_digit b = is_digit b || (leb b'a' b && leb b b'f')

abbrev pub is_hex_id : Option Bytes → Bool
is_hex_id none = false
is_hex_id (some hex) = length hex == 16 && all is_lower_hex_digit hex

unfoldable pub validate_signature_shape : Crypto → Option SignatureBlock → List Finding
validate_signature_shape crypto none = []
validate_signature_shape crypto (some sig) =
    error_if (not (bytes_eq sig.alg (codes "ed25519"))) (codes "/signature/alg")
      unsupported_algorithm
    ++ (error_if (not (has_length 32 (crypto.decode_b64 sig.public_key)))
          (codes "/signature/publicKey") bad_encoding
        ++ (error_if (not (has_length 64 (crypto.decode_b64 sig.sig))) (codes "/signature/sig")
              bad_encoding
            ++ error_if (not (is_hex_id (strip_prefix (codes "ed25519:") sig.key_id)))
                (codes "/signature/keyId") bad_grammar))
