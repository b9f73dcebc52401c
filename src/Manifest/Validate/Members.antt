-- ===== src/Manifest/Validate/Members.antt =====
-- crates/murl-core/src/manifest.rs: `validate_unknown_members` and `validate_numbers`.
use m_url.Base.{ℕ, suc, not, List, [], ◌∷◌, ◌++◌, Option, none, some, any}
use m_url.Base.Text.{Bytes, codes, bytes_eq}
use m_url.Base.Decimal.{show}
use m_url.Manifest.Json.{Value, fraction, array, object, Items, nil, cons, Members, end, member}
use m_url.Trust.Verify.{get_member, as_object}
use m_url.Manifest.Validate.Types.{
  Finding, error_at, warn_if, item_path, non_integer, unknown_member,
}

abbrev pub top_members : List Bytes
top_members =
    codes "murlVersion"
    ∷ codes "id"
    ∷ codes "name"
    ∷ codes "description"
    ∷ codes "version"
    ∷ codes "notBefore"
    ∷ codes "expires"
    ∷ codes "resources"
    ∷ codes "relations"
    ∷ codes "signature"
    ∷ []

abbrev pub resource_members : List Bytes
resource_members =
    codes "id"
    ∷ codes "kind"
    ∷ codes "target"
    ∷ codes "label"
    ∷ codes "role"
    ∷ codes "required"
    ∷ codes "order"
    ∷ codes "dependsOn"
    ∷ codes "tags"
    ∷ codes "integrity"
    ∷ codes "meta"
    ∷ []

abbrev pub relation_members : List Bytes
relation_members = codes "from" ∷ codes "rel" ∷ codes "to" ∷ []

abbrev pub signature_members : List Bytes
signature_members = codes "alg" ∷ codes "keyId" ∷ codes "publicKey" ∷ codes "sig" ∷ []

-- The loop over the names of an object; `prefix` gives the path of a name.
unfoldable pub unknown_names : List Bytes → (Bytes → Bytes) → Members → List Finding
unknown_names known prefix end = []
unknown_names known prefix (member k v map) =
    warn_if (not (any (bytes_eq k) known)) (prefix k) unknown_member
    ++ unknown_names known prefix map

abbrev pub unknown_in : List Bytes → (Bytes → Bytes) → Option Members → List Finding
unknown_in known prefix none = []
unknown_in known prefix (some map) = unknown_names known prefix map

-- The loop over an array of objects, from index `i` on.
unfoldable pub unknown_in_items : List Bytes → Bytes → ℕ → Items → List Finding
unknown_in_items known name i nil = []
unknown_in_items known name i (cons v items) =
    unknown_in known (item_path name i) (as_object v) ++ unknown_in_items known name (suc i) items

-- `obj.get(name).and_then(Value::as_array)`
abbrev pub items_of : Option Value → Items
items_of (some (array items)) = items
items_of _ = nil

abbrev pub members_of : Option Value → Option Members
members_of none = none
members_of (some v) = as_object v

unfoldable pub unknown_in_object : Option Members → List Finding
unknown_in_object none = []
unknown_in_object (some obj) =
    unknown_names top_members (λ k. b'/' ∷ k) obj
    ++ (unknown_in_items resource_members (codes "resources") 0
          (items_of (get_member (codes "resources") obj))
        ++ (unknown_in_items relation_members (codes "relations") 0
              (items_of (get_member (codes "relations") obj))
            ++ unknown_in signature_members (λ k. codes "/signature/" ++ k)
                (members_of (get_member (codes "signature") obj))))

unfoldable pub validate_unknown_members : Value → List Finding
validate_unknown_members raw = unknown_in_object (as_object raw)

-- `walk`, with the loops over items and members.
unfoldable mutual
  pub walk : Value → Bytes → List Finding
  walk (fraction t) path = error_at path non_integer ∷ []
  walk (array items) path = walk_items items path 0
  walk (object map) path = walk_members map path
  walk _ path = []

  pub walk_items : Items → Bytes → ℕ → List Finding
  walk_items nil path i = []
  walk_items (cons v items) path i = walk v (path ++ b'/' ∷ show i) ++ walk_items items path (suc i)

  pub walk_members : Members → Bytes → List Finding
  walk_members end path = []
  walk_members (member k v map) path = walk v (path ++ b'/' ∷ k) ++ walk_members map path

unfoldable pub validate_numbers : Value → List Finding
validate_numbers raw = walk raw []
