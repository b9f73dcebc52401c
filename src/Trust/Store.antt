-- ===== src/Trust/Store.antt =====
-- crates/murl-core/src/trust.rs: `key_id_for`, the store of pinned keys, and integrity pins. Base64,
-- SHA-256, the curve and the file system are parameters.
use m_url.Base.{
  ℕ, ◌+◌, ◌-◌, ◌/◌, ◌%◌, Bool, true, false, not, List, [], ◌∷◌, ◌++◌, Option, none, some, Result,
  ok, err, ◌>>=◌, ◌>>◌, refuse_if, ok_or, map_err, ltb, ◌==◌, if◌then◌else◌, length, take, any,
  retain,
}
use m_url.Base.Text.{Bytes, codes, bytes_eq, is_empty, strip_prefix}
use m_url.Murl.Types.{MurlParseError}
use m_url.Murl.Parse.{parse}
use m_url.Murl.Authority.{show_authority}

pub record PinnedKey : Type 0 where
  pub key_id : Bytes
  pub public_key : Bytes
  pub added_at : Option ℕ

-- The map `authorities`, in the order of its names.
abbrev pub Authorities : Type 0
Authorities = List (Bytes × List PinnedKey)

pub record TrustStore : Type 0 where
  pub path : Bytes
  pub authorities : Authorities

pub data TrustFault : Type 0 where
  bad_authority : MurlParseError → TrustFault
  bad_key_encoding key_length bad_point : TrustFault
  bad_integrity_algorithm bad_integrity_encoding integrity_mismatch : TrustFault
  not_saved : Bytes → TrustFault

-- What the libraries offer: base64, SHA-256, and whether 32 bytes are a point of the curve.
pub record Crypto : Type 0 where
  pub encode_b64 : Bytes → Bytes
  pub decode_b64 : Bytes → Option Bytes
  pub sha256 : Bytes → Bytes
  pub is_point : Bytes → Bool

-- Writing the store to a file, with the error if that fails.
pub record Disk : Type 0 where
  pub write : Bytes → Authorities → Option Bytes

abbrev pub lower_hex_digit : ℕ → ℕ
lower_hex_digit n = if ltb n 10 then b'0' + n else b'a' + n - 10

unfoldable pub hex : Bytes → Bytes
hex [] = []
hex (b ∷ s) = lower_hex_digit (b / 16) ∷ lower_hex_digit (b % 16) ∷ hex s

-- `bytes_lt a b`: the order of the map's names.
unfoldable pub bytes_lt : Bytes → Bytes → Bool
bytes_lt [] [] = false
bytes_lt [] (d ∷ t) = true
bytes_lt (c ∷ s) [] = false
bytes_lt (c ∷ s) (d ∷ t) = let rest = bytes_lt s t in if c == d then rest else ltb c d

unfoldable pub find_keys : Bytes → Authorities → Option (List PinnedKey)
find_keys name [] = none
find_keys name ((key, keys) ∷ rest) =
    let later = find_keys name rest in if bytes_eq key name then some keys else later

-- The list of a name that is in the map, replaced.
unfoldable pub replace_keys : Bytes → List PinnedKey → Authorities → Authorities
replace_keys name new [] = []
replace_keys name new ((key, keys) ∷ rest) =
    let later = replace_keys name new rest in
    if bytes_eq key name then (key, new) ∷ rest else (key, keys) ∷ later

-- A name that is not in the map yet.
unfoldable pub insert_keys : Bytes → List PinnedKey → Authorities → Authorities
insert_keys name new [] = (name, new) ∷ []
insert_keys name new ((key, keys) ∷ rest) =
    let later = insert_keys name new rest in
    if bytes_lt name key then (name, new) ∷ (key, keys) ∷ rest else (key, keys) ∷ later

unfoldable pub remove_keys : Bytes → Authorities → Authorities
remove_keys name [] = []
remove_keys name ((key, keys) ∷ rest) =
    let later = remove_keys name rest in if bytes_eq key name then later else (key, keys) ∷ later

abbrev pub has_id : Bytes → PinnedKey → Bool
has_id id k = bytes_eq k.key_id id

unfoldable pub normalize_authority : Bytes → Result TrustFault Bytes
normalize_authority authority = do
  m ← map_err bad_authority (parse (codes "murl://" ++ (authority ++ codes "/x")))
  ok (show_authority m.authority)

-- `entry.push(…)` unless the key is there.
abbrev pub push_key : List PinnedKey → PinnedKey → List PinnedKey
push_key keys k = if any (has_id k.key_id) keys then keys else keys ++ k ∷ []

-- `entry(authority).or_default()`, and the push to it.
unfoldable pub pin : Bytes → PinnedKey → Option (List PinnedKey) → Authorities → Authorities
pin name k none m = insert_keys name (push_key [] k) m
pin name k (some keys) m = replace_keys name (push_key keys k) m

-- What `remove` does to the list of the authority.
unfoldable pub unpin : Bytes → Bytes → Option (List PinnedKey) → Authorities → Authorities × Bool
unpin name id none m = (m, false)
unpin name id (some keys) m =
    let left = retain (λ k. not (has_id id k)) keys in
    (
      if length left == 0 then remove_keys name m else replace_keys name left m,
      not (length left == length keys),
    )

module _ (crypto : Crypto) where
  unfoldable pub sha256_hex : Bytes → Bytes
  sha256_hex bytes = hex (crypto.sha256 bytes)

  unfoldable pub key_id_for : Bytes → Bytes
  key_id_for public_key = codes "ed25519:" ++ take 16 (sha256_hex public_key)

  unfoldable pub make_integrity : Bytes → Bytes
  make_integrity bytes = codes "sha256-" ++ crypto.encode_b64 (crypto.sha256 bytes)

  unfoldable pub check_integrity : Bytes → Bytes → Result TrustFault (Unit {0})
  check_integrity bytes integrity = do
    expected_b64 ← ok_or (strip_prefix (codes "sha256-") integrity) bad_integrity_algorithm
    expected ← ok_or (crypto.decode_b64 expected_b64) bad_integrity_encoding
    refuse_if (not (bytes_eq expected (crypto.sha256 bytes))) integrity_mismatch

  -- The checks of `add`: the normalized authority and the key's id.
  unfoldable pub check_key : Bytes → Bytes → Result TrustFault (Bytes × Bytes)
  check_key authority public_key_b64 = do
    name ← normalize_authority authority
    pk ← ok_or (crypto.decode_b64 public_key_b64) bad_key_encoding
    refuse_if (not (length pk == 32)) key_length
    refuse_if (not (crypto.is_point pk)) bad_point
    ok (name, key_id_for pk)

unfoldable pub save : Disk → TrustStore → Result TrustFault (Unit {0})
save disk store =
    if is_empty store.path then ok tt else elim (disk.write store.path store.authorities) [
      | none ↦ ok tt
      | some e ↦ err (not_saved e)
    ]

-- The result of an operation after the store is saved; the store in memory is changed either way.
abbrev pub saved {ℓ} : {A : Type ℓ} → Disk → TrustStore → A → Result TrustFault A × TrustStore
saved disk store a = ((do save disk store; ok a), store)

unfoldable pub add_checked :
    Disk
    → TrustStore
    → Bytes
    → ℕ
    → Result TrustFault (Bytes × Bytes)
    → Result TrustFault Bytes × TrustStore
add_checked disk store public_key now (err e) = (err e, store)
add_checked disk store public_key now (ok (name, id)) =
    let key : PinnedKey = record { key_id = id; public_key = public_key; added_at = some now } in
    saved disk
      (record store {
        authorities = pin name key (find_keys name store.authorities) store.authorities;
      })
      id

unfoldable pub add :
    Crypto → Disk → TrustStore → Bytes → Bytes → ℕ → Result TrustFault Bytes × TrustStore
add crypto disk store authority public_key_b64 now =
    add_checked disk store public_key_b64 now (check_key crypto authority public_key_b64)

unfoldable pub remove_checked :
    Disk → TrustStore → Bytes → Result TrustFault Bytes → Result TrustFault Bool × TrustStore
remove_checked disk store id (err e) = (err e, store)
remove_checked disk store id (ok name) =
    let (left, removed) = unpin name id (find_keys name store.authorities) store.authorities in
    saved disk (record store { authorities = left }) removed

unfoldable pub remove : Disk → TrustStore → Bytes → Bytes → Result TrustFault Bool × TrustStore
remove disk store authority id = remove_checked disk store id (normalize_authority authority)

-- Whether the keys of an authority, if there are any, hold the id.
abbrev pub holds : Bytes → Option (List PinnedKey) → Bool
holds id none = false
holds id (some keys) = any (has_id id) keys

unfoldable pub is_trusted_name : TrustStore → Bytes → Result TrustFault Bytes → Bool
is_trusted_name store id (err e) = false
is_trusted_name store id (ok name) = holds id (find_keys name store.authorities)

unfoldable pub is_trusted : TrustStore → Bytes → Bytes → Bool
is_trusted store authority id = is_trusted_name store id (normalize_authority authority)
