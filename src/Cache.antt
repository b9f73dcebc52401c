-- ===== src/Cache.antt =====
-- crates/murl-core/src/cache.rs: the cache of remote manifests. The files of the cache directory are a
-- list of names and contents; the JSON form of an entry's metadata, the hash, and which operations the file system
-- refuses are parameters. A write that is refused leaves the files as they were, a file that is there can be
-- read, and a directory that does not exist is one without files.
pub mod Lookup
mod Tests
use m_url.Base.{
  ℕ, suc, ◌+◌, ◌-◌, ◌^◌, Bool, true, false, not, ◌&&◌, ◌||◌, List, [], ◌∷◌, ◌++◌, Option, none,
  some, Result, ok, err, ◌>>=◌, ◌>>◌, refuse_if, ltb, ◌==◌, if◌then◌else◌, length,
}
use m_url.Base.Text.{Bytes, codes, bytes_eq, ends_with_text}
use m_url.Trust.Store.{Crypto, sha256_hex, bytes_lt}

pub record CacheMeta : Type 0 where
  pub identity : Bytes
  pub url : Bytes
  pub fetched_at : ℕ
  pub sha256 : Bytes

pub record CacheEntry : Type 0 where
  pub bytes : Bytes
  pub meta : CacheMeta
  pub fresh : Bool

-- The files of the cache directory.
abbrev pub Files : Type 0
Files = List (Bytes × Bytes)

-- The JSON form of the metadata, and the calls that the file system lets through.
pub record Storage : Type 0 where
  pub encode : CacheMeta → Bytes
  pub decode : Bytes → Option CacheMeta
  pub can_create : Bool
  pub can_write : Bytes → Bool
  pub can_remove : Bytes → Bool
  pub can_list : Bool

pub data CacheFault : Type 0 where
  not_created not_listed : CacheFault
  not_written not_removed : Bytes → CacheFault

unfoldable pub read_file : Bytes → Files → Option Bytes
read_file name [] = none
read_file name ((n, content) ∷ files) =
    let rest = read_file name files in if bytes_eq n name then some content else rest

unfoldable pub remove_file : Bytes → Files → Files
remove_file name [] = []
remove_file name ((n, content) ∷ files) =
    let rest = remove_file name files in if bytes_eq n name then rest else (n, content) ∷ rest

unfoldable pub write_file : Bytes → Bytes → Files → Files
write_file name content files = (name, content) ∷ remove_file name files

abbrev pub is_there : Option Bytes → Bool
is_there none = false
is_there (some content) = true

abbrev pub max_u64 : ℕ
max_u64 = 18446744073709551615

-- `a.saturating_add(b)`
abbrev pub saturating_add : ℕ → ℕ → ℕ
saturating_add a b = if ltb max_u64 (a + b) then max_u64 else a + b

unfoldable pub is_fresh : ℕ → ℕ → ℕ → Bool
is_fresh ttl_secs fetched_at now =
    if ttl_secs == max_u64 then true else ltb now (saturating_add fetched_at ttl_secs)

abbrev pub or_none : Option Bytes → (Bytes → Option CacheMeta) → Option CacheMeta
or_none none f = none
or_none (some s) f = f s

module _ (crypto : Crypto) (storage : Storage) where
  -- The two paths, as names in the directory.
  unfoldable pub data_path : Bytes → Bytes
  data_path identity = sha256_hex crypto identity ++ codes ".murl.json"

  unfoldable pub meta_path : Bytes → Bytes
  meta_path identity = sha256_hex crypto identity ++ codes ".meta.json"

  -- `std::fs::remove_file(path).ok()`
  unfoldable pub try_remove : Bytes → Files → Files
  try_remove name files = if storage.can_remove name then remove_file name files else files

  -- What `get` does with the bytes and the metadata that it read.
  unfoldable pub check_entry :
      Bytes → ℕ → ℕ → Files → Option Bytes → Option CacheMeta → Option CacheEntry × Files
  check_entry identity ttl_secs now files none meta = (none, files)
  check_entry identity ttl_secs now files (some bytes) none = (none, files)
  check_entry identity ttl_secs now files (some bytes) (some meta) =
      if not (bytes_eq meta.identity identity)
        || not (bytes_eq (sha256_hex crypto bytes) meta.sha256)
      then (none, try_remove (meta_path identity) (try_remove (data_path identity) files))
      else (
        some (record { bytes = bytes; meta = meta; fresh = is_fresh ttl_secs meta.fetched_at now }),
        files,
      )

  unfoldable pub get : Bytes → ℕ → ℕ → Files → Option CacheEntry × Files
  get identity ttl_secs now files =
      check_entry identity ttl_secs now files (read_file (data_path identity) files)
        (or_none (read_file (meta_path identity) files) storage.decode)

  abbrev pub meta_of : Bytes → Bytes → Bytes → ℕ → CacheMeta
  meta_of identity url bytes now = record {
    identity = identity;
    url = url;
    fetched_at = now;
    sha256 = sha256_hex crypto bytes;
  }

  -- `std::fs::write(path, content)?`, on the files and the outcome so far.
  unfoldable pub try_write :
      Bytes → Bytes → Result CacheFault (Unit {0}) × Files → Result CacheFault (Unit {0}) × Files
  try_write name content (err e, files) = (err e, files)
  try_write name content (ok u, files) =
      if storage.can_write name
      then (ok tt, write_file name content files)
      else (err (not_written name), files)

  -- `std::fs::create_dir_all(&self.dir)?`
  unfoldable pub create_dir : Files → Result CacheFault (Unit {0}) × Files
  create_dir files = if storage.can_create then (ok tt, files) else (err not_created, files)

  unfoldable pub put : Bytes → Bytes → Bytes → ℕ → Files → Result CacheFault (Unit {0}) × Files
  put identity url bytes now files =
      try_write (meta_path identity) (storage.encode (meta_of identity url bytes now))
        (try_write (data_path identity) bytes (create_dir files))

  -- `if path.exists() { std::fs::remove_file(path)?; }`
  unfoldable pub remove_existing :
      Bytes → Result CacheFault (Unit {0}) × Files → Result CacheFault (Unit {0}) × Files
  remove_existing name (err e, files) = (err e, files)
  remove_existing name (ok u, files) =
      if is_there (read_file name files)
      then (if storage.can_remove name
          then (ok tt, remove_file name files)
          else (err (not_removed name), files))
      else (ok tt, files)

  -- `evict`, whose result tells whether the entry existed.
  unfoldable pub evict : Bytes → Files → Result CacheFault Bool × Files
  evict identity files =
      let existed =
        is_there (read_file (data_path identity) files)
        || is_there (read_file (meta_path identity) files) in
      let (r, left) =
        remove_existing (meta_path identity)
          (remove_existing (data_path identity) (ok tt, files)) in
      ((do r; ok existed), left)

  abbrev pub cons_meta : Option CacheMeta → List CacheMeta → List CacheMeta
  cons_meta none ms = ms
  cons_meta (some m) ms = m ∷ ms

  -- The loop of `list` over the directory.
  unfoldable pub metas : Files → List CacheMeta
  metas [] = []
  metas ((name, content) ∷ files) =
      let rest = metas files in
      if ends_with_text (codes ".meta.json") name
      then cons_meta (storage.decode content) rest
      else rest

  -- `out.sort_by(|a, b| a.identity.cmp(&b.identity))`, which is stable.
  unfoldable pub insert_meta : CacheMeta → List CacheMeta → List CacheMeta
  insert_meta m [] = m ∷ []
  insert_meta m (n ∷ ms) =
      let rest = insert_meta m ms in if bytes_lt n.identity m.identity then n ∷ rest else m ∷ n ∷ ms

  unfoldable pub sort_metas : List CacheMeta → List CacheMeta
  sort_metas [] = []
  sort_metas (m ∷ ms) = insert_meta m (sort_metas ms)

  unfoldable pub list : Files → Result CacheFault (List CacheMeta)
  list [] = ok []
  list files = if storage.can_list then ok (sort_metas (metas files)) else err not_listed

  -- The loop of `clear`.
  unfoldable pub evict_all : List CacheMeta → Files → Result CacheFault (Unit {0}) × Files
  evict_all [] files = (ok tt, files)
  evict_all (m ∷ ms) files =
      let (r, left) = evict m.identity files in
      elim r [ ok existed ↦ evict_all ms left | err e ↦ (err e, left) ]

  -- The entries that `clear` found, and what evicting them gave.
  unfoldable pub clear_listed :
      Files → Result CacheFault (List CacheMeta) → Result CacheFault ℕ × Files
  clear_listed files (err e) = (err e, files)
  clear_listed files (ok entries) =
      let (r, left) = evict_all entries files in ((do r; ok (length entries)), left)

  unfoldable pub clear : Files → Result CacheFault ℕ × Files
  clear files = clear_listed files (list files)
