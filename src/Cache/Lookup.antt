-- ===== src/Cache/Lookup.antt =====
-- What the cache finds after it was written to and after an entry was evicted.
use m_url.Base.{
  ℕ, ◌≡◌, refl, inl, inr, Bool, false, [], ◌∷◌, ◌++◌, some, none, Result, ok, err, >>=-eq-ok,
  Bool-cases, Option-cases, arith,
}
use m_url.Base.Text.{Bytes, codes, bytes_eq}
use m_url.Base.Text.Equality.{bytes_eq→eq, bytes_eq_refl}
use m_url.Trust.Store.{Crypto, sha256_hex}
use m_url.Cache.{
  Files, Storage, CacheFault, read_file, remove_file, write_file, is_there, is_fresh, data_path,
  meta_path, create_dir, check_entry, get, meta_of, try_write, put, remove_existing, evict,
}

bytes_eq-append : (s a b : Bytes) → bytes_eq a b ≡ false → bytes_eq (s ++ a) (s ++ b) ≡ false
unfolding bytes_eq
bytes_eq-append [] a b h = h
bytes_eq-append (c ∷ s) a b h = rw (bytes_eq-append s a b h) (ground arith)

read-remove : (name : Bytes) (files : Files) → read_file name (remove_file name files) ≡ none
unfolding read_file remove_file
read-remove name [] = refl
read-remove name ((n, c) ∷ files) = elim (Bool-cases (bytes_eq n name)) [
  | inl e ↦ rw e (read-remove name files)
  | inr e ↦ rw e (rw e (read-remove name files))
]

module _ (name other : Bytes) (differ : bytes_eq name other ≡ false) where
  read-remove_other :
      (files : Files) → read_file other (remove_file name files) ≡ read_file other files
  unfolding read_file remove_file
  read-remove_other [] = refl
  read-remove_other ((n, c) ∷ files) = elim (Bool-cases (bytes_eq n name)) [
    | inl e ↦
        let same = bytes_eq→eq n name e in rw e (rw same (rw differ (read-remove_other files)))
    | inr e ↦ rw e (rw (read-remove_other files) refl)
  ]

  read-write_other :
      (c : Bytes) (files : Files)
      → read_file other (write_file name c files) ≡ read_file other files
  unfolding read_file write_file
  read-write_other c files = rw differ (read-remove_other files)

read-write : (name c : Bytes) (files : Files) → read_file name (write_file name c files) ≡ some c
unfolding read_file write_file
read-write name c files = rw (bytes_eq_refl name) refl

module _ (crypto : Crypto) (storage : Storage) (identity : Bytes) where
  paths-differ :
      bytes_eq (data_path crypto storage identity) (meta_path crypto storage identity) ≡ false
  unfolding data_path meta_path bytes_eq
  paths-differ =
      bytes_eq-append (sha256_hex crypto identity) (codes ".murl.json") (codes ".meta.json") refl

  paths-differ' :
      bytes_eq (meta_path crypto storage identity) (data_path crypto storage identity) ≡ false
  unfolding data_path meta_path bytes_eq
  paths-differ' =
      bytes_eq-append (sha256_hex crypto identity) (codes ".meta.json") (codes ".murl.json") refl

  abbrev data_name : Bytes
  data_name = data_path crypto storage identity

  abbrev meta_name : Bytes
  meta_name = meta_path crypto storage identity

  try_write-ok :
      (name content : Bytes) (x : Result CacheFault (Unit {0}) × Files)
      → (try_write crypto storage name content x).0 ≡ ok tt
      → (x.0 ≡ ok tt) × ((try_write crypto storage name content x).1 ≡ write_file name content x.1)
  unfolding try_write
  try_write-ok name content (err e, files) h = absurd cc
  try_write-ok name content (ok u, files) h = elim (Bool-cases (storage.can_write name)) [
    | inl e ↦ (refl, rw e refl)
    | inr e ↦ absurd (let h' = rw e at h in cc)
  ]

  create_dir-files :
      (files : Files)
      → (create_dir crypto storage files).0 ≡ ok tt
      → (create_dir crypto storage files).1 ≡ files
  unfolding create_dir
  create_dir-files files h = elim (Bool-cases storage.can_create) [
    | inl e ↦ rw e refl
    | inr e ↦ rw e refl
  ]

  -- The files after an entry was stored without an error.
  put-files :
      (url bytes : Bytes) (now : ℕ) (files : Files)
      → (put crypto storage identity url bytes now files).0 ≡ ok tt
      → (put crypto storage identity url bytes now files).1
        ≡ write_file meta_name
            (storage.encode (meta_of crypto storage identity url bytes now))
            (write_file data_name bytes files)
  unfolding put
  put-files url bytes now files h =
      let m = storage.encode (meta_of crypto storage identity url bytes now) in
      let (h₁, e₁) =
        try_write-ok meta_name m
          (try_write crypto storage data_name bytes (create_dir crypto storage files)) h in
      let (h₂, e₂) = try_write-ok data_name bytes (create_dir crypto storage files) h₁ in
      rw e₁ (rw e₂ (rw (create_dir-files files h₂) refl))

module _ (crypto : Crypto) (storage : Storage) (identity : Bytes) where
  found :
      (bytes meta : Bytes) (files : Files)
      → read_file (data_path crypto storage identity) (
          write_file
            (meta_path crypto storage identity)
            meta
            (write_file (data_path crypto storage identity) bytes files))
        ≡ some bytes
  found bytes meta files =
      rw
        (read-write_other (meta_path crypto storage identity) (data_path crypto storage identity)
          (paths-differ' crypto storage identity) meta
          (write_file (data_path crypto storage identity) bytes files))
        (read-write (data_path crypto storage identity) bytes files)

-- When its metadata can be read back, an entry that was stored without an error is found again, by
-- whatever time to live and at whatever time: with the same bytes, URL and time of storing, and
-- fresh as `is_fresh` tells; finding it leaves the files as they are.
pub get-put :
    (crypto : Crypto) (storage : Storage) (identity url bytes : Bytes) (now ttl_secs later : ℕ)
    (files : Files)
    → storage.decode (storage.encode (meta_of crypto storage identity url bytes now))
      ≡ some (meta_of crypto storage identity url bytes now)
    → (put crypto storage identity url bytes now files).0 ≡ ok tt
    → get crypto storage identity ttl_secs later (put crypto storage identity url bytes now files).1
      ≡ (
        some (record {
          bytes = bytes;
          meta = meta_of crypto storage identity url bytes now;
          fresh = is_fresh ttl_secs now later;
        }),
        (put crypto storage identity url bytes now files).1,
      )
unfolding get check_entry
get-put crypto storage identity url bytes now ttl_secs later files decodes h =
    rw (put-files crypto storage identity url bytes now files h) (
      rw
        (found crypto storage identity bytes
          (storage.encode (meta_of crypto storage identity url bytes now)) files)
        (rw
          (read-write (meta_path crypto storage identity)
            (storage.encode (meta_of crypto storage identity url bytes now))
            (write_file (data_path crypto storage identity) bytes files))
          (rw decodes
            (rw (bytes_eq_refl identity) (rw (bytes_eq_refl (sha256_hex crypto bytes)) refl)))))

module _ (crypto : Crypto) (storage : Storage) where
  remove_existing-ok :
      (name : Bytes) (x : Result CacheFault (Unit {0}) × Files)
      → (remove_existing crypto storage name x).0 ≡ ok tt
      → (x.0 ≡ ok tt) × (read_file name (remove_existing crypto storage name x).1 ≡ none)
  unfolding remove_existing
  remove_existing-ok name (err e, files) h = absurd cc
  remove_existing-ok name (ok u, files) h = elim (Option-cases (read_file name files)) [
    | inl e ↦ (refl, rw e e)
    | inr (content, e) ↦ elim (Bool-cases (storage.can_remove name)) [
      | inl c ↦ (refl, rw e (rw c (read-remove name files)))
      | inr c ↦ absurd (let h' = rw e at h in let h'' = rw c at h' in cc)
    ]
  ]

  remove_existing-other :
      (name other : Bytes) (x : Result CacheFault (Unit {0}) × Files)
      → bytes_eq name other ≡ false
      → read_file other (remove_existing crypto storage name x).1 ≡ read_file other x.1
  unfolding remove_existing
  remove_existing-other name other (err e, files) differ = refl
  remove_existing-other name other (ok u, files) differ =
      elim (Bool-cases (is_there (read_file name files))) [
        | inl e ↦ elim (Bool-cases (storage.can_remove name)) [
          | inl c ↦ rw e (rw c (read-remove_other name other differ files))
          | inr c ↦ rw e (rw c refl)
        ]
        | inr e ↦ rw e refl
      ]

-- Once an entry was evicted without an error, it is not found again, and looking for it changes no file.
pub get-evict :
    (crypto : Crypto) (storage : Storage) (identity : Bytes) (existed : Bool) (ttl_secs now : ℕ)
    (files : Files)
    → (evict crypto storage identity files).0 ≡ ok existed
    → get crypto storage identity ttl_secs now (evict crypto storage identity files).1
      ≡ (none, (evict crypto storage identity files).1)
unfolding get check_entry evict
get-evict crypto storage identity existed ttl_secs now files h =
    let first = remove_existing crypto storage (data_path crypto storage identity) (ok tt, files) in
    let (u, done, h') =
      >>=-eq-ok (remove_existing crypto storage (meta_path crypto storage identity) first).0 _ h in
    let (done₁, gone_meta) =
      remove_existing-ok crypto storage (meta_path crypto storage identity) first done in
    let (done₂, gone) =
      remove_existing-ok crypto storage (data_path crypto storage identity) (ok tt, files) done₁ in
    let kept =
      remove_existing-other crypto storage (meta_path crypto storage identity)
        (data_path crypto storage identity) first (paths-differ' crypto storage identity) in
    rw kept (rw gone refl)
