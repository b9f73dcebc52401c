-- ===== src/Cache/Tests.antt =====
-- Runs of the cache, and its properties there.
use m_url.Base.Text.{
  bytes_eq, lowercase, contains, strip_prefix, starts_with, ends_with, ends_with_text, split_once,
  rsplit_once, split_by, split, first_piece, last_piece, join,
}
use m_url.Base.Decimal.{show_from, show, digits_value}
use m_url.Trust.Store.{
  hex, bytes_lt, find_keys, replace_keys, insert_keys, remove_keys, normalize_authority, pin, unpin,
  sha256_hex, key_id_for, make_integrity, check_integrity, check_key, save, add_checked,
  remove_checked, remove, is_trusted_name, is_trusted,
}
use m_url.Cache.{
  read_file, remove_file, write_file, is_fresh, data_path, meta_path, try_remove, check_entry, get,
  try_write, create_dir, put, remove_existing, evict, metas, insert_meta, sort_metas, list,
  evict_all, clear_listed, clear,
}
use m_url.Base.{
  ◌≡◌, refl, true, [], ◌∷◌, ◌++◌, Option, none, some, ok, length, take, drop, replicate,
}
use m_url.Base.Text.{Bytes, codes}
use m_url.Trust.Store.{Crypto}
use m_url.Cache.{CacheMeta, Files, Storage, meta_of}
use m_url.Cache.Lookup.{get-put, get-evict}

program : Unit {0}
unfolding bytes_eq lowercase contains strip_prefix starts_with ends_with ends_with_text split_once
    rsplit_once split_by split first_piece last_piece join show_from show digits_value hex bytes_lt
    find_keys replace_keys insert_keys remove_keys normalize_authority pin unpin sha256_hex
    key_id_for make_integrity check_integrity check_key save add_checked remove_checked remove
    is_trusted_name is_trusted read_file remove_file write_file is_fresh data_path meta_path
    try_remove check_entry get try_write create_dir put remove_existing evict metas insert_meta
    sort_metas list evict_all clear_listed clear
program = tt

-- The hash of a text is its length, 32 times.
abbrev plain : Crypto
plain = record {
  encode_b64 = λ s. s;
  decode_b64 = λ s. some s;
  sha256 = λ s. replicate 32 (length s);
  is_point = λ s. true;
}

abbrev decode_meta : Bytes → Option CacheMeta
decode_meta (i ∷ u ∷ t ∷ s) = some (record {
  identity = take i s;
  url = take u (drop i s);
  fetched_at = t;
  sha256 = drop u (drop i s);
})
decode_meta _ = none

-- A directory that takes every call.
abbrev open_storage : Storage
open_storage = record {
  encode =
      λ m. length m.identity ∷ length m.url ∷ m.fetched_at ∷ (m.identity ++ (m.url ++ m.sha256));
  decode = decode_meta;
  can_create = true;
  can_write = λ name. true;
  can_remove = λ name. true;
  can_list = true;
}

abbrev name : Bytes
name = codes "murl://acme.example/a"

abbrev url : Bytes
url = codes "https://acme.example/.well-known/murl/a.murl.json"

abbrev stored : Files
stored = (put plain open_storage name url (codes "{}") 100 []).1

put_sample : (put plain open_storage name url (codes "{}") 100 []).0 ≡ ok tt
unfolding program
put_sample = refl

meta_sample :
    open_storage.decode (open_storage.encode (meta_of plain open_storage name url (codes "{}") 100))
    ≡ some (meta_of plain open_storage name url (codes "{}") 100)
unfolding program
meta_sample = refl

evict_sample : (evict plain open_storage name stored).0 ≡ ok true
unfolding program
evict_sample = refl

-- An entry of another name with the same hash is dropped.
get_other : get plain open_storage (codes "murl://acme.example/b") 60 120 stored ≡ (none, [])
unfolding program
get_other = refl

list_sample :
    list plain open_storage stored ≡ ok (meta_of plain open_storage name url (codes "{}") 100 ∷ [])
unfolding program
list_sample = refl

get-put_example : get plain open_storage name 60 120 stored ≡ (
  some (record {
    bytes = codes "{}";
    meta = meta_of plain open_storage name url (codes "{}") 100;
    fresh = is_fresh 60 100 120;
  }),
  stored,
)
get-put_example =
    get-put plain open_storage name url (codes "{}") 100 60 120 [] meta_sample put_sample

get_of_evict_sample :
    get plain open_storage name 60 120 (evict plain open_storage name stored).1
    ≡ (none, (evict plain open_storage name stored).1)
get_of_evict_sample = get-evict plain open_storage name true 60 120 stored evict_sample
