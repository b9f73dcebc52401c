-- ===== src/Resolver/Locate.antt =====
-- crates/murl-core/src/resolver.rs: `locate`.
use m_url.Base.{
  ℕ, true, false, ◌∷◌, Option, none, some, Result, ok, err, ltb, if◌then◌else◌, length,
}
use m_url.Base.Text.{Bytes}
use m_url.Murl.Types.{Murl, VersionTag, latest, pinned, is_local}
use m_url.Murl.Parse.{identity}
use m_url.Cache.{Storage, CacheEntry, CacheFault, Files, max_u64, get, put}
use m_url.Fetch.{well_known_url, manifest_path, load}
use m_url.Resolver.Types.{
  Origin, cache_error, stale_cache, offline_cache, ResolveFault, store_fault, manifest_too_large,
  fetch_failed, offline, panicked, store_read, url_fetch, RemoteFetcher, Resolver,
}
use m_url.Resolver.State.{
  State, Action, done, raise, lift, ◌>>=◌, ◌>>◌, raise_if, modify, add_warning, warn,
}

abbrev pub Located : Type 0
Located = Bytes × Origin

abbrev pub located_file : Bytes × Bytes → Located
located_file (bytes, path) = (bytes, Origin.local_store path)

abbrev pub record_read : Bytes → State → State
record_read path st = record st { requests = store_read path ∷ st.requests }

abbrev pub from_entry : CacheEntry → Located
from_entry entry = (entry.bytes, Origin.remote entry.meta.url true)

module _ (r : Resolver) where
  unfoldable pub ttl_of : VersionTag → ℕ
  ttl_of latest = r.limits.cache_ttl_secs
  ttl_of (pinned ns) = max_u64

  abbrev pub kept :
      Option CacheEntry × Files → State → Result ResolveFault (Option CacheEntry) × State
  kept (entry, files) st = (ok entry, record st { files = files })

  -- `self.cache.and_then(|c| c.get(…))`
  unfoldable pub cached : Option Storage → Bytes → ℕ → Action (Option CacheEntry)
  cached none identity ttl st = (ok none, st)
  cached (some storage) identity ttl st = kept (get r.crypto storage identity ttl r.now st.files) st

  abbrev pub put_outcome :
      Result CacheFault (Unit {0}) × Files → State → Result ResolveFault (Unit {0}) × State
  put_outcome (ok u, files) st = (ok tt, record st { files = files })
  put_outcome (err e, files) st = (ok tt, add_warning (cache_error e) (record st { files = files }))

  -- `if let Some(cache) = self.cache { if let Err(e) = cache.put(…) { … } }`
  unfoldable pub remember : Option Storage → Bytes → Bytes → Bytes → Action (Unit {0})
  remember none identity url bytes st = (ok tt, st)
  remember (some storage) identity url bytes st =
      put_outcome (put r.crypto storage identity url bytes r.now st.files) st

  -- The arm for a successful fetch.
  unfoldable pub fetched : Bytes → Bytes → Bytes → Action Located
  fetched identity url bytes = do
    raise_if (ltb r.limits.max_manifest_bytes (length bytes)) (manifest_too_large url)
    remember r.cache identity url bytes
    done (bytes, Origin.remote url false)

  -- The arm for a failed fetch.
  unfoldable pub fall_back : Bytes → Bytes → Option CacheEntry → Action Located
  fall_back identity fault none = raise (fetch_failed fault)
  fall_back identity fault (some entry) = do
    warn (stale_cache identity fault entry.meta.url)
    done (from_entry entry)

  -- The answer to a request, which the state records.
  unfoldable pub answered : Bytes → Bytes → Option CacheEntry → Result Bytes Bytes → Action Located
  answered identity url entry (ok bytes) = fetched identity url bytes
  answered identity url entry (err fault) = fall_back identity fault entry

  unfoldable pub request : RemoteFetcher → Bytes → Bytes → Option CacheEntry → Action Located
  request fetcher identity url entry st =
      answered identity url entry (fetcher.fetch st.requests url r.limits)
        (record st { requests = url_fetch url ∷ st.requests })

  -- The arms without a fetcher.
  unfoldable pub offline_entry : Bytes → Option CacheEntry → Action Located
  offline_entry identity none = raise (offline identity)
  offline_entry identity (some entry) = do
    warn (offline_cache identity entry.meta.url)
    done (from_entry entry)

  unfoldable pub look_up : Option RemoteFetcher → Bytes → Bytes → Option CacheEntry → Action Located
  look_up none identity url entry = offline_entry identity entry
  look_up (some fetcher) identity url entry = request fetcher identity url entry

  -- What follows the cache read, by its entry if that is fresh, and by the URL.
  unfoldable pub beyond_cache : Bytes → Option Bytes → Option CacheEntry → Action Located
  beyond_cache identity none entry = raise panicked
  beyond_cache identity (some url) entry = look_up r.fetcher identity url entry

  unfoldable pub use_entry : Bytes → Option Bytes → Option CacheEntry → Action Located
  use_entry identity url none = beyond_cache identity url none
  use_entry identity url (some entry) =
      if entry.fresh then done (from_entry entry) else beyond_cache identity url (some entry)

  unfoldable pub locate_remote : Murl → Action Located
  locate_remote m = do
    entry ← cached r.cache (identity m) (ttl_of m.version)
    use_entry (identity m) (well_known_url m) entry

  unfoldable pub locate_local : Murl → Action Located
  locate_local m = do
    modify (record_read (manifest_path r.push r.store_root m))
    file ← lift store_fault (load r.push r.read_file r.store_root m)
    done (located_file file)

  unfoldable pub locate : Murl → Action Located
  locate m = if is_local m.authority then locate_local m else locate_remote m
