-- ===== src/Resolver/Steps.antt =====
-- Reasoning on the resolver's actions: what holds of the state after each of their ends.
use m_url.Base.{
  List, ℕ, ◌≤◌, ◌<◌, ◌≡◌, refl, Bool, true, false, ◌∷◌, Option, none, some, Result, ok, err, length,
  ltb, if◌then◌else◌,
}
use m_url.Base.Text.{Bytes}
use m_url.Murl.Types.{Murl, Authority, is_local}
use m_url.Murl.Parse.{identity}
use m_url.Cache.{Storage, CacheEntry, CacheFault, Files, put}
use m_url.Fetch.{well_known_url, url_of, manifest_path, load}
use m_url.Resolver.Types.{
  ResolvedNode, Warning, ResolveFault, store_fault, manifest_too_large, Request, store_read,
  url_fetch, RemoteFetcher, Resolver,
}
use m_url.Resolver.Locality.{rank, locality_of, of_source}
use m_url.Resolver.State.{State, Action, after, ◌>>=◌, ◌>>◌, raise_if, warn_if, lift, add_warning}
use m_url.Resolver.Locate.{
  Located, cached, remember, put_outcome, fetched, fall_back, answered, request, offline_entry,
  look_up, beyond_cache, use_entry, locate_remote, locate_local, locate, from_entry, ttl_of,
}
use m_url.Resolver.Sound.{Extends, IsSound, IsProper, IsRequestFor, IsSoundFor-request}

-- `Q` after a result, and `E` after an error, which is proper.
abbrev pub Holds :
    {A : Type 0} → (State → Type 0) → (A → State → Type 0) → Result ResolveFault A × State → Type 0
Holds E Q (ok a, st) = Q a st
Holds E Q (err e, st) = IsProper e × E st

module _ {A : Type 0} (E : State → Type 0) (Q : A → State → Type 0) where
  pub after-Holds :
      {B : Type 0} (R : B → State → Type 0) (x : Result ResolveFault A × State) (f : A → Action B)
      → Holds E Q x
      → ((a : A) (st : State) → Q a st → Holds E R (f a st))
      → Holds E R (after f x)
  after-Holds R (ok a, st) f h k = k a st h
  after-Holds R (err e, st) f h k = h

  pub Holds-weaken :
      (R : A → State → Type 0) (x : Result ResolveFault A × State)
      → ((a : A) (st : State) → Q a st → R a st)
      → Holds E Q x
      → Holds E R x
  Holds-weaken R (ok a, st) f h = f a st h
  Holds-weaken R (err e, st) f h = h

  pub lift-Holds :
      {F : Type 0} (f : F → ResolveFault) (x : Result F A) (st : State)
      → ((e : F) → IsProper (f e))
      → E st
      → ((a : A) → x ≡ ok a → Q a st)
      → Holds E Q (lift f x st)
  lift-Holds f (ok a) st p e q = q a refl
  lift-Holds f (err x) st p e q = (p x, e)

  pub if-Holds :
      (c : Bool) (m k : Action A) (st : State)
      → (c ≡ true → Holds E Q (m st))
      → (c ≡ false → Holds E Q (k st))
      → Holds E Q ((if c then m else k) st)
  if-Holds true m k st x y = x refl
  if-Holds false m k st x y = y refl

  pub raise_then-Holds :
      (t : Bool) (e : ResolveFault) (m : Action A) (st : State)
      → IsProper e
      → E st
      → (t ≡ false → Holds E Q (m st))
      → Holds E Q ((raise_if t e >> m) st)
  raise_then-Holds true e m st p h k = (p, h)
  raise_then-Holds false e m st p h k = k refl

  pub warn_then-Holds :
      (P : State → Type 0) (t : Bool) (w : Warning) (m : Action A) (st : State)
      → P st
      → P (add_warning w st)
      → ((st : State) → P st → Holds E Q (m st))
      → Holds E Q ((warn_if t w >> m) st)
  warn_then-Holds P true w m st h h' k = k (add_warning w st) h'
  warn_then-Holds P false w m st h h' k = k st h

  pub lift_then-Holds :
      {F B : Type 0} (f : F → ResolveFault) (x : Result F B) (m : B → Action A) (st : State)
      → ((e : F) → IsProper (f e))
      → E st
      → ((b : B) → x ≡ ok b → Holds E Q (m b st))
      → Holds E Q ((lift f x >>= m) st)
  lift_then-Holds f (ok b) m st p h k = k b refl
  lift_then-Holds f (err e) m st p h k = (p e, h)

pub raise_if-Holds :
    (E : State → Type 0) (Q : Unit {0} → State → Type 0) (c : Bool) (e : ResolveFault) (st : State)
    → IsProper e
    → E st
    → (c ≡ false → Q tt st)
    → Holds E Q (raise_if c e st)
raise_if-Holds E Q true e st p h q = (p, h)
raise_if-Holds E Q false e st p h q = q refl

-- A state in which a manifest may be added; its manifests start with `base`.
abbrev pub IsReady : Resolver → ℕ → List ResolvedNode → State → Type 0
IsReady r k base st =
    IsSound r k st
    × (Extends base st.nodes)
    × (length st.nodes < st.manifests)
    × (st.manifests ≤ r.limits.max_nested_manifests)

-- A remote name has a URL.
remote-url :
    (m : Murl) → is_local m.authority ≡ false → (url : Bytes) × (well_known_url m ≡ some url)
unfolding well_known_url url_of is_local
remote-url m h = go m.authority h
  where
    go : (a : Authority) → is_local a ≡ false → (url : Bytes) × (url_of m a ≡ some url)
    go Authority.local e = absurd cc
    go (Authority.remote host port) e = (_, refl)

module _ (r : Resolver) (k : ℕ) (base : List ResolvedNode) (m : Murl)
    (far : k ≤ rank (locality_of m.authority)) where
  -- The manifest that was located is as far away as the name.
  abbrev pub IsLocated : Located → State → Type 0
  IsLocated (bytes, origin) st =
      IsReady r k base st × (of_source origin (some m) ≡ locality_of m.authority)

  request-IsReady :
      (q : Request) (st : State)
      → IsRequestFor r m q
      → IsReady r k base st
      → IsReady r k base (record st { requests = q ∷ st.requests })
  request-IsReady q st f (s, g, c, b) = (
    IsSoundFor-request r k st.nodes st.resources st.dedup st.manifests st.requests q (m, f, far) s,
    g,
    c,
    b,
  )

  locate_local-Holds :
      (st : State)
      → is_local m.authority ≡ true
      → IsReady r k base st
      → Holds (IsSound r k) IsLocated (locate_local r m st)
  unfolding locate_local locality_of of_source
  locate_local-Holds st e h =
      let after =
        request-IsReady (store_read (manifest_path r.push r.store_root m)) st (e, refl) h in
      after-Holds (IsSound r k) (λ a st. IsReady r k base st) IsLocated _ _
        (lift-Holds (IsSound r k) (λ a st. IsReady r k base st) store_fault
          (load r.push r.read_file r.store_root m) _ (λ x. tt) after.0 (λ a x. after))
        (λ a st x. (x, rw e refl))

  module _ (remote : is_local m.authority ≡ false) where
    from_entry-IsLocated :
        (entry : CacheEntry) (st : State) → IsReady r k base st → IsLocated (from_entry entry) st
    unfolding of_source
    from_entry-IsLocated entry st h = (h, refl)

    remember-Holds :
        (cache : Option Storage) (name url bytes : Bytes) (st : State)
        → IsReady r k base st
        → Holds (IsSound r k) (λ u st. IsReady r k base st) (remember r cache name url bytes st)
    unfolding remember
    remember-Holds none name url bytes st h = h
    remember-Holds (some storage) name url bytes st h =
        outcome (put r.crypto storage name url bytes r.now st.files)
      where
        outcome :
            (x : Result CacheFault (Unit {0}) × Files)
            → Holds (IsSound r k) (λ u st. IsReady r k base st) (put_outcome r x st)
        outcome (ok u, files) = h
        outcome (err e, files) = h

    fetched-Holds :
        (name url bytes : Bytes) (st : State)
        → IsReady r k base st
        → Holds (IsSound r k) IsLocated (fetched r name url bytes st)
    unfolding fetched of_source
    fetched-Holds name url bytes st h =
        raise_then-Holds (IsSound r k) IsLocated (ltb r.limits.max_manifest_bytes (length bytes))
          (manifest_too_large url) _ st tt h.0
          (λ e.
            after-Holds (IsSound r k) (λ u st. IsReady r k base st) IsLocated _ _
              (remember-Holds r.cache name url bytes st h) (λ u st h. (h, refl)))

    answered-Holds :
        (name url : Bytes) (entry : Option CacheEntry) (x : Result Bytes Bytes) (st : State)
        → IsReady r k base st
        → Holds (IsSound r k) IsLocated (answered r name url entry x st)
    unfolding answered fall_back
    answered-Holds name url entry (ok bytes) st h = fetched-Holds name url bytes st h
    answered-Holds name url none (err fault) st h = (tt, h.0)
    answered-Holds name url (some entry) (err fault) st h = from_entry-IsLocated entry st h

    look_up-Holds :
        (fetcher : Option RemoteFetcher) (name url : Bytes) (entry : Option CacheEntry) (st : State)
        → well_known_url m ≡ some url
        → IsReady r k base st
        → Holds (IsSound r k) IsLocated (look_up r fetcher name url entry st)
    unfolding look_up offline_entry request
    look_up-Holds none name url none st e h = (tt, h.0)
    look_up-Holds none name url (some entry) st e h = from_entry-IsLocated entry st h
    look_up-Holds (some fetcher) name url entry st e h =
        answered-Holds name url entry (fetcher.fetch st.requests url r.limits) _
          (request-IsReady (url_fetch url) st (remote, e) h)

    beyond_cache-Holds :
        (name : Bytes) (entry : Option CacheEntry) (st : State)
        → IsReady r k base st
        → Holds (IsSound r k) IsLocated (beyond_cache r name (well_known_url m) entry st)
    unfolding beyond_cache
    beyond_cache-Holds name entry st h =
        let (url, e) = remote-url m remote in rw e (look_up-Holds r.fetcher name url entry st e h)

    use_entry-Holds :
        (name : Bytes) (entry : Option CacheEntry) (st : State)
        → IsReady r k base st
        → Holds (IsSound r k) IsLocated (use_entry r name (well_known_url m) entry st)
    unfolding use_entry
    use_entry-Holds name none st h = beyond_cache-Holds name none st h
    use_entry-Holds name (some entry) st h =
        if-Holds (IsSound r k) IsLocated entry.fresh _ _ st (λ e. from_entry-IsLocated entry st h)
          (λ e. beyond_cache-Holds name (some entry) st h)

    cached-Holds :
        (cache : Option Storage) (name : Bytes) (ttl : ℕ) (st : State)
        → IsReady r k base st
        → Holds (IsSound r k) (λ entry st. IsReady r k base st) (cached r cache name ttl st)
    unfolding cached
    cached-Holds none name ttl st h = h
    cached-Holds (some storage) name ttl st h = h

    locate_remote-Holds :
        (st : State) → IsReady r k base st → Holds (IsSound r k) IsLocated (locate_remote r m st)
    unfolding locate_remote
    locate_remote-Holds st h =
        after-Holds (IsSound r k) (λ entry st. IsReady r k base st) IsLocated _ _
          (cached-Holds r.cache (identity m) (ttl_of r m.version) st h)
          (λ entry st h. use_entry-Holds (identity m) entry st h)

  pub locate-Holds :
      (st : State) → IsReady r k base st → Holds (IsSound r k) IsLocated (locate r m st)
  unfolding locate
  locate-Holds st h =
      if-Holds (IsSound r k) IsLocated (is_local m.authority) (locate_local r m) (locate_remote r m)
        st (λ e. locate_local-Holds st e h) (λ e. locate_remote-Holds e st h)
