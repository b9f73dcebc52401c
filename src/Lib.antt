-- ===== src/Lib.antt =====
-- mURL, a link format and opener for bundles of resources: its core, `crates/murl-core`, its fetcher,
-- `crates/murl-net`, and the consent rules of its command line, `crates/murl-cli`.
--
-- A mURL such as `murl://acme.example/team/project@1.4#ci` names a manifest. The core parses the
-- name, finds the manifest, checks its signature and shape, decides under the user's policy what may be
-- opened, and opens the approved resources in the order of their dependencies.
--
-- Files:
--   Base: lists, Boolean tests, results with early return, byte strings and decimal numbers, with the
--     lemmas that the parts share. Text is a list of byte values over the native numbers.
--   Grammar: `crates/murl-core/src/grammar.rs`.
--   Murl: `crates/murl-core/src/murl.rs`; Murl.Types its types and limits, Murl.Utf8 the check
--     `String::from_utf8`, Murl.Percent the segments, Murl.Version, Murl.Authority and Murl.Selector the
--     parts of a mURL, Murl.Parse `Murl::parse`, `identity` and the canonical form.
--   Kind: `crates/murl-core/src/kind.rs`.
--   Trust: `crates/murl-core/src/trust.rs`; Trust.Status and Trust.Store the trust status and the store of
--     pinned keys, Trust.Verify signing and verifying a manifest.
--   Canonical: `crates/murl-core/src/canonical.rs`.
--   Policy: `crates/murl-core/src/policy.rs`.
--   Time: `crates/murl-core/src/time.rs`.
--   Manifest: Manifest.Types, Manifest.Target and Manifest.Validate the document types, the checks of targets
--     and `validate` of `crates/murl-core/src/manifest.rs`, Manifest.Strict the strict reader of
--     `crates/murl-core/src/json.rs`.
--   Graph: `crates/murl-core/src/graph.rs`.
--   Limits: `crates/murl-core/src/limits.rs`.
--   Cache: `crates/murl-core/src/cache.rs`, over the files of the cache directory.
--   Fetch: `crates/murl-core/src/fetch.rs`, the URL and the path of a name and `LocalStore::load`.
--   Resolver: `crates/murl-core/src/resolver.rs`; Resolver.Locate is `locate`, Resolver.Ingest
--     `ingest_named` and `ingest_bytes`, Resolver.Select `resolve`, `resolve_file`, `fetch_root`, `finish`
--     and `apply_policy`. Its state is passed on explicitly, with the files of the cache and the requests
--     made so far, and comes back after an error too.
--   Net: `crates/murl-net/src/lib.rs`, the fetcher with its guard on addresses.
--   Dispatch: `crates/murl-core/src/dispatch.rs`; Dispatch.Execute is the engine, Dispatch.Argv and
--     Dispatch.Paths build the arguments and paths that it launches with.
--   Bundle: `crates/murl-core/src/bundle.rs`.
--   Consent: `crates/murl-cli/src/consent.rs`, the approvals that `murl open` hands to the engine.
--
-- Conventions: a function of the source keeps its name; a loop is a recursion on the list or on the
-- number of rounds left; `?` is the bind of `Result`; an error keeps its variant, and a message text is a
-- constructor that names the reason. The scheduler's loop pushes one index in each round, so it runs on
-- the number of indices that are missing. The resolver's recursion through nested manifests runs on fuel,
-- one more than the depth limit, which is enough since every level counts against that limit. The launcher
-- of the embedder and the fetcher are parameters; their answers may depend on all calls before. How a path
-- takes a further segment, and floating point numbers, are parameters too, as are base64, SHA-256, the
-- curve and the signature scheme, the JSON library with the generated conversions, the HTTP client and the
-- lookup of addresses, the clock's answer, and what the file system holds or refuses.
--
-- Not modelled: key files, loading the trust store, adding to and listing the local store, the configuration,
-- the rest of the command line, the daemon and the browser bindings.
pub mod Base
pub mod Grammar
pub mod Murl
pub mod Kind
pub mod Limits
pub mod Canonical
pub mod Trust
pub mod Policy
pub mod Time
pub mod Manifest
pub mod Graph
pub mod Cache
pub mod Fetch
pub mod Net
pub mod Resolver
pub mod Bundle
pub mod Dispatch
pub mod Consent
