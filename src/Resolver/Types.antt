-- ===== src/Resolver/Types.antt =====
-- crates/murl-core/src/resolver.rs: manifests and resources of a plan, and the resolver's collaborators.
use m_url.Base.{ℕ, Bool, List, Option, none, some, Result}
use m_url.Base.Text.{Bytes}
use m_url.Kind.{Kind, KindFault}
use m_url.Policy.{Tier, Decision}
use m_url.Limits.{Limits}
use m_url.Murl.Types.{MurlParseError, SelectorItem}
use m_url.Trust.Status.{TrustStatus}
use m_url.Trust.Store.{Crypto, TrustStore, TrustFault}
use m_url.Trust.Verify.{Scheme, SignatureFault}
use m_url.Cache.{Storage, CacheFault}
use m_url.Fetch.{FileRead, FetchFault}
use m_url.Manifest.Types.{ResourceDoc, Manifest}
use m_url.Manifest.Target.Messages.{Floats}
use m_url.Manifest.Validate.Types.{Issue}
use m_url.Manifest.Validate.Document.{Json, ManifestFault}

-- Where a manifest came from.
pub data Origin : Type 0 where
  local_store local_file : (path : Bytes) → Origin
  remote : (url : Bytes) (from_cache : Bool) → Origin

pub record ResolvedNode : Type 0 where
  pub identity : Option Bytes
  pub origin : Origin
  pub manifest : Manifest
  pub raw_bytes : Bytes
  pub trust : TrustStatus
  pub depth : ℕ
  pub expired : Bool
  pub premature : Bool

-- A resource in the plan; `node` is an index into the resolved manifests.
pub record PlannedResource : Type 0 where
  pub resource : ResourceDoc
  pub kind : Kind
  pub tier : Tier
  pub node : ℕ
  pub root_anchor : Bytes
  pub decision : Option Decision

abbrev pub label_or : Option Bytes → Bytes → Bytes
label_or none id = id
label_or (some label) id = label

unfoldable pub display_label : PlannedResource → Bytes
display_label pr = label_or pr.resource.label pr.resource.id

-- The texts pushed to `warnings`, by what they report; a label names the manifest.
pub data Warning : Type 0 where
  cache_error : CacheFault → Warning
  stale_cache : (identity fault url : Bytes) → Warning
  offline_cache : (identity url : Bytes) → Warning
  validation : (label : Bytes) → Issue → Warning
  signed_without_id : (label : Bytes) → Warning
  expired not_yet_valid : (label time : Bytes) → Warning
  selector_ignored : (label target : Bytes) → Warning
  name_skipped : (label identity : Bytes) → Warning
  crosses_authority : (label identity authority : Bytes) → Warning
  resource_skipped : (label kind target : Bytes) → Warning

pub record Resolution : Type 0 where
  pub nodes : List ResolvedNode
  pub resources : List PlannedResource
  pub warnings : List Warning
  pub selector : Option Bytes

-- The errors. `panicked` stands for a panic of the source, and `out_of_fuel` for a run of the model that
-- is cut off.
pub data ResolveFault : Type 0 where
  too_many_manifests too_many_resources : ResolveFault
  store_fault : FetchFault → ResolveFault
  pin_fault : TrustFault → ResolveFault
  manifest_too_large fetch_failed offline : Bytes → ResolveFault
  manifest_fault : ManifestFault → ResolveFault
  invalid_manifest : List Issue → ResolveFault
  signature_fault : SignatureFault → ResolveFault
  invalid_id invalid_nested : MurlParseError → ResolveFault
  relabeled : (declared requested : Bytes) → ResolveFault
  dependency_cycle : List Bytes → ResolveFault
  invalid_kind : KindFault → ResolveFault
  nests_nearer nests_too_deep : (identity : Bytes) → ResolveFault
  name_cycle : (path : List Bytes) (identity : Bytes) → ResolveFault
  unmatched_item : SelectorItem → ResolveFault
  panicked out_of_fuel : ResolveFault

-- What the resolver asks of its environment: a file of the local store, or a URL.
pub data Request : Type 0 where
  store_read url_fetch : Bytes → Request

-- `RemoteFetcher`: the answer to a URL may depend on the requests before, the last one first.
pub record RemoteFetcher : Type 0 where
  pub fetch : List Request → Bytes → Limits → Result Bytes Bytes

-- The collaborators of `Resolver`, and the libraries below them; `push` is
-- `PathBuf::push`. `now` is the clock's answer.
pub record Resolver : Type 1 where
  pub store_root : Bytes
  pub push : Bytes → Bytes → Bytes
  pub read_file : Bytes → FileRead
  pub fetcher : Option RemoteFetcher
  pub cache : Option Storage
  pub trust_store : TrustStore
  pub limits : Limits
  pub now : ℕ
  pub json : Json
  pub crypto : Crypto
  pub scheme : Scheme
  pub floats : Floats
