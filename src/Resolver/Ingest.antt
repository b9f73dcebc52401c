-- ===== src/Resolver/Ingest.antt =====
-- crates/murl-core/src/resolver.rs: `ingest_named` and `ingest_bytes`. They call one another for nested
-- names, so each takes the function that ingests a nested name; `ingest_named` runs on fuel.
use m_url.Base.{
  ℕ, zero, suc, ◌+◌, Bool, false, not, ◌&&◌, ◌||◌, List, [], ◌∷◌, ◌++◌, map, Option, none, some,
  Result, ok, err, ltb, leb, if◌then◌else◌, length, any, get_elem?,
}
use m_url.Base.Text.{Bytes, bytes_eq}
use m_url.Murl.Types.{Murl, MurlParseError}
use m_url.Murl.Authority.{show_authority}
use m_url.Murl.Parse.{parse, identity}
use m_url.Kind.{Kind, parse_kind, show_kind}
use m_url.Time.{TimeFault, parse_rfc3339_utc}
use m_url.Policy.{classify}
use m_url.Graph.{execution_order}
use m_url.Trust.Status.{TrustStatus, signed_trusted, signed_unknown_key, unsigned_remote}
use m_url.Trust.Store.{check_integrity, TrustStore, is_trusted}
use m_url.Trust.Verify.{VerifiedSignature, verify_manifest}
use m_url.Manifest.Types.{ResourceDoc, Manifest}
use m_url.Manifest.Validate.Types.{into_result}
use m_url.Manifest.Validate.Resources.{same_pair, key_of, is_murl}
use m_url.Manifest.Validate.Document.{from_slice, validate, is_present}
use m_url.Resolver.Types.{
  Origin, ResolvedNode, validation, signed_without_id, expired, not_yet_valid, selector_ignored,
  name_skipped, crosses_authority, resource_skipped, too_many_manifests, too_many_resources,
  pin_fault, manifest_fault, invalid_manifest, signature_fault, invalid_id, invalid_nested,
  relabeled, dependency_cycle, invalid_kind, nests_nearer, nests_too_deep, name_cycle, panicked,
  out_of_fuel, Resolver,
}
use m_url.Resolver.Locality.{
  describe_origin, Locality, nearer, locality_of, of_source, eq_authority, eq_names,
  version_conflicts,
}
use m_url.Resolver.State.{
  State, Action, done, raise, lift, ◌>>=◌, ◌>>◌, raise_if, modify, with_state, add_warnings, warn,
  warn_if,
}
use m_url.Resolver.Locate.{locate}

unfoldable pub label_of : Option Murl → Origin → Bytes
label_of none origin = describe_origin origin
label_of (some m) origin = identity m

abbrev pub authority_text : Option Murl → Bytes
authority_text none = []
authority_text (some m) = show_authority m.authority

-- The status of a manifest that was fetched.
unfoldable pub remote_trust : TrustStore → Bytes → Option VerifiedSignature → TrustStatus
remote_trust store authority none = unsigned_remote
remote_trust store authority (some v) =
    if is_trusted store authority v.key_id
    then signed_trusted v.key_id
    else signed_unknown_key v.key_id

unfoldable pub trust_of : TrustStore → Origin → Option Murl → Option VerifiedSignature → TrustStatus
trust_of store (Origin.local_store p) m v = TrustStatus.local
trust_of store (Origin.local_file p) m v = TrustStatus.local
trust_of store (Origin.remote url from_cache) m v = remote_trust store (authority_text m) v

-- The manifest declares another name, or another version of it.
unfoldable pub is_relabeled : Murl → Murl → Bool
is_relabeled declared requested =
    not
      (eq_authority declared.authority requested.authority && eq_names declared.name requested.name)
    || version_conflicts declared.version requested.version

-- The declared id, parsed, and the requested name.
unfoldable pub check_declared : Murl → Result MurlParseError Murl → Action (Unit {0})
check_declared requested (err e) = raise (invalid_id e)
check_declared requested (ok declared) =
    raise_if (is_relabeled declared requested) (relabeled (identity declared) (identity requested))

unfoldable pub check_identity : Option Murl → Option Bytes → Action (Unit {0})
check_identity (some requested) (some declared) = check_declared requested (parse declared)
check_identity _ _ = done tt

-- `parse_rfc3339_utc(s).unwrap_or(0)`
abbrev pub epoch_of : Result TimeFault ℕ → ℕ
epoch_of (ok t) = t
epoch_of (err e) = 0

unfoldable pub is_expired : ℕ → Option Bytes → Bool
is_expired now none = false
is_expired now (some exp) = leb (epoch_of (parse_rfc3339_utc exp)) now

unfoldable pub is_premature : ℕ → Option Bytes → Bool
is_premature now none = false
is_premature now (some nb) = ltb now (epoch_of (parse_rfc3339_utc nb))

abbrev pub text_of : Option Bytes → Bytes
text_of none = []
text_of (some s) = s

-- What the loop over the resources needs of the manifest that it is in.
pub record Context : Type 0 where
  pub murl : Option Murl
  pub label : Bytes
  pub source : Locality
  pub depth : ℕ
  pub anchor : Option Bytes
  pub node : ℕ

abbrev pub anchor_or : Option Bytes → Bytes → Bytes
anchor_or none id = id
anchor_or (some a) id = a

-- `parent.authority != child.authority`, if there is a parent.
abbrev pub crosses : Option Murl → Murl → Bool
crosses none child = false
crosses (some parent) child = not (eq_authority parent.authority child.authority)

abbrev pub in_list : Bytes → List Bytes → Bool
in_list s ss = any (bytes_eq s) ss

abbrev pub push_name : Bytes → State → State
push_name name st = record st { stack = name ∷ st.stack }

abbrev pub tail_of : List Bytes → List Bytes
tail_of [] = []
tail_of (s ∷ ss) = ss

abbrev pub pop_name : State → State
pop_name st = record st { stack = tail_of st.stack }

abbrev pub visit_name : Bytes → State → State
visit_name name st = record st { visited = name ∷ st.visited }

-- How a nested name is ingested: its depth, anchor and pin.
abbrev pub Ingest : Type 0
Ingest = Murl → ℕ → Option Bytes → Option Bytes → Action (Unit {0})

module _ (r : Resolver) where
  -- `st.resources.push(…)`, and the key in `dedup`.
  abbrev pub plan : Context → ResourceDoc → Kind → State → State
  plan c doc kind st = record st {
    dedup = key_of kind doc.target ∷ st.dedup;
    resources =
        st.resources
        ++ record {
          resource = doc;
          kind = kind;
          tier = classify kind doc.target;
          node = c.node;
          root_anchor = anchor_or c.anchor doc.id;
          decision = none;
        }
          ∷ [];
  }

  -- The end of the loop body, for a resource that is dispatched.
  unfoldable pub add_resource : Context → ResourceDoc → Kind → Action (Unit {0})
  add_resource c doc kind = with_state λ st. do
    raise_if (ltb r.limits.max_total_resources (length st.resources + 1)) too_many_resources
    (if any (same_pair (key_of kind doc.target)) st.dedup
        then warn (resource_skipped c.label (show_kind kind) doc.target)
        else modify (plan c doc kind))

  -- The nested name, once it is known to be new on the path and in the tree.
  unfoldable pub enter : Ingest → Context → ResourceDoc → Murl → Action (Unit {0})
  enter ingest c doc child = do
    warn_if (crosses c.murl child)
        (crosses_authority c.label (identity child) (show_authority child.authority))
    modify (push_name (identity child))
    ingest child (c.depth + 1) (some (anchor_or c.anchor doc.id)) doc.integrity
    modify pop_name
    modify (visit_name (identity child))

  unfoldable pub nest : Ingest → Context → ResourceDoc → Murl → Action (Unit {0})
  nest ingest c doc child = do
    raise_if (nearer (locality_of child.authority) c.source) (nests_nearer (identity child))
    warn_if (is_present child.selector) (selector_ignored c.label doc.target)
    raise_if (ltb r.limits.max_depth (c.depth + 1)) (nests_too_deep (identity child))
    with_state λ st. do
      raise_if (in_list (identity child) st.stack) (name_cycle st.stack (identity child))
      (if in_list (identity child) st.visited
          then warn (name_skipped c.label (identity child))
          else enter ingest c doc child)

  unfoldable pub splice : Ingest → Context → ResourceDoc → Kind → Action (Unit {0})
  splice ingest c doc kind =
      if is_murl kind
      then (do child ← lift invalid_nested (parse doc.target); nest ingest c doc child)
      else add_resource c doc kind

  -- One round of the loop, on the resource at an index of the order.
  unfoldable pub ingest_resource : Ingest → Context → Option ResourceDoc → Action (Unit {0})
  ingest_resource ingest c none = raise panicked
  ingest_resource ingest c (some doc) = do
    kind ← lift invalid_kind (parse_kind doc.kind)
    splice ingest c doc kind

  unfoldable pub ingest_resources : Ingest → Context → List ResourceDoc → List ℕ → Action (Unit {0})
  ingest_resources ingest c docs [] = done tt
  ingest_resources ingest c docs (i ∷ order) = do
    ingest_resource ingest c (get_elem? docs i)
    ingest_resources ingest c docs order

  -- The node of a manifest that passed the checks.
  abbrev pub node_of :
      Option Murl → Bytes → Origin → ℕ → Manifest → Option VerifiedSignature → ResolvedNode
  node_of m bytes origin depth manifest verified = record {
    identity = elim m [ none ↦ none | some x ↦ some (identity x) ];
    origin = origin;
    manifest = manifest;
    raw_bytes = bytes;
    trust = trust_of r.trust_store origin m verified;
    depth = depth;
    expired = is_expired r.now manifest.doc.expires;
    premature = is_premature r.now manifest.doc.not_before;
  }

  abbrev pub push_node : ResolvedNode → State → State
  push_node node st = record st { nodes = st.nodes ++ node ∷ [] }

  -- `ingest_bytes` from the node on.
  unfoldable pub ingest_manifest :
      Ingest
      → Option Murl
      → Bytes
      → Origin
      → ℕ
      → Option Bytes
      → Manifest
      → Option VerifiedSignature
      → Action (Unit {0})
  ingest_manifest ingest m bytes origin depth anchor manifest verified = with_state λ st. do
    modify (push_node (node_of m bytes origin depth manifest verified))
    order ← lift dependency_cycle (execution_order manifest.doc.resources)
    ingest_resources ingest
        (record {
          murl = m;
          label = label_of m origin;
          source = of_source origin m;
          depth = depth;
          anchor = anchor;
          node = length st.nodes;
        })
        manifest.doc.resources order

  -- The checks of the manifest; they leave nothing in the state but warnings.
  unfoldable pub check_manifest :
      Option Murl → Origin → Manifest → Action (Option VerifiedSignature)
  check_manifest m origin manifest = do
    let report = validate r.crypto r.floats manifest
    modify (add_warnings (map (validation (label_of m origin)) report.warnings))
    valid ← lift invalid_manifest (into_result report)
    verified ← lift signature_fault (verify_manifest r.crypto r.scheme manifest.raw)
    warn_if (is_present verified && not (is_present manifest.doc.id))
        (signed_without_id (label_of m origin))
    check_identity m manifest.doc.id
    warn_if (is_expired r.now manifest.doc.expires)
        (expired (label_of m origin) (text_of manifest.doc.expires))
    warn_if (is_premature r.now manifest.doc.not_before)
        (not_yet_valid (label_of m origin) (text_of manifest.doc.not_before))
    done verified

  unfoldable pub ingest_bytes :
      Ingest → Option Murl → Bytes → Origin → ℕ → Option Bytes → Action (Unit {0})
  ingest_bytes ingest m bytes origin depth anchor = do
    manifest ← lift manifest_fault (from_slice r.json r.limits bytes)
    verified ← check_manifest m origin manifest
    ingest_manifest ingest m bytes origin depth anchor manifest verified

  -- `if let Some(pin) = integrity { check_integrity(&bytes, pin)?; }`
  unfoldable pub check_pin : Bytes → Option Bytes → Action (Unit {0})
  check_pin bytes none = done tt
  check_pin bytes (some pin) = lift pin_fault (check_integrity r.crypto bytes pin)

  abbrev pub count_manifest : State → State
  count_manifest st = record st { manifests = st.manifests + 1 }

  -- `ingest_named`, with the function that ingests the names nested in it.
  unfoldable pub ingest_with : Ingest → Ingest
  ingest_with ingest m depth anchor integrity = do
    modify count_manifest
    with_state λ st. raise_if (ltb r.limits.max_nested_manifests st.manifests) too_many_manifests
    (bytes, origin) ← locate r m
    check_pin bytes integrity
    ingest_bytes ingest (some m) bytes origin depth anchor

  unfoldable pub ingest_named : ℕ → Ingest
  ingest_named zero m depth anchor integrity = raise out_of_fuel
  ingest_named (suc fuel) m depth anchor integrity =
      ingest_with (ingest_named fuel) m depth anchor integrity
