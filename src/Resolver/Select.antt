-- ===== src/Resolver/Select.antt =====
-- crates/murl-core/src/resolver.rs: `finish`, `resolve`, `resolve_file`, `apply_policy`.
use m_url.Base.{
  ℕ, ◌+◌, Bool, false, not, List, [], ◌∷◌, Option, none, some, Result, ok, err, ◌>>=◌, ◌>>◌,
  refuse_if, map_err, any, retain, get_elem?,
}
use m_url.Base.Text.{Bytes, bytes_eq}
use m_url.Murl.Types.{Murl, SelectorItem, id, role, tag}
use m_url.Murl.Parse.{identity, selector_display}
use m_url.Cache.{Files}
use m_url.Fetch.{FileRead, content, no_file, io_fault}
use m_url.Policy.{Policy, EvalContext, evaluate}
use m_url.Manifest.Types.{ResourceDoc, Manifest}
use m_url.Manifest.Validate.Document.{from_slice}
use m_url.Resolver.Types.{
  Origin, ResolvedNode, PlannedResource, Warning, Resolution, ResolveFault, manifest_fault,
  unmatched_item, store_fault, Resolver,
}
use m_url.Fetch.{not_in_store}
use m_url.Resolver.Locality.{is_remote}
use m_url.Resolver.State.{State, fresh_state}
use m_url.Resolver.Locate.{Located, locate}
use m_url.Resolver.Ingest.{push_name, pop_name, ingest_named, ingest_bytes}

abbrev pub has_role : Bytes → Option Bytes → Bool
has_role s none = false
has_role s (some r) = bytes_eq r s

abbrev pub has_tag : Bytes → List Bytes → Bool
has_tag s tags = any (λ t. bytes_eq t s) tags

-- The resources of `nodes[0]`.
abbrev pub root_resources : List ResolvedNode → List ResourceDoc
root_resources [] = []
root_resources (n ∷ ns) = n.manifest.doc.resources

-- `matched`, for one item.
unfoldable pub matches : List ResolvedNode → List PlannedResource → SelectorItem → Bool
matches nodes resources (id s) = any (λ r. bytes_eq r.id s) (root_resources nodes)
matches nodes resources (role s) = any (λ pr. has_role s pr.resource.role) resources
matches nodes resources (tag s) = any (λ pr. has_tag s pr.resource.tags) resources

-- Whether an item claims a resource.
unfoldable pub claims : PlannedResource → SelectorItem → Bool
claims pr (id s) = bytes_eq pr.root_anchor s
claims pr (role s) = has_role s pr.resource.role
claims pr (tag s) = has_tag s pr.resource.tags

-- The loop that every item matches something.
unfoldable pub check_items :
    List ResolvedNode → List PlannedResource → List SelectorItem → Result ResolveFault (Unit {0})
check_items nodes resources [] = ok tt
check_items nodes resources (item ∷ items) = do
  refuse_if (not (matches nodes resources item)) (unmatched_item item)
  check_items nodes resources items

abbrev pub resolution_of : State → List PlannedResource → Option Bytes → Resolution
resolution_of st resources selector = record {
  nodes = st.nodes;
  resources = resources;
  warnings = st.warnings;
  selector = selector;
}

unfoldable pub finish : State → Option (List SelectorItem) → Result ResolveFault Resolution
finish st none = ok (resolution_of st st.resources none)
finish st (some items) = do
  check_items st.nodes st.resources items
  ok (
      resolution_of st (retain (λ pr. any (claims pr) items) st.resources)
        (selector_display (some items)))

abbrev pub finished :
    Option (List SelectorItem)
    → Result ResolveFault (Unit {0}) × State
    → Result ResolveFault Resolution × State
finished selector (err e, st) = (err e, st)
finished selector (ok u, st) = (finish st selector, st)

module _ (r : Resolver) where
  -- The fuel that suffices: one more than the depth that names may be nested.
  abbrev pub enough : ℕ
  enough = r.limits.max_depth + 1

  -- The state before `finish`, on the files of the cache.
  unfoldable pub run_named : Murl → Files → Result ResolveFault (Unit {0}) × State
  run_named m files =
      ingest_named r enough m 0 none none (push_name (identity m) (fresh_state files))

  abbrev pub popped :
      Result ResolveFault (Unit {0}) × State → Result ResolveFault (Unit {0}) × State
  popped (ok u, st) = (ok u, pop_name st)
  popped (err e, st) = (err e, st)

  unfoldable pub resolve : Murl → Files → Result ResolveFault Resolution × State
  resolve m files = finished m.selector (popped (run_named m files))

  unfoldable pub resolve_read : Bytes → FileRead → Files → Result ResolveFault Resolution × State
  resolve_read path no_file files = (err (store_fault (not_in_store path)), fresh_state files)
  resolve_read path (io_fault e) files = (err (store_fault (not_in_store path)), fresh_state files)
  resolve_read path (content bytes) files = finished none (
      ingest_bytes r (ingest_named r r.limits.max_depth) none bytes (Origin.local_file path) 0 none
        (fresh_state files))

  unfoldable pub resolve_file : Bytes → Files → Result ResolveFault Resolution × State
  resolve_file path files = resolve_read path (r.read_file path) files

  -- The manifest that was found, with the warnings so far.
  unfoldable pub read_root :
      Result ResolveFault Located × State
      → Result ResolveFault (Manifest × Origin × List Warning) × State
  read_root (err e, st) = (err e, st)
  read_root (ok (bytes, origin), st) = (
    do
      manifest ← map_err manifest_fault (from_slice r.json r.limits bytes)
      ok (manifest, origin, st.warnings),
    st,
  )

  unfoldable pub fetch_root :
      Murl → Files → Result ResolveFault (Manifest × Origin × List Warning) × State
  fetch_root m files = read_root (locate r m (fresh_state files))

-- The context of a node.
abbrev pub context_of : ResolvedNode → EvalContext
context_of node = record {
  trust = node.trust;
  manifest_expired = node.expired;
  manifest_premature = node.premature;
  remote_origin = is_remote node.origin;
}

-- The decision on a resource, by its node; an index out of range is a panic of the source.
abbrev pub decide : Policy → PlannedResource → Option ResolvedNode → PlannedResource
decide policy pr none = pr
decide policy pr (some node) = record pr {
  decision = some (evaluate policy pr.kind pr.tier (context_of node));
}

unfoldable pub decide_all : Policy → List ResolvedNode → List PlannedResource → List PlannedResource
decide_all policy nodes [] = []
decide_all policy nodes (pr ∷ prs) =
    decide policy pr (get_elem? nodes pr.node) ∷ decide_all policy nodes prs

unfoldable pub apply_policy : Policy → Resolution → Resolution
apply_policy policy res = record res { resources = decide_all policy res.nodes res.resources }
