-- ===== src/Resolver/Sound.antt =====
-- The invariant of the resolver's state.
use m_url.Base.{
  ℕ, zero, suc, get_elem?, ok, ap, ◌∙◌, append_assoc, ◌+◌, ◌≤◌, ◌<◌, ◌≡◌, inl, inr, refl, true,
  false, List, [], ◌∷◌, ◌++◌, some, Bool-cases, length, length-append, any, All, All-append,
  All-mono, arith,
}
use m_url.Base.Text.{Bytes, bytes_eq}
use m_url.Base.Text.Equality.{bytes_eq→eq, bytes_eq_refl}
use m_url.Murl.Types.{Murl, is_local}
use m_url.Kind.{parse_kind}
use m_url.Policy.{classify}
use m_url.Fetch.{well_known_url, manifest_path}
use m_url.Manifest.Validate.Resources.{same_pair, key_of}
use m_url.Resolver.Types.{
  ResolvedNode, PlannedResource, ResolveFault, panicked, out_of_fuel, Request, store_read,
  url_fetch, Resolver,
}
use m_url.Resolver.Locality.{rank, locality_of}
use m_url.Resolver.State.{State}

-- The kind and target by which duplicates are told.
abbrev pub planned_key : PlannedResource → Bytes × Bytes
planned_key pr = key_of pr.kind pr.resource.target

-- No two resources with the same kind and target.
abbrev pub IsDistinct : List PlannedResource → Type 0
IsDistinct [] = Unit
IsDistinct (pr ∷ prs) =
    All (λ q. same_pair (planned_key pr) (planned_key q) ≡ false) prs × IsDistinct prs

-- The request is the one that looks up the name.
abbrev pub IsRequestFor : Resolver → Murl → Request → Type 0
IsRequestFor r m (store_read path) =
    (is_local m.authority ≡ true) × (path ≡ manifest_path r.push r.store_root m)
IsRequestFor r m (url_fetch url) = (is_local m.authority ≡ false) × (well_known_url m ≡ some url)

-- The request looks up a name that is at least as far away as `k` tells.
abbrev pub IsFar : Resolver → ℕ → Request → Type 0
IsFar r k q = (m : Murl) × IsRequestFor r m q × (k ≤ rank (locality_of m.authority))

-- The resource comes from the manifest at its index: that manifest lists it, its kind is the one that the
-- resource names, and its tier that of the kind and the target.
abbrev pub IsListed : List ResolvedNode → PlannedResource → Type 0
IsListed nodes pr =
    (node : ResolvedNode) × (i : ℕ) × (get_elem? nodes pr.node ≡ some node)
    × (get_elem? node.manifest.doc.resources i ≡ some pr.resource)
    × (parse_kind pr.resource.kind ≡ ok pr.kind)
    × (pr.tier ≡ classify pr.kind pr.resource.target)

-- The list starts with `base`.
abbrev pub Extends : List ResolvedNode → List ResolvedNode → Type 0
Extends base nodes = (rest : List ResolvedNode) × (nodes ≡ base ++ rest)

get_elem?-append :
    (xs ys : List ResolvedNode) (i : ℕ) (a : ResolvedNode)
    → get_elem? xs i ≡ some a
    → get_elem? (xs ++ ys) i ≡ some a
get_elem?-append [] ys i a h = absurd cc
get_elem?-append (x ∷ xs) ys zero a h = h
get_elem?-append (x ∷ xs) ys (suc i) a h = get_elem?-append xs ys i a h

pub get_elem?-Extends :
    (base nodes : List ResolvedNode) (i : ℕ) (a : ResolvedNode)
    → Extends base nodes
    → get_elem? base i ≡ some a
    → get_elem? nodes i ≡ some a
get_elem?-Extends base nodes i a (rest, e) h = rw e (get_elem?-append base rest i a h)

pub Extends-through :
    (base nodes more final : List ResolvedNode)
    → Extends base nodes
    → Extends (nodes ++ more) final
    → Extends base final
Extends-through base nodes more final (rest, e) (rest', e') = (
  rest ++ (more ++ rest'),
  e'
      ∙ (append_assoc nodes more rest'
          ∙ (ap (λ xs. xs ++ (more ++ rest')) e ∙ append_assoc base rest (more ++ rest'))),
)

pub get_elem?-lt :
    (nodes : List ResolvedNode) (i : ℕ) (a : ResolvedNode)
    → get_elem? nodes i ≡ some a
    → i < length nodes
get_elem?-lt [] i a h = absurd cc
get_elem?-lt (x ∷ nodes) zero a h = omega arith
get_elem?-lt (x ∷ nodes) (suc i) a h = omega (arith, get_elem?-lt nodes i a h)

pub get_elem?-last :
    (nodes : List ResolvedNode) (node : ResolvedNode)
    → get_elem? (nodes ++ node ∷ []) (length nodes) ≡ some node
get_elem?-last [] node = refl
get_elem?-last (x ∷ nodes) node = get_elem?-last nodes node

IsListed-append :
    (nodes more : List ResolvedNode) (pr : PlannedResource)
    → IsListed nodes pr
    → IsListed (nodes ++ more) pr
IsListed-append nodes more pr (node, i, e, lists, kind, tier) =
    (node, i, get_elem?-append nodes more pr.node node e, lists, kind, tier)

-- The parts of the state that the limits and the locality rule are about.
pub record IsSoundFor (r : Resolver) (k : ℕ) (nodes : List ResolvedNode)
    (resources : List PlannedResource) (dedup : List (Bytes × Bytes)) (manifests : ℕ)
    (requests : List Request) : Type 0 where
  pub resources_bound : length resources ≤ r.limits.max_total_resources
  pub nodes_bound : length nodes ≤ r.limits.max_nested_manifests
  pub nodes_counted : length nodes ≤ manifests
  pub depths : All (λ n. n.depth ≤ r.limits.max_depth) nodes
  pub indices : All (λ pr. pr.node < length nodes) resources
  pub listed : All (IsListed nodes) resources
  pub keyed : All (λ pr. any (same_pair (planned_key pr)) dedup ≡ true) resources
  pub distinct : IsDistinct resources
  pub far : All (IsFar r k) requests

abbrev pub IsSound : Resolver → ℕ → State → Type 0
IsSound r k st = IsSoundFor r k st.nodes st.resources st.dedup st.manifests st.requests

-- An error that is not a panic or a run cut off.
abbrev pub IsProper : ResolveFault → Type 0
IsProper out_of_fuel = ⊥
IsProper panicked = ⊥
IsProper _ = Unit

same_pair_refl : (p : Bytes × Bytes) → same_pair p p ≡ true
same_pair_refl (k, t) = rw (bytes_eq_refl k) (rw (bytes_eq_refl t) refl)

same_pair-eq : (p q : Bytes × Bytes) → same_pair p q ≡ true → p ≡ q
same_pair-eq (k, t) (k', t') h =
    let a : bytes_eq k k' ≡ true = ground arith in
    let b : bytes_eq t t' ≡ true = ground arith in
    rw (bytes_eq→eq k k' a) (rw (bytes_eq→eq t t' b) refl)

IsDistinct-append :
    (prs : List PlannedResource) (new : PlannedResource)
    → IsDistinct prs
    → All (λ pr. same_pair (planned_key pr) (planned_key new) ≡ false) prs
    → IsDistinct (prs ++ new ∷ [])
IsDistinct-append [] new d a = (tt, tt)
IsDistinct-append (pr ∷ prs) new (h, d) (x, a) = (
  All-append (λ q. same_pair (planned_key pr) (planned_key q) ≡ false) prs (new ∷ []) h (x, tt),
  IsDistinct-append prs new d a,
)

module _ (dedup : List (Bytes × Bytes)) (new : PlannedResource)
    (fresh : any (same_pair (planned_key new)) dedup ≡ false) where
  keyed-fresh :
      (pr : PlannedResource)
      → any (same_pair (planned_key pr)) dedup ≡ true
      → same_pair (planned_key pr) (planned_key new) ≡ false
  keyed-fresh pr h = elim (Bool-cases (same_pair (planned_key pr) (planned_key new))) [
    | inr e ↦ e
    | inl e ↦ absurd (
        let same = same_pair-eq (planned_key pr) (planned_key new) e in
        let there : any (same_pair (planned_key new)) dedup ≡ true = rw same at h in cc)
  ]

  keyed-push :
      (pr : PlannedResource)
      → any (same_pair (planned_key pr)) dedup ≡ true
      → any (same_pair (planned_key pr)) (planned_key new ∷ dedup) ≡ true
  keyed-push pr h = ground arith

  -- A resource whose key is new is added to the plan.
  pub IsSoundFor-plan :
      (r : Resolver) (k : ℕ) (nodes : List ResolvedNode) (resources : List PlannedResource)
      (manifests : ℕ) (requests : List Request)
      → length resources + 1 ≤ r.limits.max_total_resources
      → new.node < length nodes
      → IsListed nodes new
      → IsSoundFor r k nodes resources dedup manifests requests
      → IsSoundFor r k nodes (resources ++ new ∷ []) (planned_key new ∷ dedup) manifests requests
  IsSoundFor-plan r k nodes resources manifests requests room index from s = record {
    resources_bound = omega (arith, length-append resources (new ∷ []));
    nodes_bound = s.nodes_bound;
    nodes_counted = s.nodes_counted;
    depths = s.depths;
    indices = All-append (λ pr. pr.node < length nodes) resources (new ∷ []) s.indices (index, tt);
    listed = All-append (IsListed nodes) resources (new ∷ []) s.listed (from, tt);
    keyed =
        All-append (λ pr. any (same_pair (planned_key pr)) (planned_key new ∷ dedup) ≡ true)
          resources (new ∷ [])
          (All-mono (λ pr. any (same_pair (planned_key pr)) dedup ≡ true)
            (λ pr. any (same_pair (planned_key pr)) (planned_key new ∷ dedup) ≡ true) keyed-push
            resources s.keyed)
          (rw (same_pair_refl (planned_key new)) refl, tt);
    distinct = IsDistinct-append resources new s.distinct (
        All-mono (λ pr. any (same_pair (planned_key pr)) dedup ≡ true)
          (λ pr. same_pair (planned_key pr) (planned_key new) ≡ false) keyed-fresh resources
          s.keyed);
    far = s.far;
  }

-- A manifest that is counted and within the limits is added.
pub IsSoundFor-node :
    (r : Resolver) (k : ℕ) (nodes : List ResolvedNode) (resources : List PlannedResource)
    (dedup : List (Bytes × Bytes)) (manifests : ℕ) (requests : List Request) (node : ResolvedNode)
    → length nodes < manifests
    → manifests ≤ r.limits.max_nested_manifests
    → node.depth ≤ r.limits.max_depth
    → IsSoundFor r k nodes resources dedup manifests requests
    → IsSoundFor r k (nodes ++ node ∷ []) resources dedup manifests requests
IsSoundFor-node r k nodes resources dedup manifests requests node counted bound depth s = record {
  resources_bound = s.resources_bound;
  nodes_bound = omega (arith, length-append nodes (node ∷ []));
  nodes_counted = omega (arith, length-append nodes (node ∷ []));
  depths = All-append (λ n. n.depth ≤ r.limits.max_depth) nodes (node ∷ []) s.depths (depth, tt);
  indices =
      All-mono (λ pr. pr.node < length nodes) (λ pr. pr.node < length (nodes ++ node ∷ []))
        (λ pr h. omega (arith, length-append nodes (node ∷ []))) resources s.indices;
  listed =
      All-mono (IsListed nodes) (IsListed (nodes ++ node ∷ []))
        (λ pr h. IsListed-append nodes (node ∷ []) pr h) resources s.listed;
  keyed = s.keyed;
  distinct = s.distinct;
  far = s.far;
}

pub IsSoundFor-count :
    (r : Resolver) (k : ℕ) (nodes : List ResolvedNode) (resources : List PlannedResource)
    (dedup : List (Bytes × Bytes)) (manifests : ℕ) (requests : List Request)
    → IsSoundFor r k nodes resources dedup manifests requests
    → IsSoundFor r k nodes resources dedup (manifests + 1) requests
IsSoundFor-count r k nodes resources dedup manifests requests s = record {
  resources_bound = s.resources_bound;
  nodes_bound = s.nodes_bound;
  nodes_counted = (let c = s.nodes_counted in omega arith);
  depths = s.depths;
  indices = s.indices;
  listed = s.listed;
  keyed = s.keyed;
  distinct = s.distinct;
  far = s.far;
}

pub IsSoundFor-request :
    (r : Resolver) (k : ℕ) (nodes : List ResolvedNode) (resources : List PlannedResource)
    (dedup : List (Bytes × Bytes)) (manifests : ℕ) (requests : List Request) (q : Request)
    → IsFar r k q
    → IsSoundFor r k nodes resources dedup manifests requests
    → IsSoundFor r k nodes resources dedup manifests (q ∷ requests)
IsSoundFor-request r k nodes resources dedup manifests requests q f s = record {
  resources_bound = s.resources_bound;
  nodes_bound = s.nodes_bound;
  nodes_counted = s.nodes_counted;
  depths = s.depths;
  indices = s.indices;
  listed = s.listed;
  keyed = s.keyed;
  distinct = s.distinct;
  far = (f, s.far);
}
