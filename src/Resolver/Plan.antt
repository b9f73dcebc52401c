-- ===== src/Resolver/Plan.antt =====
-- What resolving a name promises: the limits, termination, the locality rule, and the decisions on the plan.
use m_url.Base.{
  none, Option, ℕ, ◌≡◌, ◌≢◌, refl, subst, List, [], ◌∷◌, some, Result, ok, err, All, get_elem?,
}
use m_url.Murl.Types.{Murl}
use m_url.Cache.{Files}
use m_url.Kind.{parse_kind}
use m_url.Policy.{Policy, evaluate, classify}
use m_url.Resolver.Types.{
  ResolvedNode, PlannedResource, Resolution, ResolveFault, out_of_fuel, panicked, Resolver,
}
use m_url.Resolver.Locality.{is_remote, rank, locality_of}
use m_url.Resolver.State.{State}
use m_url.Resolver.Select.{resolve, decide, decide_all, apply_policy}
use m_url.Resolver.Sound.{IsProper, IsFar, IsListed}
use m_url.Resolver.Outcome.{IsPlan, IsResolved, far_rank, resolve-IsResolved}

module _ (r : Resolver) (k : ℕ) where
  resolved-IsPlan :
      (x : Result ResolveFault Resolution × State) (res : Resolution)
      → IsResolved r k x
      → x.0 ≡ ok res
      → IsPlan r res
  resolved-IsPlan (ok res', st) res h e = let same : res' ≡ res = cc in subst (IsPlan r) same h.0
  resolved-IsPlan (err f, st) res h e = absurd cc

  resolved-IsProper :
      (x : Result ResolveFault Resolution × State) (f : ResolveFault)
      → IsResolved r k x
      → x.0 ≡ err f
      → IsProper f
  resolved-IsProper (ok res, st) f h e = absurd cc
  resolved-IsProper (err g, st) f h e = let same : g ≡ f = cc in subst IsProper same h.0

  resolved-IsFar :
      (x : Result ResolveFault Resolution × State) → IsResolved r k x → All (IsFar r k) x.1.requests
  resolved-IsFar (ok res, st) h = h.1
  resolved-IsFar (err g, st) h = h.1

-- When a name resolves, the plan has at most `max_total_resources` resources and comes from at most
-- `max_nested_manifests` manifests, none of them nested deeper than `max_depth`; every resource
-- is listed by the one of these manifests that it is attributed to, with its kind and tier; and no two
-- resources have the same kind and target.
pub resolve-IsPlan :
    (r : Resolver) (m : Murl) (files : Files) (res : Resolution)
    → (resolve r m files).0 ≡ ok res
    → IsPlan r res
resolve-IsPlan r m files res h =
    resolved-IsPlan r (far_rank r m files) (resolve r m files) res (resolve-IsResolved r m files) h

-- With the fuel that `resolve` starts with, the recursion through nested manifests never runs out of it,
-- whatever the manifests name; and no index is out of range when it goes through a manifest's resources.
pub resolve-terminates :
    (r : Resolver) (m : Murl) (files : Files)
    → ((resolve r m files).0 ≢ err out_of_fuel) × ((resolve r m files).0 ≢ err panicked)
resolve-terminates r m files = (improper out_of_fuel, improper panicked)
  where
    improper : (f : ResolveFault) → (resolve r m files).0 ≡ err f → IsProper f
    improper f h =
        resolved-IsProper r (far_rank r m files) (resolve r m files) f
          (resolve-IsResolved r m files) h

-- Every file of the store and every URL that is asked for while a name is resolved, also when that
-- fails, is that of a name whose authority is at least as far away as the authority of the name.
pub resolve-IsFar :
    (r : Resolver) (m : Murl) (files : Files)
    → All (IsFar r (rank (locality_of m.authority))) (resolve r m files).1.requests
resolve-IsFar r m files =
    resolved-IsFar r (far_rank r m files) (resolve r m files) (resolve-IsResolved r m files)

-- The resource is one that the manifest at its index lists, with its kind and tier, and has the decision
-- that the policy makes on these in the context of that manifest.
abbrev pub IsDecided : Policy → List ResolvedNode → PlannedResource → Type 0
IsDecided policy nodes pr =
    (node : ResolvedNode) × (i : ℕ) × (get_elem? nodes pr.node ≡ some node)
    × (get_elem? node.manifest.doc.resources i ≡ some pr.resource)
    × (parse_kind pr.resource.kind ≡ ok pr.kind)
    × (pr.tier ≡ classify pr.kind pr.resource.target)
    × (pr.decision
        ≡ some (
            evaluate policy pr.kind pr.tier (record {
              trust = node.trust;
              manifest_expired = node.expired;
              manifest_premature = node.premature;
              remote_origin = is_remote node.origin;
            })))

-- The resources, whatever is decided on them.
abbrev pub undecided : List PlannedResource → List PlannedResource
undecided [] = []
undecided (pr ∷ prs) = record pr { decision = none } ∷ undecided prs

decide_all-IsDecided :
    (policy : Policy) (nodes : List ResolvedNode) (prs : List PlannedResource)
    → All (IsListed nodes) prs
    → All (IsDecided policy nodes) (decide_all policy nodes prs)
unfolding decide_all
decide_all-IsDecided policy nodes [] h = tt
decide_all-IsDecided policy nodes (pr ∷ prs) ((node, i, e, lists, kind, tier), h) =
    let rest = decide_all-IsDecided policy nodes prs h in
    rw e ((node, i, e, lists, kind, tier, refl), rest)

decide_all-undecided :
    (policy : Policy) (nodes : List ResolvedNode) (prs : List PlannedResource)
    → undecided (decide_all policy nodes prs) ≡ undecided prs
unfolding decide_all
decide_all-undecided policy nodes [] = refl
decide_all-undecided policy nodes (pr ∷ prs) =
    let same = decided pr (get_elem? nodes pr.node) in
    let rest = decide_all-undecided policy nodes prs in cc
  where
    decided :
        (pr : PlannedResource) (o : Option ResolvedNode)
        → ◌≡◌ {A = PlannedResource}
            (record (decide policy pr o) { decision = none })
            (record pr { decision = none })
    decided pr none = refl
    decided pr (some node) = refl

-- After a name resolves, applying a policy keeps the resources of the plan, in their order, and gives
-- each one a decision. Each is one of the resources of the manifest that it is attributed to, with the
-- kind that it names there and the tier of its kind and target, and its decision is that of the policy
-- on these in the context of that manifest: its trust, whether it is expired or not yet valid, and
-- whether it was fetched.
pub resolve-IsDecided :
    (r : Resolver) (m : Murl) (files : Files) (policy : Policy) (res : Resolution)
    → (resolve r m files).0 ≡ ok res
    → (undecided (apply_policy policy res).resources ≡ undecided res.resources)
      × All (IsDecided policy res.nodes) (apply_policy policy res).resources
unfolding apply_policy
resolve-IsDecided r m files policy res h =
    let plan = resolve-IsPlan r m files res h in
    (
      decide_all-undecided policy res.nodes res.resources,
      decide_all-IsDecided policy res.nodes res.resources plan.listed,
    )
