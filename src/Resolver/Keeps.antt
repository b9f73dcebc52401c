-- ===== src/Resolver/Keeps.antt =====
-- The resolver keeps the invariant of its state, on every path and whether it ends in an error or not; it
-- does not panic, and the fuel suffices.
use m_url.Base.{
  ℕ, zero, suc, ◌+◌, ◌≤◌, ◌<◌, ◌≡◌, false, not, ◌&&◌, List, [], ◌∷◌, Option, none, some, Result, ok,
  err, length, sym, refl, append-nil, get_elem?, ◌++◌, any, All, ltb, get_elem?-below, arith,
}
use m_url.Base.Text.{Bytes}
use m_url.Murl.Types.{Murl, MurlParseError}
use m_url.Murl.Parse.{parse, identity}
use m_url.Kind.{Kind, parse_kind}
use m_url.Graph.{execution_order}
use m_url.Graph.Order.{execution_order-IsOrder}
use m_url.Trust.Store.{check_integrity}
use m_url.Trust.Verify.{VerifiedSignature, verify_manifest}
use m_url.Manifest.Types.{ResourceDoc, Manifest}
use m_url.Manifest.Validate.Types.{into_result}
use m_url.Manifest.Validate.Resources.{same_pair, key_of, is_murl}
use m_url.Manifest.Validate.Document.{from_slice, validate, is_present}
use m_url.Resolver.Types.{
  ResolvedNode, Origin, too_many_manifests, too_many_resources, pin_fault, manifest_fault,
  invalid_manifest, signature_fault, invalid_nested, dependency_cycle, invalid_kind, Resolver,
}
use m_url.Resolver.Locality.{rank, nearer, locality_of, of_source}
use m_url.Resolver.State.{State, Action}
use m_url.Resolver.Ingest.{
  Context, Ingest, in_list, crosses, add_resource, enter, nest, splice, ingest_resource,
  ingest_resources, node_of, ingest_manifest, check_declared, check_identity, check_manifest,
  ingest_bytes, check_pin, ingest_with, ingest_named, label_of, is_relabeled, is_expired,
  is_premature,
}
use m_url.Resolver.Sound.{
  Extends-through, get_elem?-Extends, get_elem?-lt, get_elem?-last, Extends, IsSound,
  IsSoundFor-plan, IsSoundFor-node, IsSoundFor-count,
}
use m_url.Resolver.Steps.{
  Holds, after-Holds, lift-Holds, if-Holds, Holds-weaken, raise_if-Holds, raise_then-Holds,
  warn_then-Holds, lift_then-Holds, IsReady, IsLocated, locate-Holds,
}

-- The invariant, where the manifests start with `base`.
abbrev pub IsAt : Resolver → ℕ → List ResolvedNode → State → Type 0
IsAt r k base st = IsSound r k st × (Extends base st.nodes)

abbrev pub Keeps : Resolver → ℕ → List ResolvedNode → Action (Unit {0}) → State → Type 0
Keeps r k base m st = Holds (IsSound r k) (λ u st. IsAt r k base st) (m st)

-- What is asked of the function that ingests a nested name at a depth.
abbrev pub IsKeeping : Resolver → ℕ → Ingest → ℕ → Type 0
IsKeeping r k ingest depth =
    (m : Murl) (anchor pin : Option Bytes) (base : List ResolvedNode) (st : State)
    → k ≤ rank (locality_of m.authority)
    → IsAt r k base st
    → Keeps r k base (ingest m depth anchor pin) st

-- Inside the loop, over the resources of the manifest `node`, which is in the state.
module _ (r : Resolver) (k : ℕ) (ingest : Ingest) (c : Context) (base : List ResolvedNode)
    (node : ResolvedNode) (there : get_elem? base c.node ≡ some node) (far : k ≤ rank c.source)
    (deeper : c.depth + 1 ≤ r.limits.max_depth → IsKeeping r k ingest (c.depth + 1)) where
  abbrev E : State → Type 0
  E = IsSound r k

  abbrev Q : Unit {0} → State → Type 0
  Q u st = IsAt r k base st

  -- The manifest lists the resource, and that is its kind.
  abbrev Lists : ResourceDoc → Kind → Type 0
  Lists doc kind =
      (i : ℕ) × (get_elem? node.manifest.doc.resources i ≡ some doc)
      × (parse_kind doc.kind ≡ ok kind)

  add_resource-Keeps :
      (doc : ResourceDoc) (kind : Kind) (st : State)
      → Lists doc kind
      → IsAt r k base st
      → Keeps r k base (add_resource r c doc kind) st
  unfolding add_resource
  add_resource-Keeps doc kind st (i, lists, kind_eq) (s, g) =
      let here = get_elem?-Extends base st.nodes c.node node g there in
      raise_then-Holds E Q (ltb r.limits.max_total_resources (length st.resources + 1))
        too_many_resources _ st tt s
        (λ room.
          if-Holds E Q (any (same_pair (key_of kind doc.target)) st.dedup) _ _ st (λ e. (s, g))
            (λ e. (
              IsSoundFor-plan st.dedup _ e r k st.nodes st.resources st.manifests st.requests
                  (ground arith) (get_elem?-lt st.nodes c.node node here)
                  (node, i, here, lists, kind_eq, refl) s,
              g,
            )))

  enter-Keeps :
      (doc : ResourceDoc) (child : Murl) (st : State)
      → k ≤ rank (locality_of child.authority)
      → c.depth + 1 ≤ r.limits.max_depth
      → IsAt r k base st
      → Keeps r k base (enter r ingest c doc child) st
  unfolding enter
  enter-Keeps doc child st f d h =
      warn_then-Holds E Q (IsAt r k base) (crosses c.murl child) _ _ st h h
        (λ st h. after-Holds E Q Q _ _ (deeper d child _ _ base _ f h) (λ u st h. h))

  nest-Keeps :
      (doc : ResourceDoc) (child : Murl) (st : State)
      → IsAt r k base st
      → Keeps r k base (nest r ingest c doc child) st
  unfolding nest
  nest-Keeps doc child st h =
      raise_then-Holds E Q (nearer (locality_of child.authority) c.source) _ _ st tt h.0 (λ e.
        warn_then-Holds E Q (IsAt r k base) (is_present child.selector) _ _ st h h (λ st h.
          raise_then-Holds E Q (ltb r.limits.max_depth (c.depth + 1)) _ _ st tt h.0 (λ d.
            raise_then-Holds E Q (in_list (identity child) st.stack) _ _ st tt h.0 (λ new.
              if-Holds E Q (in_list (identity child) st.visited) _ _ st (λ old. h)
                (λ old. enter-Keeps doc child st (farther e) (ground arith) h)))))
    where
      farther :
          nearer (locality_of child.authority) c.source ≡ false
          → k ≤ rank (locality_of child.authority)
      farther e = let f = far in ground arith

  splice-Keeps :
      (doc : ResourceDoc) (kind : Kind) (st : State)
      → Lists doc kind
      → IsAt r k base st
      → Keeps r k base (splice r ingest c doc kind) st
  unfolding splice
  splice-Keeps doc kind st listed h =
      if-Holds E Q (is_murl kind) _ _ st
        (λ e.
          lift_then-Holds E Q invalid_nested (parse doc.target) _ st (λ x. tt) h.0
            (λ child x. nest-Keeps doc child st h))
        (λ e. add_resource-Keeps doc kind st listed h)

  ingest_resources-Keeps :
      (order : List ℕ) (st : State)
      → All (λ i. i < length node.manifest.doc.resources) order
      → IsAt r k base st
      → Keeps r k base (ingest_resources r ingest c node.manifest.doc.resources order) st
  unfolding ingest_resources ingest_resource
  ingest_resources-Keeps [] st a h = h
  ingest_resources-Keeps (i ∷ order) st (range, a) h =
      let (doc, lists) = get_elem?-below node.manifest.doc.resources i range in
      after-Holds E Q Q _ _
        (rw lists (
          lift_then-Holds E Q invalid_kind (parse_kind doc.kind) _ st (λ x. tt) h.0
            (λ kind x. splice-Keeps doc kind st (i, lists, x) h)))
        (λ u st h. ingest_resources-Keeps order st a h)

module _ (r : Resolver) (k : ℕ) (base : List ResolvedNode) where
  abbrev Sound : State → Type 0
  Sound = IsSound r k

  abbrev Ready : State → Type 0
  Ready = IsReady r k base

  check_identity-Ready :
      (m : Option Murl) (declared : Option Bytes) (st : State)
      → Ready st
      → Holds Sound (λ u st. Ready st) (check_identity m declared st)
  unfolding check_identity check_declared
  check_identity-Ready none declared st h = h
  check_identity-Ready (some m) none st h = h
  check_identity-Ready (some m) (some declared) st h = compared (parse declared)
    where
      compared :
          (x : Result MurlParseError Murl) → Holds Sound (λ u st. Ready st) (check_declared m x st)
      compared (err e) = (tt, h.0)
      compared (ok d) =
          raise_if-Holds Sound (λ u st. Ready st) (is_relabeled d m) _ st tt h.0 (λ e. h)

  check_manifest-Ready :
      (m : Option Murl) (origin : Origin) (manifest : Manifest) (st : State)
      → Ready st
      → Holds Sound (λ v st. Ready st) (check_manifest r m origin manifest st)
  unfolding check_manifest
  check_manifest-Ready m origin manifest st h =
      lift_then-Holds Sound R invalid_manifest (into_result (validate r.crypto r.floats manifest)) _
        _ (λ e. tt) h.0
        (λ report valid.
          lift_then-Holds Sound R signature_fault (verify_manifest r.crypto r.scheme manifest.raw) _
            _ (λ e. tt) h.0
            (λ v verified.
              warn_then-Holds Sound R Ready (is_present v && not (is_present manifest.doc.id)) _ _ _
                h h
                (λ st h.
                  after-Holds Sound (λ u st. Ready st) R _ _
                    (check_identity-Ready m manifest.doc.id st h)
                    (λ u st h.
                      warn_then-Holds Sound R Ready (is_expired r.now manifest.doc.expires) _ _ st h
                        h
                        (λ st h.
                          warn_then-Holds Sound R Ready (is_premature r.now manifest.doc.not_before)
                            _ _ st h h (λ st h. h))))))
    where
      R : Option VerifiedSignature → State → Type 0
      R v st = Ready st

  module _ (ingest : Ingest) (m : Option Murl) (bytes : Bytes) (origin : Origin) (depth : ℕ)
      (anchor : Option Bytes) (far : k ≤ rank (of_source origin m))
      (shallow : depth ≤ r.limits.max_depth)
      (deeper : depth + 1 ≤ r.limits.max_depth → IsKeeping r k ingest (depth + 1)) where
    ingest_manifest-Keeps :
        (manifest : Manifest) (verified : Option VerifiedSignature) (st : State)
        → Ready st
        → Keeps r k base (ingest_manifest r ingest m bytes origin depth anchor manifest verified) st
    unfolding ingest_manifest
    ingest_manifest-Keeps manifest verified st (s, g, counted, bound) =
        let node = node_of r m bytes origin depth manifest verified in
        let sound =
          IsSoundFor-node r k st.nodes st.resources st.dedup st.manifests st.requests node counted
            bound shallow s in
        lift_then-Holds Sound (λ u st. IsAt r k base st) dependency_cycle
          (execution_order manifest.doc.resources) _ _ (λ e. tt) sound
          (λ order e.
            Holds-weaken Sound (λ u new. IsAt r k (st.nodes ++ node ∷ []) new)
              (λ u new. IsAt r k base new) _
              (λ u new h. (h.0, Extends-through base st.nodes (node ∷ []) new.nodes g h.1))
              (ingest_resources-Keeps r k ingest
                (record {
                  murl = m;
                  label = label_of m origin;
                  source = of_source origin m;
                  depth = depth;
                  anchor = anchor;
                  node = length st.nodes;
                })
                (st.nodes ++ node ∷ []) node (get_elem?-last st.nodes node) far deeper order _
                (execution_order-IsOrder manifest.doc.resources order e).in_range
                (sound, ([], sym (append-nil (st.nodes ++ node ∷ []))))))

    ingest_bytes-Keeps :
        (st : State)
        → Ready st
        → Keeps r k base (ingest_bytes r ingest m bytes origin depth anchor) st
    unfolding ingest_bytes
    ingest_bytes-Keeps st h =
        lift_then-Holds Sound (λ u st. IsAt r k base st) manifest_fault
          (from_slice r.json r.limits bytes) _ st (λ e. tt) h.0
          (λ manifest x.
            after-Holds Sound (λ v st. Ready st) (λ u st. IsAt r k base st) _ _
              (check_manifest-Ready m origin manifest st h)
              (λ v st h. ingest_manifest-Keeps manifest v st h))

module _ (r : Resolver) (k : ℕ) where
  check_pin-Ready :
      (base : List ResolvedNode) (bytes : Bytes) (pin : Option Bytes) (st : State)
      → IsReady r k base st
      → Holds (IsSound r k) (λ u st. IsReady r k base st) (check_pin r bytes pin st)
  unfolding check_pin
  check_pin-Ready base bytes none st h = h
  check_pin-Ready base bytes (some pin) st h =
      lift-Holds (IsSound r k) (λ u st. IsReady r k base st) pin_fault
        (check_integrity r.crypto bytes pin) st (λ e. tt) h.0 (λ a e. h)

  ingest_with-Keeps :
      (ingest : Ingest) (depth : ℕ)
      → depth ≤ r.limits.max_depth
      → (depth + 1 ≤ r.limits.max_depth → IsKeeping r k ingest (depth + 1))
      → IsKeeping r k (ingest_with r ingest) depth
  unfolding ingest_with
  ingest_with-Keeps ingest depth shallow deeper m anchor pin base st far (s, g) =
      let counted =
        IsSoundFor-count r k st.nodes st.resources st.dedup st.manifests st.requests s in
      let c = s.nodes_counted in
      raise_then-Holds (IsSound r k) Q (ltb r.limits.max_nested_manifests (st.manifests + 1))
        too_many_manifests _ _ tt counted
        (λ room.
          after-Holds (IsSound r k) (IsLocated r k base m far) Q _ _
            (locate-Holds r k base m far _ (counted, g, omega arith, ground arith))
            (λ (bytes, origin) st (h, same).
              after-Holds (IsSound r k) (λ u st. IsReady r k base st) Q _ _
                (check_pin-Ready base bytes pin st h)
                (λ u st h.
                  ingest_bytes-Keeps r k base ingest (some m) bytes origin depth anchor
                    (rw same far) shallow deeper st h)))
    where
      Q : Unit {0} → State → Type 0
      Q u st = IsAt r k base st

  -- With more fuel than levels that are left, ingesting a name keeps the invariant.
  pub ingest_named-Keeps :
      (fuel depth : ℕ)
      → depth ≤ r.limits.max_depth
      → r.limits.max_depth < fuel + depth
      → IsKeeping r k (ingest_named r fuel) depth
  unfolding ingest_named
  ingest_named-Keeps zero depth shallow enough m anchor pin base st far h = absurd (omega arith)
  ingest_named-Keeps (suc fuel) depth shallow enough m anchor pin base st far h =
      ingest_with-Keeps (ingest_named r fuel) depth shallow
        (λ deeper. ingest_named-Keeps fuel (depth + 1) deeper (omega arith)) m anchor pin base st
        far h
