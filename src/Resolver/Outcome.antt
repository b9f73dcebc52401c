-- ===== src/Resolver/Outcome.antt =====
-- What a resolution promises.
use m_url.Base.{
  ℕ, ◌≤◌, ◌<◌, ◌≡◌, inl, inr, refl, sym, subst, Bool, false, List, [], ◌∷◌, Option, none, some,
  Result, ok, err, >>=-eq-ok, Bool-cases, length, any, All, retain, arith,
}
use m_url.Murl.Types.{Murl, SelectorItem}
use m_url.Murl.Parse.{selector_display}
use m_url.Cache.{Files}
use m_url.Manifest.Validate.Resources.{same_pair}
use m_url.Resolver.Types.{
  ResolvedNode, PlannedResource, Resolution, ResolveFault, unmatched_item, Resolver,
}
use m_url.Resolver.Locality.{rank, locality_of}
use m_url.Resolver.State.{State}
use m_url.Resolver.Select.{
  claims, matches, check_items, resolution_of, finish, finished, enough, run_named, popped, resolve,
}
use m_url.Resolver.Sound.{IsListed, IsSound, IsProper, IsFar, IsDistinct, planned_key}
use m_url.Resolver.Steps.{Holds}
use m_url.Resolver.Keeps.{IsAt, ingest_named-Keeps}

-- What holds of the plan that a resolution has.
pub record IsPlan (r : Resolver) (res : Resolution) : Type 0 where
  pub resources_bound : length res.resources ≤ r.limits.max_total_resources
  pub nodes_bound : length res.nodes ≤ r.limits.max_nested_manifests
  pub depths : All (λ n. n.depth ≤ r.limits.max_depth) res.nodes
  pub indices : All (λ pr. pr.node < length res.nodes) res.resources
  pub listed : All (IsListed res.nodes) res.resources
  pub distinct : IsDistinct res.resources

module _ {A : Type 0} (keep : A → Bool) where
  retain-All : (P : A → Type 0) (xs : List A) → All P xs → All P (retain keep xs)
  retain-All P [] h = tt
  retain-All P (x ∷ xs) (p, h) = elim (Bool-cases (keep x)) [
    | inl e ↦ rw (e, retain) (p, retain-All P xs h)
    | inr e ↦ rw (e, retain) (retain-All P xs h)
  ]

  length-retain : (xs : List A) → length (retain keep xs) ≤ length xs
  length-retain [] = omega arith
  length-retain (x ∷ xs) = elim (Bool-cases (keep x)) [
    | inl e ↦ rw (e, retain) (omega (arith, length-retain xs))
    | inr e ↦ rw (e, retain) (omega (arith, length-retain xs))
  ]

retain-IsDistinct :
    (keep : PlannedResource → Bool) (prs : List PlannedResource)
    → IsDistinct prs
    → IsDistinct (retain keep prs)
retain-IsDistinct keep [] d = tt
retain-IsDistinct keep (pr ∷ prs) (h, d) = elim (Bool-cases (keep pr)) [
  | inl e ↦
      rw (e, retain)
        (
          retain-All keep (λ q. same_pair (planned_key pr) (planned_key q) ≡ false) prs h,
          retain-IsDistinct keep prs d,
        )
  | inr e ↦ rw (e, retain) (retain-IsDistinct keep prs d)
]

module _ (r : Resolver) (k : ℕ) (st : State) (s : IsSound r k st) where
  finish-IsPlan :
      (selector : Option (List SelectorItem)) (res : Resolution)
      → finish st selector ≡ ok res
      → IsPlan r res
  unfolding finish
  finish-IsPlan none res h =
      let e : resolution_of st st.resources none ≡ res = cc in
      rw (sym e) (record {
        resources_bound = s.resources_bound;
        nodes_bound = s.nodes_bound;
        depths = s.depths;
        indices = s.indices;
        listed = s.listed;
        distinct = s.distinct;
      })
  finish-IsPlan (some items) res h =
      let (u, matched, h₁) = >>=-eq-ok (check_items st.nodes st.resources items) _ h in
      let chosen = retain (λ pr. any (claims pr) items) st.resources in
      let e : resolution_of st chosen (selector_display (some items)) ≡ res = cc in
      rw (sym e) (record {
        resources_bound =
            (let b = s.resources_bound in
              omega (arith, length-retain (λ pr. any (claims pr) items) st.resources));
        nodes_bound = s.nodes_bound;
        depths = s.depths;
        indices =
            retain-All (λ pr. any (claims pr) items) (λ pr. pr.node < length st.nodes) st.resources
              s.indices;
        listed = retain-All (λ pr. any (claims pr) items) (IsListed st.nodes) st.resources s.listed;
        distinct = retain-IsDistinct (λ pr. any (claims pr) items) st.resources s.distinct;
      })

check_items-IsProper :
    (nodes : List ResolvedNode) (prs : List PlannedResource) (items : List SelectorItem)
    (e : ResolveFault)
    → check_items nodes prs items ≡ err e
    → IsProper e
unfolding check_items
check_items-IsProper nodes prs [] e h = absurd cc
check_items-IsProper nodes prs (item ∷ items) e h = elim (Bool-cases (matches nodes prs item)) [
  | inl t ↦ check_items-IsProper nodes prs items e (rw t at h)
  | inr f ↦ let h' = rw f at h in let same : unmatched_item item ≡ e = cc in subst IsProper same tt
]

finish-IsProper :
    (st : State) (selector : Option (List SelectorItem)) (e : ResolveFault)
    → finish st selector ≡ err e
    → IsProper e
unfolding finish
finish-IsProper st none e h = absurd cc
finish-IsProper st (some items) e h = go (check_items st.nodes st.resources items) refl
  where
    go :
        (x : Result ResolveFault (Unit {0}))
        → check_items st.nodes st.resources items ≡ x
        → IsProper e
    go (ok u) eq = absurd (let h' = rw eq at h in cc)
    go (err f) eq = check_items-IsProper st.nodes st.resources items e (let h' = rw eq at h in cc)

module _ (r : Resolver) (k : ℕ) where
  -- A resolution that is a plan, or a proper error; and every request is far enough in both cases.
  abbrev pub IsResolved : Result ResolveFault Resolution × State → Type 0
  IsResolved x =
      Holds (λ st. All (IsFar r k) st.requests)
        (λ res st. IsPlan r res × All (IsFar r k) st.requests) x

  finish-IsResolved :
      (st : State) (selector : Option (List SelectorItem))
      → IsSound r k st
      → IsResolved (finish st selector, st)
  finish-IsResolved st selector s = go (finish st selector) refl
    where
      go : (x : Result ResolveFault Resolution) → finish st selector ≡ x → IsResolved (x, st)
      go (ok res) eq = (finish-IsPlan r k st s selector res eq, s.far)
      go (err e) eq = (finish-IsProper st selector e eq, s.far)

  pub finished-IsResolved :
      (selector : Option (List SelectorItem)) (n : List ResolvedNode)
      (x : Result ResolveFault (Unit {0}) × State)
      → Holds (IsSound r k) (λ u st. IsAt r k n st) x
      → IsResolved (finished selector x)
  finished-IsResolved selector n (ok u, st) (s, g) = finish-IsResolved st selector s
  finished-IsResolved selector n (err e, st) (p, s) = (p, s.far)

  pub popped-Holds :
      (n : List ResolvedNode) (x : Result ResolveFault (Unit {0}) × State)
      → Holds (IsSound r k) (λ u st. IsAt r k n st) x
      → Holds (IsSound r k) (λ u st. IsAt r k n st) (popped r x)
  popped-Holds n (ok u, st) h = h
  popped-Holds n (err e, st) h = h

module _ (r : Resolver) (m : Murl) (files : Files) where
  abbrev pub far_rank : ℕ
  far_rank = rank (locality_of m.authority)

  run_named-Holds : Holds (IsSound r far_rank) (λ u st. IsAt r far_rank [] st) (run_named r m files)
  unfolding run_named
  run_named-Holds =
      ingest_named-Keeps r far_rank (enough r) 0 (omega arith) (omega arith) m none none [] _
        (omega arith)
        (
          record {
            resources_bound = omega arith;
            nodes_bound = omega arith;
            nodes_counted = omega arith;
            depths = tt;
            indices = tt;
            listed = tt;
            keyed = tt;
            distinct = tt;
            far = tt;
          },
          ([], refl),
        )

  pub resolve-IsResolved : IsResolved r far_rank (resolve r m files)
  unfolding resolve
  resolve-IsResolved =
      finished-IsResolved r far_rank m.selector [] _
        (popped-Holds r far_rank [] (run_named r m files) run_named-Holds)
