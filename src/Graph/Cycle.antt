-- ===== src/Graph/Cycle.antt =====
-- An order is refused exactly where dependencies run in a circle.
use m_url.Base.{
  ℕ, zero, suc, ◌+◌, ◌<◌, ◌≡◌, ◌↔◌, inl, inr, refl, ◌∙◌, Bool, true, false, List, [], ◌∷◌, ◌++◌,
  Option, none, some, Result, ok, err, Bool-cases, Option-cases, ◌==◌, length, get_or, set,
  length-set, length-replicate, replicate, all, All, arith,
}
use m_url.Base.Text.{Bytes, bytes_eq}
use m_url.Manifest.Types.{ResourceDoc}
use m_url.Graph.{
  position, push_edge, edges, deps_from, is_done, is_ready, pick_from, key_lt, rounds,
  execution_order,
}
use m_url.Graph.Schedule.{pick-IsNext, pick_none}
use m_url.Graph.Marks.{member, some_open, count_open, count_open-set, count_open-replicate}
use m_url.Graph.Depends.{DependsOn, deps_iff}
use m_url.Graph.Order.{IsOrdered, ready_open, execution_order-IsOrder}

-- A set of resources, those without a flag, with at least one, each of which depends on another one of
-- the set: following the dependencies from any of them never leaves the set.
pub record StuckSet (resources : List ResourceDoc) : Type 0 where
  pub done : List Bool
  pub start : ℕ
  pub start_in_range : start < length resources
  pub start_open : is_done done start ≡ false
  pub next :
      (k : ℕ)
      → k < length resources
      → is_done done k ≡ false
      → (j : ℕ) × (j < length resources) × DependsOn resources k j × (is_done done j ≡ false)

position-lt :
    (i : ℕ) (id : Bytes) (rs : List ResourceDoc) (j : ℕ)
    → position i id rs ≡ some j
    → j < i + length rs
unfolding position
position-lt i id [] j h = cc
position-lt i id (r ∷ rs) j h = elim (Bool-cases (bytes_eq r.id id)) [
  | inl e ↦ let h' = rw e at h in let same : i ≡ j = ground arith in omega arith
  | inr e ↦ omega (arith, position-lt (suc i) id rs j (rw e at h))
]

push_edge-lt :
    (n i : ℕ) (o : Option ℕ) (js : List ℕ)
    → ((j : ℕ) → o ≡ some j → j < n)
    → All (λ j. j < n) js
    → All (λ j. j < n) (push_edge i o js)
push_edge-lt n i none js h rest = rest
push_edge-lt n i (some j) js h rest = elim (Bool-cases (j == i)) [
  | inl s ↦ rw s rest
  | inr s ↦ rw s (h j refl, rest)
]

edges-lt :
    (resources : List ResourceDoc) (i : ℕ) (ds : List Bytes)
    → All (λ j. j < length resources) (edges resources i ds)
unfolding edges
edges-lt resources i [] = tt
edges-lt resources i (d ∷ ds) =
    push_edge-lt (length resources) i (position 0 d resources) (edges resources i ds)
      (λ j e. let b = position-lt 0 d resources j e in omega arith) (edges-lt resources i ds)

deps_from-lt :
    (resources : List ResourceDoc) (i : ℕ) (rs : List ResourceDoc) (k : ℕ)
    → All (λ j. j < length resources) (get_or (deps_from resources i rs) k [])
unfolding deps_from
deps_from-lt resources i [] k = tt
deps_from-lt resources i (r ∷ rs) zero = edges-lt resources i r.depends_on
deps_from-lt resources i (r ∷ rs) (suc k) = deps_from-lt resources (suc i) rs k

-- The first dependency that is not done.
open_dep :
    (done : List Bool) (n : ℕ) (js : List ℕ)
    → All (λ j. j < n) js
    → all (is_done done) js ≡ false
    → (j : ℕ) × (j < n) × (member j js ≡ true) × (is_done done j ≡ false)
open_dep done n [] b h = cc
open_dep done n (j ∷ js) (bj, b) h = elim (Bool-cases (is_done done j)) [
  | inl d ↦ let (k, lt, m, f) = open_dep done n js b (rw d at h) in (k, lt, (ground arith), f)
  | inr f ↦ (j, bj, (ground arith), f)
]

not_ready_open :
    (deps : List (List ℕ)) (done : List Bool) (k : ℕ)
    → is_ready deps done k ≡ false
    → is_done done k ≡ false
    → all (is_done done) (get_or deps k []) ≡ false
unfolding is_ready
not_ready_open deps done k h f = ground arith

module _ (resources : List ResourceDoc) where
  blocked-StuckSet :
      (done : List Bool) (left : ℕ)
      → length done ≡ length resources
      → count_open done ≡ suc left
      → pick_from
          (is_ready (deps_from resources 0 resources) done)
          (key_lt resources)
          (length resources)
          0
          none
        ≡ none
      → StuckSet resources
  blocked-StuckSet done left len count e =
      let (k, lt, f) = some_open done left count in
      record {
        done = done;
        start = k;
        start_in_range = omega arith;
        start_open = f;
        next = λ i r open_i.
            (let (j, rj, m, f) =
                open_dep done (length resources) (get_or (deps_from resources 0 resources) i [])
                  (deps_from-lt resources 0 resources i)
                  (not_ready_open (deps_from resources 0 resources) done i
                    (pick_none resources (deps_from resources 0 resources) done e i r) open_i) in
              (j, rj, (deps_iff resources i j).0 m, f));
      }

  rounds-StuckSet :
      (left : ℕ) (done : List Bool) (out : List ℕ) (ids : List Bytes)
      → length done ≡ length resources
      → count_open done ≡ left
      → rounds resources (deps_from resources 0 resources) left done out ≡ err ids
      → StuckSet resources
  unfolding rounds
  rounds-StuckSet zero done out ids len count h = cc
  rounds-StuckSet (suc left) done out ids len count h =
      elim (Option-cases (
        pick_from (is_ready (deps_from resources 0 resources) done) (key_lt resources)
          (length resources) 0 none)) [
            | inl e ↦ blocked-StuckSet done left len count e
            | inr (i, e) ↦
                let next = pick-IsNext resources (deps_from resources 0 resources) done i e in
                let r = next.in_range in
                let f = ready_open (deps_from resources 0 resources) done i next.ready in
                let step = count_open-set done i (omega arith) f in
                rounds-StuckSet left (set done i true) (out ++ i ∷ []) ids
                  (length-set done i true ∙ len) (omega arith) (rw (e, rounds) at h)
          ]

  -- No index of an ordered sequence is in a stuck set.
  ordered_avoids :
      (s : StuckSet resources) (out : List ℕ) (seen : List ℕ)
      → ((j : ℕ) → j < length resources → member j seen ≡ true → is_done s.done j ≡ true)
      → All (λ i. i < length resources) out
      → IsOrdered resources seen out
      → (k : ℕ) → k < length resources
      → member k out ≡ true
      → is_done s.done k ≡ true
  ordered_avoids s [] seen known range o k r m = cc
  ordered_avoids s (i ∷ out) seen known (ri, range) (before, o) k r m =
      ordered_avoids' (ordered_avoids s out (i ∷ seen) known' range o k r)
    where
      head_done : is_done s.done i ≡ true
      head_done = elim (Bool-cases (is_done s.done i)) [
        | inl d ↦ d
        | inr f ↦
            let (j, rj, mj, fj) = s.next i ri f in absurd (let d = known j rj (before j mj) in cc)
      ]

      known' : (j : ℕ) → j < length resources → member j (i ∷ seen) ≡ true → is_done s.done j ≡ true
      known' j rj mj = elim (Bool-cases (i == j)) [
        | inl e ↦ let same : i ≡ j = ground arith in rw same at head_done
        | inr e ↦ known j rj (rw e at mj)
      ]

      ordered_avoids' : (member k out ≡ true → is_done s.done k ≡ true) → is_done s.done k ≡ true
      ordered_avoids' later = elim (Bool-cases (i == k)) [
        | inl e ↦ let same : i ≡ k = ground arith in rw same at head_done
        | inr e ↦ later (rw e at m)
      ]

  order-no_StuckSet : (out : List ℕ) → execution_order resources ≡ ok out → ¬ StuckSet resources
  order-no_StuckSet out h s =
      let o = execution_order-IsOrder resources out h in
      let d =
        ordered_avoids s out [] (λ j r m. absurd cc) o.in_range o.ordered s.start s.start_in_range
          (o.complete s.start s.start_in_range) in
      let f = s.start_open in cc

  error-StuckSet : (ids : List Bytes) → execution_order resources ≡ err ids → StuckSet resources
  unfolding execution_order
  error-StuckSet ids h =
      rounds-StuckSet (length resources) (replicate (length resources) false) [] ids
        (length-replicate (length resources) false) (count_open-replicate (length resources)) h

  StuckSet-error : StuckSet resources → (ids : List Bytes) × (execution_order resources ≡ err ids)
  StuckSet-error s = pick (execution_order resources) refl
    where
      pick :
          (r : Result (List Bytes) (List ℕ))
          → execution_order resources ≡ r
          → (ids : List Bytes) × (execution_order resources ≡ err ids)
      pick (ok out) e = absurd (order-no_StuckSet out e s)
      pick (err ids) e = (ids, e)

-- The order of the resources is refused with an error exactly if there are resources, at least
-- one, each of which depends on another one of them: it lists in its `dependsOn` an id, and the first
-- resource that has the id is one of them and not itself. A resource that depends only on itself is
-- not refused.
pub execution_order-error_iff :
    (resources : List ResourceDoc)
    → ((ids : List Bytes) × (execution_order resources ≡ err ids)) ↔ StuckSet resources
execution_order-error_iff resources =
    ((λ (ids, e). error-StuckSet resources ids e), StuckSet-error resources)
