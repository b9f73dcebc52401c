-- ===== src/Graph/Order.antt =====
-- The order as a whole: every resource once, each behind its dependencies.
use m_url.Base.{
  ℕ, ◌+◌, ◌<◌, ◌≡◌, ◌≢◌, inl, inr, ◌∙◌, Bool, true, false, List, [], ◌∷◌, ok, Bool-cases, length,
  get_or, set, length-set, length-replicate, replicate, All, All-mono, all→All, ◌==◌, arith,
}
use m_url.Manifest.Types.{ResourceDoc}
use m_url.Graph.{deps_from, is_done, is_ready, execution_order}
use m_url.Graph.Depends.{DependsOn, deps_iff}
use m_url.Graph.Schedule.{IsSchedule, rounds-IsSchedule}
use m_url.Graph.Marks.{
  member, mark, count_open, is_done-set, is_done-set_keeps, is_done-set_self, count_open-set,
  count_open-zero, count_open-replicate, is_done-replicate, mark-member, length-mark,
}

-- All that an index depends on stands before it, or is among those seen.
abbrev pub IsOrdered : List ResourceDoc → List ℕ → List ℕ → Type 0
IsOrdered resources seen [] = Unit
IsOrdered resources seen (i ∷ out) =
    ((j : ℕ) → DependsOn resources i j → member j seen ≡ true) × IsOrdered resources (i ∷ seen) out

-- No index occurs twice.
abbrev pub IsDistinct : List ℕ → Type 0
IsDistinct [] = Unit
IsDistinct (i ∷ out) = All (λ j. j ≢ i) out × IsDistinct out

-- The dispatch order of a manifest's resources.
pub record IsOrder (resources : List ResourceDoc) (out : List ℕ) : Type 0 where
  pub length_eq : length out ≡ length resources
  pub in_range : All (λ i. i < length resources) out
  pub complete : (i : ℕ) → i < length resources → member i out ≡ true
  pub distinct : IsDistinct out
  pub ordered : IsOrdered resources [] out

pub ready_open :
    (deps : List (List ℕ)) (done : List Bool) (i : ℕ)
    → is_ready deps done i ≡ true
    → is_done done i ≡ false
unfolding is_ready
ready_open deps done i h = ground arith

ready_deps :
    (deps : List (List ℕ)) (done : List Bool) (i : ℕ)
    → is_ready deps done i ≡ true
    → All (λ j. is_done done j ≡ true) (get_or deps i [])
unfolding is_ready
ready_deps deps done i h = all→All (is_done done) (get_or deps i []) (ground arith)

module _ (resources : List ResourceDoc) (deps : List (List ℕ)) where
  schedule-open :
      (out : List ℕ) (done : List Bool)
      → IsSchedule resources deps done out
      → All (λ j. is_done done j ≡ false) out
  schedule-open [] done s = tt
  schedule-open (i ∷ out) done (next, s) = (
    ready_open deps done i next.ready,
    All-mono (λ j. is_done (set done i true) j ≡ false) (λ j. is_done done j ≡ false) earlier out
        (schedule-open out (set done i true) s),
  )
    where
      earlier : (j : ℕ) → is_done (set done i true) j ≡ false → is_done done j ≡ false
      earlier j h = elim (Bool-cases (is_done done j)) [
        | inl d ↦ absurd (let k = is_done-set_keeps done i j d in cc)
        | inr d ↦ d
      ]

  schedule-IsDistinct :
      (out : List ℕ) (done : List Bool)
      → length done ≡ length resources
      → IsSchedule resources deps done out
      → IsDistinct out
  schedule-IsDistinct [] done len s = tt
  schedule-IsDistinct (i ∷ out) done len (next, s) = (
    All-mono (λ j. is_done (set done i true) j ≡ false) (λ j. j ≢ i) other out
        (schedule-open out (set done i true) s),
    schedule-IsDistinct out (set done i true) (length-set done i true ∙ len) s,
  )
    where
      marked : is_done (set done i true) i ≡ true
      marked = let r = next.in_range in is_done-set_self done i (omega arith)

      other : (j : ℕ) → is_done (set done i true) j ≡ false → j ≢ i
      other j h e = let h' : is_done (set done i true) i ≡ false = rw e at h in cc (marked, h')

  schedule-in_range :
      (out : List ℕ) (done : List Bool)
      → IsSchedule resources deps done out
      → All (λ i. i < length resources) out
  schedule-in_range [] done s = tt
  schedule-in_range (i ∷ out) done (next, s) =
      (next.in_range, schedule-in_range out (set done i true) s)

  schedule-count :
      (out : List ℕ) (done : List Bool)
      → length done ≡ length resources
      → IsSchedule resources deps done out
      → count_open (mark done out) + length out ≡ count_open done
  unfolding mark
  schedule-count [] done len s = omega arith
  schedule-count (i ∷ out) done len (next, s) =
      let rest = schedule-count out (set done i true) (length-set done i true ∙ len) s in
      let r = next.in_range in
      let step = count_open-set done i (omega arith) (ready_open deps done i next.ready) in
      omega arith

All-member : (P : ℕ → Type 0) (js : List ℕ) → All P js → (j : ℕ) → member j js ≡ true → P j
All-member P [] h j m = cc
All-member P (x ∷ js) (hx, h) j m = elim (Bool-cases (x == j)) [
  | inl e ↦ let same : x ≡ j = ground arith in rw same at hx
  | inr e ↦ All-member P js h j (rw e at m)
]

-- What a ready resource depends on is done.
pub ready-DependsOn :
    (resources : List ResourceDoc) (done : List Bool) (i j : ℕ)
    → is_ready (deps_from resources 0 resources) done i ≡ true
    → DependsOn resources i j
    → is_done done j ≡ true
ready-DependsOn resources done i j r d =
    All-member (λ j. is_done done j ≡ true) (get_or (deps_from resources 0 resources) i [])
      (ready_deps (deps_from resources 0 resources) done i r) j ((deps_iff resources i j).1 d)

-- `seen` holds what is done.
schedule-IsOrdered :
    (resources : List ResourceDoc) (out : List ℕ) (done : List Bool) (seen : List ℕ)
    → ((j : ℕ) → is_done done j ≡ true → member j seen ≡ true)
    → IsSchedule resources (deps_from resources 0 resources) done out
    → IsOrdered resources seen out
schedule-IsOrdered resources [] done seen known s = tt
schedule-IsOrdered resources (i ∷ out) done seen known (next, s) = (
  λ j d. known j (ready-DependsOn resources done i j next.ready d),
  schedule-IsOrdered resources out (set done i true) (i ∷ seen) known' s,
)
  where
    known' : (j : ℕ) → is_done (set done i true) j ≡ true → member j (i ∷ seen) ≡ true
    known' j h = elim (is_done-set done i j h) [
      | inl e ↦ ground arith
      | inr d ↦ let m = known j d in ground arith
    ]

-- An order that `execution_order` returns lists the index of every resource exactly once. Where a
-- resource lists an id in its `dependsOn`, the first resource with this id stands before it, unless
-- that is the resource itself: a resource's own id is passed over, and so is one that none has.
pub execution_order-IsOrder :
    (resources : List ResourceDoc) (out : List ℕ)
    → execution_order resources ≡ ok out
    → IsOrder resources out
unfolding execution_order
execution_order-IsOrder resources out h =
    let n = length resources in
    let deps = deps_from resources 0 resources in
    let start = replicate n false in
    let (tail, shape, sched, len) = rounds-IsSchedule resources deps n start [] out h in
    let size : length start ≡ n = length-replicate n false in
    let counted = schedule-count resources deps tail start size sched in
    let all_open = count_open-replicate n in
    let closed : count_open (mark start tail) ≡ 0 = omega arith in
    let valid : IsOrder resources tail = record {
      length_eq = len;
      in_range = schedule-in_range resources deps tail start sched;
      complete = λ i r. covered n start tail i (is_done-replicate n i) (
          count_open-zero (mark start tail) i closed
            (let l = length-mark tail start in omega arith));
      distinct = schedule-IsDistinct resources deps tail start size sched;
      ordered =
          schedule-IsOrdered resources tail start []
            (λ j d. absurd (let f = is_done-replicate n j in cc)) sched;
    } in
    rw shape valid
  where
    covered :
        (n : ℕ) (start : List Bool) (tail : List ℕ) (i : ℕ)
        → is_done start i ≡ false
        → is_done (mark start tail) i ≡ true
        → member i tail ≡ true
    covered n start tail i f d = elim (mark-member tail start i d) [ inl e ↦ absurd cc | inr m ↦ m ]
