-- ===== src/Graph/Turns.antt =====
-- Whose turn it is in the order that is returned.
use m_url.Base.{
  ℕ, zero, suc, ◌<◌, ◌≡◌, ◌≢◌, ◌⊎◌, ◌↔◌, inl, inr, refl, sym, ◌∙◌, Bool, true, false, ◌&&◌, ◌||◌,
  List, [], ◌∷◌, some, ok, Bool-cases, ◌==◌, ltb, length, get_elem?, get_elem?-below, get_or, set,
  length-set, length-replicate, replicate, All, All→all, arith,
}
use m_url.Base.Int.{ℤ, pos, negsuc, ltb_ℤ, eq_ℤ}
use m_url.Manifest.Types.{ResourceDoc}
use m_url.Graph.{deps_from, is_done, is_ready, order_at, key_lt, execution_order}
use m_url.Graph.Marks.{member, is_done-set, is_done-set_keeps, is_done-set_self, is_done-replicate}
use m_url.Graph.Depends.{DependsOn, deps_iff}
use m_url.Graph.Order.{ready_open, ready-DependsOn}
use m_url.Graph.Schedule.{IsNext, IsSchedule, rounds-IsSchedule}

-- The order of the integers, which are `n` or `-1 - n`.
abbrev pub IsLess : ℤ → ℤ → Type 0
IsLess (pos a) (pos b) = a < b
IsLess (pos a) (negsuc b) = ⊥
IsLess (negsuc a) (pos b) = Unit
IsLess (negsuc a) (negsuc b) = b < a

-- The resource at `i` has the smaller `order`, or the same `order` and the smaller index.
abbrev pub IsEarlier : List ResourceDoc → ℕ → ℕ → Type 0
IsEarlier resources i k =
    (a b : ResourceDoc) × (get_elem? resources i ≡ some a)
    × (get_elem? resources k ≡ some b)
    × (IsLess a.order b.order ⊎ ((a.order ≡ b.order) × (i < k)))

-- The resource is not taken, and all that it depends on is.
abbrev pub IsFree : List ResourceDoc → List ℕ → ℕ → Type 0
IsFree resources taken i =
    (member i taken ≡ false) × ((j : ℕ) → DependsOn resources i j → member j taken ≡ true)

-- It is the turn of the resource that is earlier than all others that are free.
pub record IsTurn (resources : List ResourceDoc) (taken : List ℕ) (i : ℕ) : Type 0 where
  pub in_range : i < length resources
  pub free : IsFree resources taken i
  pub earliest :
      (k : ℕ) → k < length resources → IsFree resources taken k → (k ≡ i) ⊎ IsEarlier resources i k

-- Each index is taken at its turn.
abbrev pub AreTurns : List ResourceDoc → List ℕ → List ℕ → Type 0
AreTurns resources taken [] = Unit
AreTurns resources taken (i ∷ out) = IsTurn resources taken i × AreTurns resources (i ∷ taken) out

order_at-eq :
    (rs : List ResourceDoc) (i : ℕ) (a : ResourceDoc)
    → get_elem? rs i ≡ some a
    → order_at rs i ≡ a.order
unfolding order_at
order_at-eq [] i a h = absurd cc
order_at-eq (r ∷ rs) zero a h = let same : r ≡ a = cc in rw same refl
order_at-eq (r ∷ rs) (suc i) a h = order_at-eq rs i a h

not_ltb_ℕ :
    (a b k i : ℕ) → (ltb a b || a == b && ltb k i) ≡ false → k ≢ i → (b < a) ⊎ ((b ≡ a) × (i < k))
not_ltb_ℕ a b k i h ne = ground arith

-- What is not smaller is greater, or the same.
not-IsLess :
    (x y : ℤ) (k i : ℕ)
    → (ltb_ℤ x y || eq_ℤ x y && ltb k i) ≡ false
    → k ≢ i
    → IsLess y x ⊎ ((y ≡ x) × (i < k))
not-IsLess (pos a) (pos b) k i h ne = elim (not_ltb_ℕ a b k i (ground arith) ne) [
  | inl l ↦ inl l
  | inr e ↦ inr (rw (e.0) refl, e.1)
]
not-IsLess (pos a) (negsuc b) k i h ne = inl tt
not-IsLess (negsuc a) (pos b) k i h ne = absurd (ground arith)
not-IsLess (negsuc a) (negsuc b) k i h ne = elim (not_ltb_ℕ b a k i (ground arith) ne) [
  | inl l ↦ inl l
  | inr e ↦ inr (rw (e.0) refl, e.1)
]

not_key_lt :
    (resources : List ResourceDoc) (k i : ℕ)
    → k < length resources
    → i < length resources
    → key_lt resources k i ≡ false
    → (k ≡ i) ⊎ IsEarlier resources i k
unfolding key_lt
not_key_lt resources k i rk ri h = elim (Bool-cases (k == i)) [
  | inl e ↦ inl (ground arith)
  | inr e ↦
      let (a, ha) = get_elem?-below resources i ri in
      let (b, hb) = get_elem?-below resources k rk in
      let h' = rw (order_at-eq resources i a ha, order_at-eq resources k b hb) at h in
      inr (a, b, ha, hb, not-IsLess b.order a.order k i h' (ground arith))
]

member-All : (P : ℕ → Type 0) (js : List ℕ) → ((j : ℕ) → member j js ≡ true → P j) → All P js
member-All P [] h = tt
member-All P (x ∷ js) h = (h x (ground arith), member-All P js (λ j m. h j (ground arith)))

module _ (resources : List ResourceDoc) where
  abbrev deps : List (List ℕ)
  deps = deps_from resources 0 resources

  -- The flags say what is taken.
  abbrev Agree : List Bool → List ℕ → Type 0
  Agree done taken = (j : ℕ) → (is_done done j ≡ true) ↔ (member j taken ≡ true)

  module _ (done : List Bool) (taken : List ℕ) (agree : Agree done taken) where
    not_member : (j : ℕ) → is_done done j ≡ false → member j taken ≡ false
    not_member j h = elim (Bool-cases (member j taken)) [
      | inl m ↦ absurd (let d = (agree j).1 m in cc)
      | inr f ↦ f
    ]

    not_done : (j : ℕ) → member j taken ≡ false → is_done done j ≡ false
    not_done j h = elim (Bool-cases (is_done done j)) [
      | inl d ↦ absurd (let m = (agree j).0 d in cc)
      | inr f ↦ f
    ]

    ready-IsFree : (i : ℕ) → is_ready deps done i ≡ true → IsFree resources taken i
    ready-IsFree i r = (
      not_member i (ready_open deps done i r),
      λ j d. (agree j).0 (ready-DependsOn resources done i j r d),
    )

    IsFree-ready : (i : ℕ) → IsFree resources taken i → is_ready deps done i ≡ true
    unfolding is_ready
    IsFree-ready i (apart, before) =
        let all_done = All→all (is_done done) (get_or deps i []) (
          member-All (λ j. is_done done j ≡ true) (get_or deps i [])
            (λ j m. (agree j).1 (before j ((deps_iff resources i j).0 m)))) in
        let f = not_done i apart in ground arith

    IsNext-IsTurn : (i : ℕ) → IsNext resources deps done i → IsTurn resources taken i
    IsNext-IsTurn i next = record {
      in_range = next.in_range;
      free = ready-IsFree i next.ready;
      earliest = λ k r free.
          not_key_lt resources k i r next.in_range (next.least k r (IsFree-ready k free));
    }

    Agree-set : (i : ℕ) → i < length done → Agree (set done i true) (i ∷ taken)
    Agree-set i r j = (
      (λ h. elim (is_done-set done i j h) [
        | inl e ↦ ground arith
        | inr d ↦ let m = (agree j).0 d in ground arith
      ]),
      (λ h. elim (Bool-cases (i == j)) [
        | inl e ↦ let same : i ≡ j = ground arith in rw (sym same) (is_done-set_self done i r)
        | inr e ↦ is_done-set_keeps done i j ((agree j).1 (ground arith))
      ]),
    )

  schedule-AreTurns :
      (out : List ℕ) (done : List Bool) (taken : List ℕ)
      → Agree done taken
      → length done ≡ length resources
      → IsSchedule resources deps done out
      → AreTurns resources taken out
  schedule-AreTurns [] done taken agree len s = tt
  schedule-AreTurns (i ∷ out) done taken agree len (next, s) = (
    IsNext-IsTurn done taken agree i next,
    schedule-AreTurns out (set done i true) (i ∷ taken)
        (Agree-set done taken agree i (let r = next.in_range in omega arith))
        (length-set done i true ∙ len) s,
  )

-- In an order that is returned, each resource stands where it is its turn: it is not placed yet, all
-- that it depends on is placed (the first resource with an id that it lists in `dependsOn`, itself
-- apart), and among all resources of which this holds it has the least `order` and, where some have
-- the same, the least index.
pub execution_order-AreTurns :
    (resources : List ResourceDoc) (out : List ℕ)
    → execution_order resources ≡ ok out
    → AreTurns resources [] out
unfolding execution_order
execution_order-AreTurns resources out h =
    let n = length resources in
    let (tail, shape, sched, len) =
      rounds-IsSchedule resources (deps_from resources 0 resources) n (replicate n false) [] out
        h in
    rw shape (
      schedule-AreTurns resources tail (replicate n false) [] (none_done n)
        (length-replicate n false) sched)
  where
    none_done : (n j : ℕ) → (is_done (replicate n false) j ≡ true) ↔ (member j [] ≡ true)
    none_done n j = let f = is_done-replicate n j in ((λ d. absurd cc), (λ m. absurd cc))
