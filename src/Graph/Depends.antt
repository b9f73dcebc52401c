-- ===== src/Graph/Depends.antt =====
-- Which resource depends on which, independent of the `deps` table, and that the table says the same.
use m_url.Base.{
  ℕ, zero, suc, ◌+◌, ◌≡◌, ◌≢◌, ◌⊎◌, ◌↔◌, inl, inr, refl, true, false, List, [], ◌∷◌, Option, none,
  some, Bool-cases, ◌==◌, get_or, arith,
}
use m_url.Base.Text.{Bytes, bytes_eq}
use m_url.Base.Text.Equality.{bytes_eq→eq, bytes_eq_refl}
use m_url.Manifest.Types.{ResourceDoc}
use m_url.Graph.{position, push_edge, edges, deps_from}
use m_url.Graph.Marks.{member}

-- The first resource with the id is that at the index.
abbrev pub FirstAt : List ResourceDoc → Bytes → ℕ → Type 0
FirstAt [] id j = ⊥
FirstAt (r ∷ rs) id zero = r.id ≡ id
FirstAt (r ∷ rs) id (suc j) = (r.id ≢ id) × FirstAt rs id j

abbrev pub Among : List Bytes → Bytes → Type 0
Among [] d = ⊥
Among (x ∷ xs) d = (x ≡ d) ⊎ Among xs d

-- The resource at the index lists the id in its `dependsOn`.
abbrev pub ListsAt : List ResourceDoc → ℕ → Bytes → Type 0
ListsAt [] i d = ⊥
ListsAt (r ∷ rs) zero d = Among r.depends_on d
ListsAt (r ∷ rs) (suc i) d = ListsAt rs i d

-- The resource at `i` lists the id of the other one at `j`.
abbrev pub DependsOn : List ResourceDoc → ℕ → ℕ → Type 0
DependsOn resources i j = (d : Bytes) × ListsAt resources i d × FirstAt resources d j × (j ≢ i)

position-FirstAt :
    (s : ℕ) (id : Bytes) (rs : List ResourceDoc) (k : ℕ)
    → position s id rs ≡ some k
    → (j : ℕ) × (k ≡ s + j) × FirstAt rs id j
unfolding position
position-FirstAt s id [] k h = cc
position-FirstAt s id (r ∷ rs) k h = elim (Bool-cases (bytes_eq r.id id)) [
  | inl e ↦ let h' = rw e at h in let same : s ≡ k = cc in (0, omega arith, bytes_eq→eq r.id id e)
  | inr e ↦
      let (j, at_j, f) = position-FirstAt (suc s) id rs k (rw e at h) in
      (suc j, omega arith, (differs e, f))
]
  where
    differs : bytes_eq r.id id ≡ false → r.id ≢ id
    differs e same = let e' : bytes_eq id id ≡ false = rw same at e in cc (e', bytes_eq_refl id)

FirstAt-position :
    (s : ℕ) (id : Bytes) (rs : List ResourceDoc) (j : ℕ)
    → FirstAt rs id j
    → position s id rs ≡ some (s + j)
unfolding position
FirstAt-position s id [] j h = absurd h
FirstAt-position s id (r ∷ rs) zero h =
    let here : bytes_eq r.id id ≡ true = rw h (bytes_eq_refl id) in
    let e : s ≡ s + 0 = omega arith in rw here (ap_some e)
  where
    ap_some : {a b : ℕ} → a ≡ b → some a ≡ some b
    ap_some e = rw e refl
FirstAt-position s id (r ∷ rs) (suc j) (differs, h) = elim (Bool-cases (bytes_eq r.id id)) [
  | inl e ↦ absurd (differs (bytes_eq→eq r.id id e))
  | inr e ↦
      let later = FirstAt-position (suc s) id rs j h in
      let shift : suc s + j ≡ s + suc j = omega arith in rw (e, position) (rw shift at later)
]

push_edge-cases :
    (i : ℕ) (o : Option ℕ) (js : List ℕ) (j : ℕ)
    → member j (push_edge i o js) ≡ true
    → ((o ≡ some j) × (j ≢ i)) ⊎ (member j js ≡ true)
push_edge-cases i none js j h = inr h
push_edge-cases i (some x) js j h = elim (Bool-cases (x == i)) [
  | inl s ↦ inr (rw s at h)
  | inr s ↦ elim (Bool-cases (x == j)) [
    | inl e ↦ let same : x ≡ j = ground arith in inl (rw same refl, ground arith)
    | inr e ↦ let h' = rw s at h in inr (rw e at h')
  ]
]

push_edge-here : (i : ℕ) (js : List ℕ) (j : ℕ) → j ≢ i → member j (push_edge i (some j) js) ≡ true
push_edge-here i js j h = elim (Bool-cases (j == i)) [
  | inl s ↦ absurd (ground arith)
  | inr s ↦ rw s (ground arith)
]

push_edge-keeps :
    (i : ℕ) (o : Option ℕ) (js : List ℕ) (j : ℕ)
    → member j js ≡ true
    → member j (push_edge i o js) ≡ true
push_edge-keeps i none js j h = h
push_edge-keeps i (some x) js j h = elim (Bool-cases (x == i)) [
  | inl s ↦ rw s h
  | inr s ↦ rw s (ground arith)
]

module _ (resources : List ResourceDoc) where
  -- Some listed id is that of `j`, and `j` is not `i`.
  abbrev Edge : ℕ → List Bytes → ℕ → Type 0
  Edge i ds j = (d : Bytes) × Among ds d × FirstAt resources d j × (j ≢ i)

  position-first : (d : Bytes) (j : ℕ) → position 0 d resources ≡ some j → FirstAt resources d j
  position-first d j h =
      let (k, e, f) = position-FirstAt 0 d resources j h in
      let same : k ≡ j = omega arith in rw same at f

  edges-Edge :
      (i : ℕ) (ds : List Bytes) (j : ℕ) → member j (edges resources i ds) ≡ true → Edge i ds j
  unfolding edges
  edges-Edge i [] j h = cc
  edges-Edge i (d ∷ ds) j h =
      elim (push_edge-cases i (position 0 d resources) (edges resources i ds) j h) [
        | inl x ↦ (d, inl refl, position-first d j x.0, x.1)
        | inr m ↦ let (d', a, f, ne) = edges-Edge i ds j m in (d', inr a, f, ne)
      ]

  Edge-edges :
      (i : ℕ) (ds : List Bytes) (j : ℕ) (d : Bytes)
      → Among ds d
      → FirstAt resources d j
      → j ≢ i
      → member j (edges resources i ds) ≡ true
  unfolding edges
  Edge-edges i [] j d a f ne = absurd a
  Edge-edges i (x ∷ ds) j d (inl e) f ne =
      let there : position 0 x resources ≡ some j = rw e (
        let h = FirstAt-position 0 d resources j f in
        let z : 0 + j ≡ j = omega arith in rw z at h) in
      rw there (push_edge-here i (edges resources i ds) j ne)
  Edge-edges i (x ∷ ds) j d (inr a) f ne =
      push_edge-keeps i (position 0 x resources) (edges resources i ds) j
        (Edge-edges i ds j d a f ne)

  deps_from-depends :
      (s : ℕ) (rs : List ResourceDoc) (k j : ℕ)
      → member j (get_or (deps_from resources s rs) k []) ≡ true
      → (d : Bytes) × ListsAt rs k d × FirstAt resources d j × (j ≢ s + k)
  unfolding deps_from
  deps_from-depends s [] k j h = cc
  deps_from-depends s (r ∷ rs) zero j h =
      let (d, a, f, ne) = edges-Edge s r.depends_on j h in (d, a, f, ground arith)
  deps_from-depends s (r ∷ rs) (suc k) j h =
      let (d, a, f, ne) = deps_from-depends (suc s) rs k j h in (d, a, f, ground arith)

  depends-deps_from :
      (s : ℕ) (rs : List ResourceDoc) (k j : ℕ) (d : Bytes)
      → ListsAt rs k d
      → FirstAt resources d j
      → j ≢ s + k
      → member j (get_or (deps_from resources s rs) k []) ≡ true
  unfolding deps_from
  depends-deps_from s [] k j d a f ne = absurd a
  depends-deps_from s (r ∷ rs) zero j d a f ne = Edge-edges s r.depends_on j d a f (ground arith)
  depends-deps_from s (r ∷ rs) (suc k) j d a f ne =
      depends-deps_from (suc s) rs k j d a f (ground arith)

  -- The table holds the dependencies.
  pub deps_iff :
      (i j : ℕ)
      → (member j (get_or (deps_from resources 0 resources) i []) ≡ true) ↔ DependsOn resources i j
  deps_iff i j = (
    (λ h. let (d, a, f, ne) = deps_from-depends 0 resources i j h in (d, a, f, (ground arith))),
    (λ (d, a, f, ne). depends-deps_from 0 resources i j d a f (ground arith)),
  )
