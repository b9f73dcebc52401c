-- ===== src/Graph/Schedule.antt =====
-- The rounds of the loop, as a schedule.
use m_url.Base.{
  ℕ, zero, suc, ◌<◌, ◌≡◌, inl, inr, refl, sym, ◌∙◌, ap, Bool, true, false, List, [], ◌∷◌, ◌++◌,
  append_assoc, append-nil, none, some, ok, Option-cases, length, set, arith,
}
use m_url.Manifest.Types.{ResourceDoc}
use m_url.Graph.{is_ready, key_lt, pick_from, rounds}
use m_url.Graph.Pick.{Found, pick-Found, key_lt_irrefl, key_lt_trans}

module _ (resources : List ResourceDoc) (deps : List (List ℕ)) where
  -- The ready resource that comes first by (`order`, index).
  pub record IsNext (done : List Bool) (i : ℕ) : Type 0 where
    pub in_range : i < length resources
    pub ready : is_ready deps done i ≡ true
    pub least :
        (k : ℕ) → k < length resources → is_ready deps done k ≡ true → key_lt resources k i ≡ false

  -- Each index is next when its turn comes.
  abbrev pub IsSchedule : List Bool → List ℕ → Type 0
  IsSchedule done [] = Unit
  IsSchedule done (i ∷ out) = IsNext done i × IsSchedule (set done i true) out

  found :
      (done : List Bool)
      → Found
          (is_ready deps done)
          (key_lt resources)
          (length resources)
          (pick_from (is_ready deps done) (key_lt resources) (length resources) 0 none)
  found done =
      pick-Found (is_ready deps done) (key_lt resources) (key_lt_irrefl resources)
        (key_lt_trans resources) (length resources)

  pub pick-IsNext :
      (done : List Bool) (i : ℕ)
      → pick_from (is_ready deps done) (key_lt resources) (length resources) 0 none ≡ some i
      → IsNext done i
  pick-IsNext done i e =
      let f : Found (is_ready deps done) (key_lt resources) (length resources) (some i) =
        rw e at (found done) in
      record { in_range = f.0; ready = f.1; least = f.2 }

  pub pick_none :
      (done : List Bool)
      → pick_from (is_ready deps done) (key_lt resources) (length resources) 0 none ≡ none
      → (k : ℕ) → k < length resources
      → is_ready deps done k ≡ false
  pick_none done e = rw e at (found done)

  pub rounds-IsSchedule :
      (left : ℕ) (done : List Bool) (out order : List ℕ)
      → rounds resources deps left done out ≡ ok order
      → (tail : List ℕ) × (order ≡ out ++ tail) × IsSchedule done tail × (length tail ≡ left)
  unfolding rounds
  rounds-IsSchedule zero done out order h =
      ([], (let e : out ≡ order = ground arith in sym e ∙ sym (append-nil out)), tt, refl)
  rounds-IsSchedule (suc left) done out order h =
      elim (Option-cases
        (pick_from (is_ready deps done) (key_lt resources) (length resources) 0 none)) [
          | inl e ↦ absurd (let h' = rw (e, rounds) at h in cc)
          | inr (i, e) ↦
              let (tail, shape, sched, len) =
                rounds-IsSchedule left (set done i true) (out ++ i ∷ []) order
                  (rw (e, rounds) at h) in
              (
                i ∷ tail,
                shape ∙ append_assoc out (i ∷ []) tail,
                (pick-IsNext done i e, sched),
                ap suc len,
              )
        ]
