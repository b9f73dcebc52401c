-- ===== src/Graph/Pick.antt =====
-- The search loop finds the least ready index.
use m_url.Base.{
  ℕ, zero, suc, ◌+◌, ◌<◌, ◌≡◌, ◌⊎◌, inl, inr, Bool, true, false, ◌&&◌, ◌||◌, Option, none, some,
  if◌then◌else◌, Bool-cases, ltb, arith,
}
use m_url.Base.Int.{ℤ, ltb_ℤ, eq_ℤ}
use m_url.Manifest.Types.{ResourceDoc}
use m_url.Base.{List}
use m_url.Graph.{order_at, key_lt, better, pick_from}

module _ (ready : ℕ → Bool) (lt : ℕ → ℕ → Bool) where
  -- What the loop has found among the indices below `i`.
  abbrev pub Found : ℕ → Option ℕ → Type 0
  Found i none = (k : ℕ) → k < i → ready k ≡ false
  Found i (some p) =
      (p < i) × (ready p ≡ true) × ((k : ℕ) → k < i → ready k ≡ true → lt k p ≡ false)

module _ (ready : ℕ → Bool) (lt : ℕ → ℕ → Bool) (irrefl : (a : ℕ) → lt a a ≡ false)
    (trans : (a b c : ℕ) → lt a b ≡ true → lt b c ≡ true → lt a c ≡ true) where
  below_suc : (P : ℕ → Type 0) (i : ℕ) → ((k : ℕ) → k < i → P k) → P i → (k : ℕ) → k < suc i → P k
  below_suc P i old new k h = elim (last_or_below k i h) [ inl e ↦ rw e new | inr l ↦ old k l ]
    where
      last_or_below : (k i : ℕ) → k < suc i → (k ≡ i) ⊎ (k < i)
      last_or_below k i h = grind arith

  not_below : (k i p : ℕ) → lt k p ≡ false → lt i p ≡ true → lt k i ≡ false
  not_below k i p h e = elim (Bool-cases (lt k i)) [
    | inl t ↦ absurd (let l = trans k i p t e in cc)
    | inr f ↦ f
  ]

  Found-step :
      (i : ℕ) (pick : Option ℕ)
      → Found ready lt i pick
      → Found ready lt (suc i) (if ready i then better lt i pick else pick)
  Found-step i none h = elim (Bool-cases (ready i)) [
    | inl e ↦ rw e (
      omega arith,
      e,
      below_suc (λ k. ready k ≡ true → lt k i ≡ false) i (λ k l r. absurd (let f = h k l in cc))
          (λ r. irrefl i),
    )
    | inr e ↦ rw e (below_suc (λ k. ready k ≡ false) i h e)
  ]
  Found-step i (some p) (below, r, least) = elim (Bool-cases (ready i)) [
    | inl e ↦ rw e (elim (Bool-cases (lt i p)) [
      | inl l ↦ rw l (
        omega arith,
        e,
        below_suc (λ k. ready k ≡ true → lt k i ≡ false) i
            (λ k b rk. not_below k i p (least k b rk) l) (λ rk. irrefl i),
      )
      | inr l ↦
          rw l (omega arith, r, below_suc (λ k. ready k ≡ true → lt k p ≡ false) i least (λ rk. l))
    ])
    | inr e ↦
        rw e (
          omega arith,
          r,
          below_suc (λ k. ready k ≡ true → lt k p ≡ false) i least (λ rk. absurd cc),
        )
  ]

  pick_from-Found :
      (left i : ℕ) (pick : Option ℕ)
      → Found ready lt i pick
      → Found ready lt (left + i) (pick_from ready lt left i pick)
  unfolding pick_from
  pick_from-Found zero i pick h = let e : 0 + i ≡ i = omega arith in rw e h
  pick_from-Found (suc left) i pick h =
      let e : suc left + i ≡ left + suc i = omega arith in
      rw e (pick_from-Found left (suc i) _ (Found-step i pick h))

  -- The loop over all `n` indices returns the least ready one, or shows that there is none.
  pub pick-Found : (n : ℕ) → Found ready lt n (pick_from ready lt n 0 none)
  pick-Found n =
      let e : n + 0 ≡ n = omega arith in
      rw e at (pick_from-Found n 0 none (λ k l. absurd (omega arith)))

module _ (resources : List ResourceDoc) where
  pub key_lt_irrefl : (a : ℕ) → key_lt resources a a ≡ false
  unfolding key_lt
  key_lt_irrefl a = ground arith

  pub key_lt_trans :
      (a b c : ℕ)
      → key_lt resources a b ≡ true
      → key_lt resources b c ≡ true
      → key_lt resources a c ≡ true
  unfolding key_lt
  key_lt_trans a b c =
      trans_of (order_at resources a) (order_at resources b) (order_at resources c) a b c
    where
      trans_of :
          (x y z : ℤ) (a b c : ℕ)
          → (ltb_ℤ x y || eq_ℤ x y && ltb a b) ≡ true
          → (ltb_ℤ y z || eq_ℤ y z && ltb b c) ≡ true
          → (ltb_ℤ x z || eq_ℤ x z && ltb a c) ≡ true
      trans_of x y z a b c h k = ground arith
