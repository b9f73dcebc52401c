-- ===== src/Base/Text/Pieces.antt =====
-- Splitting a text at a separator and joining the pieces.
use Prim.Native.Nat.{ℕ}
use mathlib.Core.Path.{◌≡◌, refl}
use mathlib.Core.Logic.{◌≢◌, inl, inr}
use mathlib.Core.Bool.{Bool, true, false, ◌||◌, or-true}
use mathlib.Core.Option.{none, some}
use mathlib.Core.List.{List, [], ◌∷◌, ◌++◌}
use native.Mathlib.Omega.{arith}
use m_url.Base.Tests.{◌==◌, Bool-cases, and_true}
use m_url.Base.Lists.{All, all, all-append, All-mono, All→all, all→All}
use m_url.Base.Text.{Bytes, cons_head, split_once, split_by, split, join, Lacks}

pub split_once-append :
    (sep : ℕ) (a b : Bytes) → Lacks sep a → split_once sep (a ++ sep ∷ b) ≡ some (a, b)
unfolding split_once
split_once-append sep [] b h = ground arith
split_once-append sep (c ∷ a) b (hc, h) = rw hc (rw (split_once-append sep a b h))

pub split_once-none : (sep : ℕ) (s : Bytes) → Lacks sep s → split_once sep s ≡ none
unfolding split_once
split_once-none sep [] h = refl
split_once-none sep (c ∷ s) (hc, h) = rw hc (rw (split_once-none sep s h))

pub split_once-eq-none : (sep : ℕ) (s : Bytes) → split_once sep s ≡ none → Lacks sep s
unfolding split_once
split_once-eq-none sep [] h = tt
split_once-eq-none sep (c ∷ s) h = (ground arith, split_once-eq-none sep s (ground arith))

pub split_once-eq-some :
    (sep : ℕ) (s a b : Bytes) → split_once sep s ≡ some (a, b) → (s ≡ a ++ sep ∷ b) × Lacks sep a
unfolding split_once
split_once-eq-some sep [] a b h = cc
split_once-eq-some sep (c ∷ s) [] b h = ground arith
split_once-eq-some sep (c ∷ s) (d ∷ a) b h = ground (arith, split_once-eq-some sep s a b)

module _ (sep : ℕ) where
  pub split-ne-nil : (s : Bytes) → split sep s ≢ []
  unfolding split split_by
  split-ne-nil [] h = cc
  split-ne-nil (c ∷ s) h = ground arith

  pub split_none : (s : Bytes) → Lacks sep s → split sep s ≡ s ∷ []
  unfolding split split_by
  split_none [] h = refl
  split_none (c ∷ s) (hc, h) = rw (hc, split_none s h)

  pub split-append : (a b : Bytes) → Lacks sep a → split sep (a ++ sep ∷ b) ≡ a ∷ split sep b
  unfolding split split_by
  split-append [] b h = ground arith
  split-append (c ∷ a) b (hc, h) = rw (hc, split-append a b h)

  -- Joining pieces without the separator and splitting again gives the pieces.
  pub split-join :
      (p : Bytes) (ps : List Bytes)
      → All (Lacks sep) (p ∷ ps)
      → split sep (join (sep ∷ []) (p ∷ ps)) ≡ p ∷ ps
  unfolding join
  split-join p [] (hp, _) = split_none p hp
  split-join p (q ∷ ps) (hp, h) = rw (split-append p _ hp) (rw (split-join q ps h))

  pub split-Lacks : (s : Bytes) → All (Lacks sep) (split sep s)
  unfolding split split_by
  split-Lacks [] = (tt, tt)
  split-Lacks (c ∷ s) = elim (Bool-cases (c == sep)) [
    | inl e ↦ rw e (tt, split-Lacks s)
    | inr e ↦ rw e (add c e (split sep s) (split-Lacks s))
  ]
    where
      add :
          (c : ℕ)
          → (c == sep) ≡ false
          → (ps : List Bytes) → All (Lacks sep) ps
          → All (Lacks sep) (cons_head c ps)
      add c e [] h = ((e, tt), tt)
      add c e (p ∷ ps) (hp, h) = ((e, hp), h)

  -- The pieces hold only bytes of the text.
  pub split-All {ℓ} : (P : ℕ → Type ℓ) (s : Bytes) → All P s → All (All P) (split sep s)
  unfolding split split_by
  split-All P [] h = (tt, tt)
  split-All P (c ∷ s) (hc, h) = elim (Bool-cases (c == sep)) [
    | inl e ↦ rw e (tt, split-All P s h)
    | inr e ↦ rw e (add (split sep s) (split-All P s h))
  ]
    where
      add : (ps : List Bytes) → All (All P) ps → All (All P) (cons_head c ps)
      add [] h' = ((hc, tt), tt)
      add (p ∷ ps) (hp, h') = ((hc, hp), h')

pub join-all :
    (p : ℕ → Bool) (sep : Bytes) (ps : List Bytes)
    → all p sep ≡ true
    → All (λ s. all p s ≡ true) ps
    → all p (join sep ps) ≡ true
unfolding join
join-all p sep [] hs h = refl
join-all p sep (s ∷ []) hs (h, _) = h
join-all p sep (s ∷ t ∷ ps) hs (h, hps) =
    all-append p s _ h (all-append p sep _ hs (join-all p sep (t ∷ ps) hs hps))

pub split-all :
    (sep : ℕ) (p : ℕ → Bool) (s : Bytes) → all p s ≡ true → All (λ t. all p t ≡ true) (split sep s)
split-all sep p s h =
    All-mono (All (λ c. p c ≡ true)) (λ t. all p t ≡ true) (All→all p) (split sep s)
      (split-All sep (λ c. p c ≡ true) s (all→All p s h))

-- A text whose pieces satisfy a test holds nothing else but separators.
pub all-of_split :
    (sep : ℕ) (p : ℕ → Bool) (s : Bytes)
    → All (λ t. all p t ≡ true) (split sep s)
    → all (λ c. p c || c == sep) s ≡ true
unfolding split split_by
all-of_split sep p [] h = refl
all-of_split sep p (c ∷ s) h = elim (Bool-cases (c == sep)) [
  | inl e ↦ let rest = all-of_split sep p s (rw e at h).1 in rw (e, or-true) rest
  | inr e ↦
      let (head, tails) = uncons (split sep s) (split-ne-nil sep s) (rw e at h) in
      rw head (all-of_split sep p s tails)
]
  where
    uncons :
        (ps : List Bytes)
        → ps ≢ []
        → All (λ t. all p t ≡ true) (cons_head c ps)
        → (p c ≡ true) × All (λ t. all p t ≡ true) ps
    uncons [] ne h = absurd (ne refl)
    uncons (q ∷ ps) ne (hq, h) = let (pc, rest) = and_true (p c) (all p q) hq in (pc, (rest, h))
