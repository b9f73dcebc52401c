-- ===== src/Graph/Marks.antt =====
-- The `done` flags along a sequence of indices.
use m_url.Base.{
  ℕ, zero, suc, ◌<◌, ◌≡◌, ◌⊎◌, inl, inr, refl, ◌∙◌, ap, Bool, true, false, List, [], ◌∷◌,
  Bool-cases, ◌==◌, length, set, length-set, replicate, any, arith,
}
use m_url.Graph.{is_done}

abbrev pub member : ℕ → List ℕ → Bool
member i out = any (λ j. j == i) out

-- Which indices a schedule marks as done.
unfoldable pub mark : List Bool → List ℕ → List Bool
mark done [] = done
mark done (i ∷ out) = mark (set done i true) out

pub count_open : List Bool → ℕ
count_open [] = 0
count_open (true ∷ done) = count_open done
count_open (false ∷ done) = suc (count_open done)

pub is_done-set :
    (done : List Bool) (i k : ℕ)
    → is_done (set done i true) k ≡ true
    → (k ≡ i) ⊎ (is_done done k ≡ true)
unfolding is_done
is_done-set [] i k h = inr h
is_done-set (b ∷ done) zero zero h = inl refl
is_done-set (b ∷ done) zero (suc k) h = inr h
is_done-set (b ∷ done) (suc i) zero h = inr h
is_done-set (b ∷ done) (suc i) (suc k) h = elim (is_done-set done i k h) [
  | inl e ↦ inl (ap suc e)
  | inr d ↦ inr d
]

pub is_done-set_keeps :
    (done : List Bool) (i k : ℕ) → is_done done k ≡ true → is_done (set done i true) k ≡ true
unfolding is_done
is_done-set_keeps [] i k h = h
is_done-set_keeps (b ∷ done) zero zero h = refl
is_done-set_keeps (b ∷ done) zero (suc k) h = h
is_done-set_keeps (b ∷ done) (suc i) zero h = h
is_done-set_keeps (b ∷ done) (suc i) (suc k) h = is_done-set_keeps done i k h

pub is_done-set_self :
    (done : List Bool) (i : ℕ) → i < length done → is_done (set done i true) i ≡ true
unfolding is_done
is_done-set_self [] i h = absurd (omega arith)
is_done-set_self (b ∷ done) zero h = refl
is_done-set_self (b ∷ done) (suc i) h = is_done-set_self done i (omega arith)

pub count_open-set :
    (done : List Bool) (i : ℕ)
    → i < length done
    → is_done done i ≡ false
    → suc (count_open (set done i true)) ≡ count_open done
unfolding is_done count_open
count_open-set [] i h e = absurd (omega arith)
count_open-set (true ∷ done) zero h e = cc
count_open-set (false ∷ done) zero h e = refl
count_open-set (true ∷ done) (suc i) h e = count_open-set done i (omega arith) e
count_open-set (false ∷ done) (suc i) h e = ap suc (count_open-set done i (omega arith) e)

pub count_open-zero :
    (done : List Bool) (k : ℕ) → count_open done ≡ 0 → k < length done → is_done done k ≡ true
unfolding is_done count_open
count_open-zero [] k e h = absurd (omega arith)
count_open-zero (true ∷ done) zero e h = refl
count_open-zero (true ∷ done) (suc k) e h = count_open-zero done k e (omega arith)
count_open-zero (false ∷ done) k e h = absurd (omega arith)

pub count_open-replicate : (n : ℕ) → count_open (replicate n false) ≡ n
unfolding count_open
count_open-replicate zero = refl
count_open-replicate (suc n) = ap suc (count_open-replicate n)

pub is_done-replicate : (n k : ℕ) → is_done (replicate n false) k ≡ false
unfolding is_done
is_done-replicate zero k = refl
is_done-replicate (suc n) zero = refl
is_done-replicate (suc n) (suc k) = is_done-replicate n k

member-head : (k i : ℕ) (out : List ℕ) → k ≡ i → member k (i ∷ out) ≡ true
member-head k i out e = ground arith

-- A marked index was done before or is in the schedule.
pub mark-member :
    (out : List ℕ) (done : List Bool) (k : ℕ)
    → is_done (mark done out) k ≡ true
    → (is_done done k ≡ true) ⊎ (member k out ≡ true)
unfolding mark
mark-member [] done k h = inl h
mark-member (i ∷ out) done k h = elim (mark-member out (set done i true) k h) [
  | inl d ↦ elim (is_done-set done i k d) [ inl e ↦ inr (member-head k i out e) | inr d' ↦ inl d' ]
  | inr m ↦ inr (elim (Bool-cases (i == k)) [ inl e ↦ rw e refl | inr e ↦ rw e m ])
]

pub length-mark : (out : List ℕ) (done : List Bool) → length (mark done out) ≡ length done
unfolding mark
length-mark [] done = refl
length-mark (i ∷ out) done = length-mark out (set done i true) ∙ length-set done i true

pub some_open :
    (done : List Bool) (c : ℕ)
    → count_open done ≡ suc c
    → (k : ℕ) × (k < length done) × (is_done done k ≡ false)
unfolding count_open is_done
some_open [] c e = absurd (omega arith)
some_open (false ∷ done) c e = (0, omega arith, refl)
some_open (true ∷ done) c e = let (k, lt, f) = some_open done c e in (suc k, omega arith, f)
