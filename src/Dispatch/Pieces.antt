-- ===== src/Dispatch/Pieces.antt =====
-- The pieces of a path at both separators, as the check of path targets takes them, and at the slash, as
-- the expansion does.
use m_url.Base.{
  ℕ, ◌≡◌, inl, inr, refl, sym, ap, subst, Bool, true, false, List, [], ◌∷◌, Bool-cases, ◌==◌,
  ==_iff, All,
}
use m_url.Base.Text.{Bytes, codes, bytes_eq, is_empty, split_by, cons_head, Lacks}
use m_url.Base.Text.Equality.{bytes_eq→eq}
use m_url.Dispatch.Paths.{drop_last_slash}
use m_url.Manifest.Target.Paths.{is_path_sep, drop_last_separator, is_dots}

abbrev pub head_of : List Bytes → Bytes
head_of [] = []
head_of (p ∷ ps) = p

abbrev pub tail_of : List Bytes → List Bytes
tail_of [] = []
tail_of (p ∷ ps) = ps

cons_head-shape : (c : ℕ) (ps : List Bytes) → cons_head c ps ≡ (c ∷ head_of ps) ∷ tail_of ps
cons_head-shape c [] = refl
cons_head-shape c (p ∷ ps) = refl

split_by-shape :
    (test : ℕ → Bool) (s : Bytes)
    → split_by test s ≡ head_of (split_by test s) ∷ tail_of (split_by test s)
unfolding split_by
split_by-shape test [] = refl
split_by-shape test (c ∷ s) = elim (Bool-cases (test c)) [
  | inl e ↦ rw (e, split_by) refl
  | inr e ↦ rw (e, split_by) (rw (cons_head-shape c (split_by test s)) refl)
]

-- The pieces at both separators, and at the slash.
abbrev pub wide : Bytes → List Bytes
wide s = split_by is_path_sep s

abbrev pub narrow : Bytes → List Bytes
narrow s = split_by (λ c. c == b'/') s

module _ (good : Bytes → Type 0) where
  pub All-split :
      (test : ℕ → Bool) (s : Bytes)
      → All good (split_by test s)
      → good (head_of (split_by test s)) × All good (tail_of (split_by test s))
  All-split test s h = subst (All good) (split_by-shape test s) h

  pub All-join :
      (test : ℕ → Bool) (s : Bytes)
      → good (head_of (split_by test s))
      → All good (tail_of (split_by test s))
      → All good (split_by test s)
  All-join test s h t = subst (All good) (sym (split_by-shape test s)) (h, t)

-- How a byte divides a text.
data IsByteKind (c : ℕ) : Type 0 where
  slash : (c == b'/') ≡ true → IsByteKind c
  backslash : (c == b'/') ≡ false → (c == b'\\') ≡ true → IsByteKind c
  other : (c == b'/') ≡ false → (c == b'\\') ≡ false → IsByteKind c

byte_kind : (c : ℕ) → IsByteKind c
byte_kind c = elim (Bool-cases (c == b'/')) [
  | inl e ↦ slash e
  | inr e ↦ elim (Bool-cases (c == b'\\')) [ inl f ↦ backslash e f | inr f ↦ other e f ]
]

wide-slash : (c : ℕ) (s : Bytes) → (c == b'/') ≡ true → wide (c ∷ s) ≡ [] ∷ wide s
unfolding split_by
wide-slash c s e = rw e refl

wide-backslash : (c : ℕ) (s : Bytes) → (c == b'\\') ≡ true → wide (c ∷ s) ≡ [] ∷ wide s
unfolding split_by
wide-backslash c s e = rw ((==_iff c b'\\').0 e) refl

wide-other :
    (c : ℕ) (s : Bytes)
    → (c == b'/') ≡ false
    → (c == b'\\') ≡ false
    → wide (c ∷ s) ≡ (c ∷ head_of (wide s)) ∷ tail_of (wide s)
unfolding split_by
wide-other c s e f = rw e (rw f (cons_head-shape c (wide s)))

narrow-slash : (c : ℕ) (s : Bytes) → (c == b'/') ≡ true → narrow (c ∷ s) ≡ [] ∷ narrow s
unfolding split_by
narrow-slash c s e = rw e refl

narrow-other :
    (c : ℕ) (s : Bytes)
    → (c == b'/') ≡ false
    → narrow (c ∷ s) ≡ (c ∷ head_of (narrow s)) ∷ tail_of (narrow s)
unfolding split_by
narrow-other c s e = rw e (cons_head-shape c (narrow s))

-- No empty piece.
abbrev pub IsFull : Bytes → Type 0
IsFull p = is_empty p ≡ false

IsFull-step :
    (c : ℕ) (d s : Bytes)
    → (IsFull (head_of (wide d)) → IsFull (head_of (narrow s)))
      × (All IsFull (tail_of (wide d)) → All IsFull (tail_of (narrow s)))
    → (IsFull (head_of (wide (c ∷ d))) → IsFull (head_of (narrow (c ∷ s))))
      × (All IsFull (tail_of (wide (c ∷ d))) → All IsFull (tail_of (narrow (c ∷ s))))
IsFull-step c d s (h, t) = step (byte_kind c)
  where
    both : All IsFull (wide d) → All IsFull (narrow s)
    both a =
        (let (x, y) = All-split IsFull is_path_sep d a in
          All-join IsFull (λ c. c == b'/') s (h x) (t y))

    step :
        IsByteKind c
        → (IsFull (head_of (wide (c ∷ d))) → IsFull (head_of (narrow (c ∷ s))))
          × (All IsFull (tail_of (wide (c ∷ d))) → All IsFull (tail_of (narrow (c ∷ s))))
    step (slash e) = rw (wide-slash c d e) (rw (narrow-slash c s e) ((λ x. x), both))
    step (backslash e f) =
        rw (wide-backslash c d f)
          (rw (narrow-other c s e) ((λ x. refl), (λ a. t (All-split IsFull is_path_sep d a).1)))
    step (other e f) = rw (wide-other c d e f) (rw (narrow-other c s e) ((λ x. refl), t))

-- If the wide pieces without the last separator are not empty, neither are the narrow ones
-- without the last slash.
pub IsFull-drop_last_slash :
    (r : Bytes)
    → (IsFull (head_of (wide (drop_last_separator r)))
        → IsFull (head_of (narrow (drop_last_slash r))))
      × (All IsFull (tail_of (wide (drop_last_separator r)))
          → All IsFull (tail_of (narrow (drop_last_slash r))))
unfolding drop_last_separator drop_last_slash split_by
IsFull-drop_last_slash [] = ((λ x. x), (λ a. a))
IsFull-drop_last_slash (c ∷ []) = one (byte_kind c)
  where
    one :
        IsByteKind c
        → (IsFull (head_of (wide (drop_last_separator (c ∷ []))))
            → IsFull (head_of (narrow (drop_last_slash (c ∷ [])))))
          × (All IsFull (tail_of (wide (drop_last_separator (c ∷ []))))
              → All IsFull (tail_of (narrow (drop_last_slash (c ∷ [])))))
    one (slash e) = rw e ((λ x. x), (λ a. a))
    one (backslash e f) = rw e (rw f (rw e ((λ x. refl), (λ a. tt))))
    one (other e f) = rw e (rw f (rw e (rw f ((λ x. x), (λ a. a)))))
IsFull-drop_last_slash (c ∷ d ∷ s) =
    IsFull-step c (drop_last_separator (d ∷ s)) (drop_last_slash (d ∷ s))
      (IsFull-drop_last_slash (d ∷ s))

-- A piece that is not a dot segment.
abbrev pub IsProper : Bytes → Type 0
IsProper p = is_dots p ≡ false

IsDots-Lacks : (p : Bytes) → is_dots p ≡ true → Lacks b'\\' p
IsDots-Lacks p h = elim (Bool-cases (bytes_eq p (codes ".."))) [
  | inl e ↦ rw (bytes_eq→eq p (codes "..") e) (refl, (refl, tt))
  | inr e ↦ rw (bytes_eq→eq p (codes ".") (rw e at h)) (refl, tt)
]

-- The first narrow piece of `s` is the first wide one of `d`, unless it holds a backslash.
abbrev pub HeadsAgree : Bytes → Bytes → Type 0
HeadsAgree d s = Lacks b'\\' (head_of (narrow s)) → head_of (narrow s) ≡ head_of (wide d)

pub HeadsAgree-IsProper :
    (d s : Bytes) → HeadsAgree d s → IsProper (head_of (wide d)) → IsProper (head_of (narrow s))
HeadsAgree-IsProper d s h p = elim (Bool-cases (is_dots (head_of (narrow s)))) [
  | inr e ↦ e
  | inl e ↦ rw (h (IsDots-Lacks (head_of (narrow s)) e)) p
]

dots-step :
    (c : ℕ) (d s : Bytes)
    → HeadsAgree d s × (All IsProper (tail_of (wide d)) → All IsProper (tail_of (narrow s)))
    → HeadsAgree (c ∷ d) (c ∷ s)
      × (All IsProper (tail_of (wide (c ∷ d))) → All IsProper (tail_of (narrow (c ∷ s))))
dots-step c d s (h, t) = step (byte_kind c)
  where
    both : All IsProper (wide d) → All IsProper (narrow s)
    both a =
        (let (x, y) = All-split IsProper is_path_sep d a in
          All-join IsProper (λ c. c == b'/') s (HeadsAgree-IsProper d s h x) (t y))

    step :
        IsByteKind c
        → HeadsAgree (c ∷ d) (c ∷ s)
          × (All IsProper (tail_of (wide (c ∷ d))) → All IsProper (tail_of (narrow (c ∷ s))))
    step (slash e) = rw (wide-slash c d e) (rw (narrow-slash c s e) ((λ x. refl), both))
    step (backslash e f) = rw (wide-backslash c d f) (
        rw (narrow-other c s e)
          ((λ x. absurd (let n = x.0 in cc)), (λ a. t (All-split IsProper is_path_sep d a).1)))
    step (other e f) =
        rw (wide-other c d e f) (rw (narrow-other c s e) ((λ x. ap (λ p. c ∷ p) (h x.1)), t))

pub dots_pieces :
    (r : Bytes)
    → HeadsAgree r (drop_last_slash r)
      × (All IsProper (tail_of (wide r)) → All IsProper (tail_of (narrow (drop_last_slash r))))
unfolding drop_last_slash split_by
dots_pieces [] = ((λ x. refl), (λ a. a))
dots_pieces (c ∷ []) = one (byte_kind c)
  where
    one :
        IsByteKind c
        → HeadsAgree (c ∷ []) (drop_last_slash (c ∷ []))
          × (All IsProper (tail_of (wide (c ∷ [])))
              → All IsProper (tail_of (narrow (drop_last_slash (c ∷ [])))))
    one (slash e) = rw e ((λ x. refl), (λ a. tt))
    one (backslash e f) = rw e (rw f (rw e ((λ x. absurd (let n = x.0 in cc)), (λ a. tt))))
    one (other e f) = rw e (rw f (rw e ((λ x. refl), (λ a. tt))))
dots_pieces (c ∷ d ∷ s) = dots-step c (d ∷ s) (drop_last_slash (d ∷ s)) (dots_pieces (d ∷ s))
