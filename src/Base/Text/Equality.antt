-- ===== src/Base/Text/Equality.antt =====
-- What the tests on texts decide.
use Prim.Native.Nat.{ℕ}
use mathlib.Core.Path.{◌≡◌, refl}
use mathlib.Core.Logic.{◌↔◌, inl, inr}
use mathlib.Core.Bool.{Bool, true, false}
use mathlib.Core.Option.{some}
use mathlib.Core.List.{[], ◌∷◌, ◌++◌}
use native.Mathlib.Omega.{arith}
use m_url.Base.Tests.{◌==◌, Bool-cases, ==_iff}
use m_url.Base.Lists.{all}
use m_url.Base.Text.{Bytes, bytes_eq, contains, strip_prefix, Lacks}

pub bytes_eq_refl : (s : Bytes) → bytes_eq s s ≡ true
unfolding bytes_eq
bytes_eq_refl [] = refl
bytes_eq_refl (c ∷ s) = ground (arith, bytes_eq_refl s)

pub bytes_eq→eq : (s t : Bytes) → bytes_eq s t ≡ true → s ≡ t
unfolding bytes_eq
bytes_eq→eq [] [] h = refl
bytes_eq→eq [] (d ∷ t) h = cc
bytes_eq→eq (c ∷ s) [] h = cc
bytes_eq→eq (c ∷ s) (d ∷ t) h = ground (arith, bytes_eq→eq s t)

pub bytes_eq_iff : (s t : Bytes) → (bytes_eq s t ≡ true) ↔ (s ≡ t)
bytes_eq_iff s t = (bytes_eq→eq s t, λ e. rw e (bytes_eq_refl t))

pub bytes_eq-false : (s t : Bytes) → ¬ (s ≡ t) → bytes_eq s t ≡ false
bytes_eq-false s t h = elim (Bool-cases (bytes_eq s t)) [
  | inl e ↦ absurd (h (bytes_eq→eq s t e))
  | inr e ↦ e
]

pub contains→Lacks : (b : ℕ) (s : Bytes) → contains b s ≡ false → Lacks b s
unfolding contains
contains→Lacks b [] h = tt
contains→Lacks b (c ∷ s) h = (ground arith, contains→Lacks b s (ground arith))

pub Lacks→contains : (b : ℕ) (s : Bytes) → Lacks b s → contains b s ≡ false
unfolding contains
Lacks→contains b [] h = refl
Lacks→contains b (c ∷ s) (hc, hs) = rw hc (Lacks→contains b s hs)

pub Lacks-append : (b : ℕ) (s t : Bytes) → Lacks b s → Lacks b t → Lacks b (s ++ t)
Lacks-append b [] t hs ht = ht
Lacks-append b (c ∷ s) t (hc, hs) ht = (hc, Lacks-append b s t hs ht)

pub Lacks-append_left : (b : ℕ) (s t : Bytes) → Lacks b (s ++ t) → Lacks b s
Lacks-append_left b [] t h = tt
Lacks-append_left b (c ∷ s) t (hc, h) = (hc, Lacks-append_left b s t h)

pub Lacks-append_right : (b : ℕ) (s t : Bytes) → Lacks b (s ++ t) → Lacks b t
Lacks-append_right b [] t h = h
Lacks-append_right b (c ∷ s) t (hc, h) = Lacks-append_right b s t h

-- A text whose bytes satisfy a test that `b` fails lacks `b`.
pub all→Lacks : (b : ℕ) (p : ℕ → Bool) → p b ≡ false → (s : Bytes) → all p s ≡ true → Lacks b s
all→Lacks b p hb [] h = tt
all→Lacks b p hb (c ∷ s) h = (head, all→Lacks b p hb s (ground arith))
  where
    differs : (e : (c == b) ≡ true) → (c == b) ≡ false
    differs e = let same : c ≡ b = (==_iff c b).0 e in let pc : p c ≡ true = ground arith in cc

    head : (c == b) ≡ false
    head = elim (Bool-cases (c == b)) [ inl e ↦ differs e | inr e ↦ e ]

pub strip_prefix-append : (p s : Bytes) → strip_prefix p (p ++ s) ≡ some s
unfolding strip_prefix
strip_prefix-append [] s = refl
strip_prefix-append (c ∷ p) s = ground (arith, strip_prefix-append p s)

pub strip_prefix-eq-some : (p s rest : Bytes) → strip_prefix p s ≡ some rest → s ≡ p ++ rest
unfolding strip_prefix
strip_prefix-eq-some [] s rest h = ground arith
strip_prefix-eq-some (c ∷ p) [] rest h = cc
strip_prefix-eq-some (c ∷ p) (d ∷ s) rest h = ground (arith, strip_prefix-eq-some p s rest)
