-- ===== src/Base/Decimal/RoundTrip.antt =====
-- Printed numbers read back.
use Prim.Native.Nat.{ℕ, zero, suc, ◌+◌, ◌-◌, ◌*◌, ◌/◌, ◌%◌, ◌^◌, ◌≤◌, ◌<◌}
use mathlib.Core.Path.{◌≡◌, refl}
use mathlib.Core.Logic.{inl, inr}
use mathlib.Core.Bool.{true, false, ◌&&◌}
use mathlib.Core.List.{[], ◌∷◌, ◌++◌}
use native.Mathlib.Omega.{arith}
use m_url.Base.Tests.{ltb, Bool-cases, and_true}
use m_url.Base.Lists.{length, length-append, all}
use m_url.Base.Text.{Bytes, is_digit, is_empty, starts_with}
use m_url.Base.Decimal.{show, show_from, digits_value}

all-snoc :
    (s : Bytes) (c : ℕ)
    → all is_digit s ≡ true
    → is_digit c ≡ true
    → all is_digit (s ++ c ∷ []) ≡ true
all-snoc [] c hs hc = ground arith
all-snoc (d ∷ s) c hs hc = ground (arith, all-snoc s c)

show_from-digits : (fuel n : ℕ) → all is_digit (show_from fuel n) ≡ true
unfolding show_from
show_from-digits zero n = ground arith
show_from-digits (suc fuel) n =
    ground
      (arith, show_from-digits fuel (n / 10), all-snoc (show_from fuel (n / 10)) (b'0' + n % 10))

pub show-digits : (n : ℕ) → all is_digit (show n) ≡ true
unfolding show
show-digits n = show_from-digits n n

digits_value-snoc :
    (acc : ℕ) (s : Bytes) (c : ℕ)
    → digits_value acc (s ++ c ∷ []) ≡ digits_value acc s * 10 + (c - b'0')
unfolding digits_value
digits_value-snoc acc [] c = refl
digits_value-snoc acc (d ∷ s) c = digits_value-snoc (acc * 10 + (d - b'0')) s c

show_from-value : (fuel n : ℕ) → n ≤ fuel → digits_value 0 (show_from fuel n) ≡ n
unfolding show_from digits_value
show_from-value zero n h = omega arith
show_from-value (suc fuel) n h = ground (
  arith,
  show_from-value fuel (n / 10),
  digits_value-snoc 0 (show_from fuel (n / 10)) (b'0' + n % 10),
)

-- The number that the printed digits spell.
pub digits_value-show : (n : ℕ) → digits_value 0 (show n) ≡ n
unfolding show
digits_value-show n = show_from-value n n (omega arith)

snoc-nonempty : (s : Bytes) (c : ℕ) → is_empty (s ++ c ∷ []) ≡ false
snoc-nonempty [] c = refl
snoc-nonempty (d ∷ s) c = refl

show_from-nonempty : (fuel n : ℕ) → is_empty (show_from fuel n) ≡ false
unfolding show_from
show_from-nonempty zero n = refl
show_from-nonempty (suc fuel) n =
    ground (arith, snoc-nonempty (show_from fuel (n / 10)) (b'0' + n % 10))

pub show-nonempty : (n : ℕ) → is_empty (show n) ≡ false
unfolding show
show-nonempty n = show_from-nonempty n n

show_from-length : (fuel n k : ℕ) → n < 10 ^ suc k → n ≤ fuel → length (show_from fuel n) ≤ suc k
unfolding show_from
show_from-length zero n k h e = omega arith
show_from-length (suc fuel) n zero h e = ground arith
show_from-length (suc fuel) n (suc k) h e = ground (
  arith,
  show_from-length fuel (n / 10) k,
  length-append (show_from fuel (n / 10)) ((b'0' + n % 10) ∷ []),
)

-- A printed number below 10^5 has at most five digits.
pub length-show_le : (n : ℕ) → n < 10 ^ 5 → length (show n) ≤ 5
unfolding show
length-show_le n h = show_from-length n n 4 h (omega arith)

starts-append : (s t : Bytes) → is_empty s ≡ false → starts_with b'0' (s ++ t) ≡ starts_with b'0' s
unfolding starts_with
starts-append [] t h = cc
starts-append (c ∷ s) t h = refl

show_from-leading : (fuel n : ℕ) → 0 < n → n ≤ fuel → starts_with b'0' (show_from fuel n) ≡ false
unfolding show_from starts_with
show_from-leading zero n h e = absurd (omega arith)
show_from-leading (suc fuel) n h e = elim (Bool-cases (ltb n 10)) [
  | inl small ↦ rw small (ground arith)
  | inr large ↦ rw large (
      rw (starts-append (show_from fuel (n / 10)) _ (show_from-nonempty fuel (n / 10)))
        (show_from-leading fuel (n / 10) (ground arith) (ground arith)))
]

-- No printed number but zero begins with the digit zero.
pub show-leading : (n : ℕ) → (ltb 1 (length (show n)) && starts_with b'0' (show n)) ≡ false
unfolding show show_from
show-leading zero = refl
show-leading (suc n) = unfold show in ground (arith, show_from-leading (suc n) (suc n))

scale : ℕ → ℕ → ℕ
scale zero m = m
scale (suc k) m = scale k (m * 10)

le-scale : (k m : ℕ) → m ≤ scale k m
unfolding scale
le-scale zero m = omega arith
le-scale (suc k) m = omega (arith, le-scale k (m * 10))

digit_step : (acc m c : ℕ) → acc < m → is_digit c ≡ true → acc * 10 + (c - b'0') < m * 10
digit_step acc m c h d = ground arith

digits_value-lt_scale :
    (s : Bytes) (acc m k : ℕ)
    → all is_digit s ≡ true
    → length s ≤ k
    → acc < m
    → digits_value acc s < scale k m
unfolding digits_value scale
digits_value-lt_scale [] acc m k d l h = omega (arith, le-scale k m)
digits_value-lt_scale (c ∷ s) acc m zero d l h = absurd (omega arith)
digits_value-lt_scale (c ∷ s) acc m (suc k) d l h =
    let (dc, ds) = and_true (is_digit c) (all is_digit s) d in
    digits_value-lt_scale s (acc * 10 + (c - b'0')) (m * 10) k ds (omega arith)
      (digit_step acc m c h dc)

-- A number of at most five digits is below 10^5.
pub digits_value-lt : (s : Bytes) → all is_digit s ≡ true → length s ≤ 5 → digits_value 0 s < 100000
unfolding scale
digits_value-lt s d l = digits_value-lt_scale s 0 1 5 d l (omega arith)
