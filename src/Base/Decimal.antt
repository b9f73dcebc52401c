-- ===== src/Base/Decimal.antt =====
-- Unsigned decimal numbers: `to_string` and `parse` of Rust's integers.
pub mod RoundTrip
use Prim.Native.Nat.{ℕ, zero, suc, ◌+◌, ◌-◌, ◌*◌, ◌/◌, ◌%◌, ◌≤◌, ◌<◌}
use mathlib.Core.List.{List, [], ◌∷◌, ◌++◌}
use m_url.Base.Tests.{ltb, if◌then◌else◌}
use m_url.Base.Text.{Bytes}

-- The fuel is the number itself, which is at least the number of its digits less one.
unfoldable pub show_from : ℕ → ℕ → Bytes
show_from zero n = (b'0' + n % 10) ∷ []
show_from (suc fuel) n =
    let front = show_from fuel (n / 10) in
    if ltb n 10 then (b'0' + n) ∷ [] else front ++ (b'0' + n % 10) ∷ []

-- `n.to_string()`
unfoldable pub show : ℕ → Bytes
unfolding show_from
show n = show_from n n

-- The value of a text of digits behind `acc`.
unfoldable pub digits_value : ℕ → Bytes → ℕ
digits_value acc [] = acc
digits_value acc (c ∷ s) = digits_value (acc * 10 + (c - b'0')) s
