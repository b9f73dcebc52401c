-- ===== src/Base/Text/Cut.antt =====
-- Where a text ends is told by the first byte that passes a test.
use Prim.Native.Nat.{ℕ}
use mathlib.Core.Path.{◌≡◌, refl}
use mathlib.Core.Bool.{Bool, true, false}
use mathlib.Core.List.{[], ◌∷◌, ◌++◌}
use m_url.Base.Lists.{All}
use m_url.Base.Text.{Bytes}

module _ (stop : ℕ → Bool) where
  -- Nothing, or a text whose first byte passes the test.
  abbrev pub Stops : Bytes → Type 0
  Stops [] = Unit
  Stops (c ∷ s) = stop c ≡ true

  -- No byte passes the test.
  abbrev pub Runs : Bytes → Type 0
  Runs s = All (λ c. stop c ≡ false) s

  pub cut :
      (a b x y : Bytes) → Runs a → Runs b → Stops x → Stops y → a ++ x ≡ b ++ y → (a ≡ b) × (x ≡ y)
  cut [] [] x y ha hb hx hy h = (refl, h)
  cut [] (d ∷ b) [] y ha hb hx hy h = absurd cc
  cut [] (d ∷ b) (c ∷ x) y ha hb hx hy h =
      let e : c ≡ d = cc in absurd (let yes = rw e at hx in let no = hb.0 in cc)
  cut (c ∷ a) [] x [] ha hb hx hy h = absurd cc
  cut (c ∷ a) [] x (d ∷ y) ha hb hx hy h =
      let e : c ≡ d = cc in absurd (let no = rw e at ha.0 in cc)
  cut (c ∷ a) (d ∷ b) x y (hc, ha) (hd, hb) hx hy h =
      let e : c ≡ d = cc in
      let t : a ++ x ≡ b ++ y = cc in
      let (ea, ex) = cut a b x y ha hb hx hy t in (rw e (rw ea refl), ex)
