-- ===== src/Dispatch/Template.antt =====
-- The argument vector that a handler's template gives.
use m_url.Base.{
  ◌≡◌, refl, ap, sym, ◌∙◌, Bool, true, false, ◌||◌, List, [], ◌∷◌, ◌++◌, map, append_assoc,
  append-nil, any, arith,
}
use m_url.Base.Text.{Bytes}
use m_url.Dispatch.Argv.{mentions, fill, substitute_loop, substitute}

-- What stands behind the filled template.
abbrev pub trailer : Bool → Bytes → List Bytes
trailer true target = []
trailer false target = target ∷ []

substitute_loop-map :
    (target : Bytes) (argv : List Bytes) (used : Bool) (template : List Bytes)
    → substitute_loop target argv used template
      ≡ argv ++ (map (fill target) template ++ trailer (any mentions template || used) target)
unfolding substitute_loop
substitute_loop-map target argv true [] = sym (append-nil argv)
substitute_loop-map target argv false [] = refl
substitute_loop-map target argv used (part ∷ template) =
    substitute_loop-map target (argv ++ fill target part ∷ []) (mentions part || used) template
    ∙ (append_assoc argv (fill target part ∷ []) _
        ∙ ap (λ b. argv ++ (fill target part ∷ (map (fill target) template ++ trailer b target)))
            (swap (any mentions template) (mentions part) used))
  where
    swap : (a b c : Bool) → (a || (b || c)) ≡ ((b || a) || c)
    swap a b c = ground arith

-- The loop over a template gives one argument for each part, with the target put into it, and one more for the
-- target only if no part mentions it: the target never becomes further arguments.
pub substitute-map :
    (part : Bytes) (template : List Bytes) (target : Bytes)
    → substitute (part ∷ template) target
      ≡ map (fill target) (part ∷ template) ++ trailer (any mentions (part ∷ template)) target
unfolding substitute
substitute-map part template target =
    substitute_loop-map target [] false (part ∷ template)
    ∙ ap (λ b. map (fill target) (part ∷ template) ++ trailer b target)
        (or_false (any mentions (part ∷ template)))
  where
    or_false : (b : Bool) → (b || false) ≡ b
    or_false true = refl
    or_false false = refl
