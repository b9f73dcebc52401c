-- ===== src/Dispatch/Explorer.antt =====
-- The argument that Windows Explorer is given.
use m_url.Base.{◌≡◌, sym, ap, ◌∙◌, [], ◌∷◌, ◌++◌, ok, refuse_if-eq-ok}
use m_url.Base.Text.{Bytes, contains, split, split_by}
use m_url.Base.Text.Equality.{contains→Lacks}
use m_url.Base.Text.Pieces.{split-append}
use m_url.Dispatch.Argv.{explorer_argument}

-- An argument that is accepted for Explorer is one quoted token: split at the quotes, its text is the
-- argument with nothing before and nothing behind it.
pub split-explorer_argument :
    (arg out : Bytes) → explorer_argument arg ≡ ok out → split b'"' out ≡ [] ∷ arg ∷ [] ∷ []
unfolding explorer_argument split split_by
split-explorer_argument arg out h =
    let (clean, h₁) = refuse_if-eq-ok (contains b'"' arg) arg _ h in
    let shape : (b'"' ∷ (arg ++ b'"' ∷ [])) ≡ out = cc in
    rw (sym shape) (
      split-append b'"' [] (arg ++ b'"' ∷ []) tt
      ∙ ap (λ ps. [] ∷ ps) (split-append b'"' arg [] (contains→Lacks b'"' arg clean)))
