-- ===== src/Dispatch/Argv.antt =====
-- crates/murl-core/src/dispatch.rs: `is_explorer`, `explorer_argument`, `open_with`, `substitute`.
use m_url.Base.{
  ℕ, zero, suc, Bool, true, false, ◌&&◌, ◌||◌, List, [], ◌∷◌, ◌++◌, Option, none, some, Result, ok,
  ◌>>◌, refuse_if, ◌==◌, if◌then◌else◌, all, leb,
}
use m_url.Base.Text.{Bytes, codes, bytes_eq, contains, lowercase, strip_prefix, last_piece}
use m_url.Kind.{is_path_separator}
use m_url.Murl.Utf8.{chars}

unfoldable pub is_explorer : Bytes → Bool
is_explorer program =
    let name = last_piece is_path_separator program in
    bytes_eq (lowercase name) (codes "explorer.exe") || bytes_eq (lowercase name) (codes "explorer")

-- The error carries the argument.
unfoldable pub explorer_argument : Bytes → Result Bytes Bytes
explorer_argument arg = do refuse_if (contains b'"' arg) arg; ok (b'"' ∷ (arg ++ b'"' ∷ []))

unfoldable pub open_with : List Bytes → Bytes → List Bytes
open_with [] target = []
open_with (program ∷ rest) target = program ∷ (rest ++ target ∷ [])

abbrev pub placeholder : Bytes
placeholder = codes "{target}"

abbrev pub is_prefix : Option Bytes → Bool
is_prefix none = false
is_prefix (some rest) = true

-- `part.contains("{target}")`
unfoldable pub mentions : Bytes → Bool
mentions [] = false
mentions (c ∷ s) = is_prefix (strip_prefix placeholder (c ∷ s)) || mentions s

-- `part.replace("{target}", target)`; the first `skip` bytes belong to a match that is replaced.
unfoldable pub replace_from : ℕ → Bytes → Bytes → Bytes
replace_from skip target [] = []
replace_from (suc skip) target (c ∷ s) = replace_from skip target s
replace_from zero target (c ∷ s) = elim (strip_prefix placeholder (c ∷ s)) [
  | none ↦ c ∷ replace_from zero target s
  | some rest ↦ target ++ replace_from 7 target s
]

abbrev pub fill : Bytes → Bytes → Bytes
fill target part = if mentions part then replace_from 0 target part else part

-- The loop over the template, with what `argv` and `used` hold before it, and what stands behind it.
unfoldable pub substitute_loop : Bytes → List Bytes → Bool → List Bytes → List Bytes
substitute_loop target argv true [] = argv
substitute_loop target argv false [] = argv ++ target ∷ []
substitute_loop target argv used (part ∷ template) =
    substitute_loop target (argv ++ fill target part ∷ []) (mentions part || used) template

unfoldable pub substitute : List Bytes → Bytes → List Bytes
substitute [] target = []
substitute (part ∷ template) target = substitute_loop target [] false (part ∷ template)

-- `char::is_whitespace`
abbrev pub is_whitespace : ℕ → Bool
is_whitespace c =
    (leb 9 c && leb c 13)
    || (c == 32
        || c == 0x85
        || c == 0xa0
        || c == 0x1680
        || (leb 0x2000 c && leb c 0x200a)
        || c == 0x2028
        || c == 0x2029
        || c == 0x202f
        || c == 0x205f
        || c == 0x3000)

-- `s.trim().is_empty()`
abbrev pub is_blank_text : Option (List ℕ) → Bool
is_blank_text none = false
is_blank_text (some cs) = all is_whitespace cs

unfoldable pub is_blank : Bytes → Bool
is_blank s = is_blank_text (chars s)

-- `argv.is_empty() || argv[0].trim().is_empty()`
unfoldable pub has_no_program : List Bytes → Bool
has_no_program [] = true
has_no_program (program ∷ rest) = is_blank program
