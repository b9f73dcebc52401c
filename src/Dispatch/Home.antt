-- ===== src/Dispatch/Home.antt =====
-- A path under `~` stays under the home directory.
use m_url.Base.{
  ◌≡◌, inl, inr, refl, sym, Bool, true, false, not, ◌||◌, List, [], ◌∷◌, some, ok, refuse_if-eq-ok,
  Bool-cases, All, ◌==◌,
}
use m_url.Base.Text.{Bytes, codes, bytes_eq, is_empty, split, Lacks}
use m_url.Base.Text.Pieces.{split-Lacks}
use m_url.Dispatch.Types.{PathRules, empty_path_segment, dot_path_segment, not_plain}
use m_url.Dispatch.Paths.{drop_last_slash, push_segments, expand_below, expand_rest, expand_path}

module _ (rules : PathRules) where
  -- A segment that names an entry of a directory.
  pub record IsHomeSegment (segment : Bytes) : Type 0 where
    pub nonempty : is_empty segment ≡ false
    pub not_dots : (bytes_eq segment (codes ".") || bytes_eq segment (codes "..")) ≡ false
    pub plain : rules.is_plain segment ≡ true
    pub no_slash : Lacks b'/' segment

  -- The segments pushed to a path, one after another.
  abbrev pub push_all : Bytes → List Bytes → Bytes
  push_all path [] = path
  push_all path (segment ∷ rest) = push_all (rules.push path segment) rest

  -- A path of entries below the home directory.
  abbrev pub IsBelow : Bytes → Bytes → Type 0
  IsBelow home out =
      (segments : List Bytes) × (out ≡ push_all home segments) × All IsHomeSegment segments

  push_segments-IsBelow :
      (path : Bytes) (segments : List Bytes) (out : Bytes)
      → All (Lacks b'/') segments
      → push_segments rules path segments ≡ ok out
      → (out ≡ push_all path segments) × All IsHomeSegment segments
  unfolding push_segments
  push_segments-IsBelow path [] out l h = ((let e : path ≡ out = cc in sym e), tt)
  push_segments-IsBelow path (segment ∷ rest) out (no_slash, l) h =
      let (nonempty, h₁) = refuse_if-eq-ok (is_empty segment) empty_path_segment _ h in
      let (not_dots, h₂) =
        refuse_if-eq-ok (bytes_eq segment (codes ".") || bytes_eq segment (codes ".."))
          dot_path_segment _ h₁ in
      let (plain, h₃) = refuse_if-eq-ok (not (rules.is_plain segment)) not_plain _ h₂ in
      let (e, each) = push_segments-IsBelow (rules.push path segment) rest out l h₃ in
      (
        e,
        (
          record {
            nonempty = nonempty;
            not_dots = not_dots;
            plain = positive (rules.is_plain segment) plain;
            no_slash = no_slash;
          },
          each,
        ),
      )
    where
      positive : (b : Bool) → not b ≡ false → b ≡ true
      positive true e = refl
      positive false e = cc

  expand_below-IsBelow :
      (home rest out : Bytes) → expand_below rules home rest ≡ ok out → IsBelow home out
  unfolding expand_below
  expand_below-IsBelow home rest out h = elim (Bool-cases (is_empty (drop_last_slash rest))) [
    | inl e ↦ ([], (let h' = rw e at h in let s : home ≡ out = cc in sym s), tt)
    | inr e ↦
        let (s, each) =
          push_segments-IsBelow home (split b'/' (drop_last_slash rest)) out
            (split-Lacks b'/' (drop_last_slash rest)) (rw e at h) in
        (split b'/' (drop_last_slash rest), s, each)
  ]

  expand_rest-IsBelow :
      (home rest out : Bytes) → expand_rest rules home rest ≡ ok out → IsBelow home out
  unfolding expand_rest
  expand_rest-IsBelow home [] out h = ([], (let s : home ≡ out = cc in sym s), tt)
  expand_rest-IsBelow home (c ∷ rest) out h = elim (Bool-cases (c == b'/')) [
    | inl e ↦ expand_below-IsBelow home rest out (rw e at h)
    | inr e ↦ absurd (let h' = rw e at h in cc)
  ]

-- If a target that starts with `~` expands under a home directory, the result is that directory
-- with segments pushed to it one by one, none of which is empty, a dot segment, holds a slash or
-- is other than a plain name.
pub expand_path-IsBelow :
    (rules : PathRules) (home rest out : Bytes)
    → expand_path rules (some home) (b'~' ∷ rest) ≡ ok out
    → IsBelow rules home out
unfolding expand_path
expand_path-IsBelow rules home rest out h = expand_rest-IsBelow rules home rest out h
