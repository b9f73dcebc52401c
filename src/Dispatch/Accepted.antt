-- ===== src/Dispatch/Accepted.antt =====
-- The check of path targets and their expansion agree, though one splits at both separators and the other
-- at the slash only.
use m_url.Base.{
  ℕ, ◌≡◌, ◌≢◌, inl, inr, refl, true, false, ◌||◌, List, [], ◌∷◌, none, some, ok, refuse_if-eq-ok,
  >>=-eq-ok, Bool-cases, ◌==◌, ==_iff, any, All, any_false→All, arith,
}
use m_url.Base.Text.{Bytes, codes, bytes_eq, is_empty, split, strip_prefix, Lacks}
use m_url.Base.Text.Pieces.{split-Lacks}
use m_url.Dispatch.Types.{PathRules}
use m_url.Dispatch.Paths.{drop_last_slash, push_segments, expand_below, expand_rest, expand_path}
use m_url.Manifest.Target.Types.{network_path, dot_segments, empty_segments}
use m_url.Manifest.Target.Paths.{
  is_path_sep, is_network_path, drop_last_separator, check_home_segments, is_dots, check_dots,
  path_body, check_body, validate_path_target,
}
use m_url.Dispatch.Pieces.{
  wide, narrow, IsFull, IsProper, All-split, All-join, IsFull-drop_last_slash, dots_pieces,
  HeadsAgree-IsProper,
}

-- A name of an entry, as Unix reads paths.
pub record IsName (segment : Bytes) : Type 0 where
  pub full : IsFull segment
  pub proper : IsProper segment
  pub no_slash : Lacks b'/' segment

check_dots-IsProper : (ps : List Bytes) → check_dots ps ≡ ok tt → All IsProper ps
unfolding check_dots
check_dots-IsProper [] h = tt
check_dots-IsProper (p ∷ ps) h =
    let (proper, h₁) = refuse_if-eq-ok (is_dots p) dot_segments _ h in
    (proper, check_dots-IsProper ps h₁)

strip_home :
    (c : ℕ) (r : Bytes) → (c == b'/') ≡ false → strip_prefix (codes "~/") (b'~' ∷ c ∷ r) ≡ none
unfolding strip_prefix
strip_home c r e = let f : (b'/' == c) ≡ false = ground arith in rw f refl

strip_slash : (s : Bytes) → strip_prefix (codes "/") (b'~' ∷ s) ≡ none
unfolding strip_prefix
strip_slash s = refl

-- Other users' home directories are not in the format.
not_home : (c : ℕ) (r : Bytes) → (c == b'/') ≡ false → check_body (b'~' ∷ c ∷ r) ≢ ok tt
unfolding check_body path_body bytes_eq
not_home c [] e h =
    (let h' = rw (strip_home c [] e) at h in let h'' = rw (strip_slash (c ∷ [])) at h' in cc)
not_home c (d ∷ r) e h =
    (let h' = rw (strip_home c (d ∷ r) e) at h in
      let h'' = rw (strip_slash (c ∷ d ∷ r)) at h' in cc)

module _ (rules : PathRules) (names : (s : Bytes) → IsName s → rules.is_plain s ≡ true) where
  push_segments-ok :
      (path : Bytes) (segments : List Bytes)
      → All IsFull segments
      → All IsProper segments
      → All (Lacks b'/') segments
      → (out : Bytes) × (push_segments rules path segments ≡ ok out)
  unfolding push_segments
  push_segments-ok path [] f p l = (path, refl)
  push_segments-ok path (segment ∷ rest) (full, f) (proper, p) (no_slash, l) =
      let plain : rules.is_plain segment ≡ true =
        names segment (record { full = full; proper = proper; no_slash = no_slash }) in
      let dots : (bytes_eq segment (codes ".") || bytes_eq segment (codes "..")) ≡ false =
        ground arith in
      let (out, e) = push_segments-ok (rules.push path segment) rest f p l in
      (out, rw full (rw dots (rw plain e)))

  expand_below-ok :
      (home r : Bytes)
      → check_home_segments (some r) ≡ ok tt
      → check_dots (wide r) ≡ ok tt
      → (out : Bytes) × (expand_below rules home r ≡ ok out)
  unfolding expand_below check_home_segments
  expand_below-ok home [] h d = (home, unfold drop_last_slash in refl)
  expand_below-ok home (c ∷ r) h d = elim (Bool-cases (is_empty (drop_last_slash (c ∷ r)))) [
    | inl e ↦ (home, rw e refl)
    | inr e ↦
        let (empties, drives) =
          refuse_if-eq-ok (any is_empty (wide (drop_last_separator (c ∷ r)))) empty_segments _ h in
        let full = any_false→All is_empty (wide (drop_last_separator (c ∷ r))) empties in
        let (f, fs) = All-split IsFull is_path_sep (drop_last_separator (c ∷ r)) full in
        let (p, ps) =
          All-split IsProper is_path_sep (c ∷ r) (check_dots-IsProper (wide (c ∷ r)) d) in
        let (f_head, f_tail) = IsFull-drop_last_slash (c ∷ r) in
        let (p_head, p_tail) = dots_pieces (c ∷ r) in
        let pieces = drop_last_slash (c ∷ r) in
        let (out, ok_out) =
          push_segments-ok home (narrow pieces)
            (All-join IsFull (λ c. c == b'/') pieces (f_head f) (f_tail fs))
            (All-join IsProper (λ c. c == b'/') pieces (HeadsAgree-IsProper (c ∷ r) pieces p_head p)
              (p_tail ps))
            (unfold split in split-Lacks b'/' pieces) in
        (out, rw e (unfold split in ok_out))
  ]

  -- What follows `~` in an accepted target.
  expand_rest-ok :
      (home rest : Bytes)
      → validate_path_target (b'~' ∷ rest) ≡ ok tt
      → (out : Bytes) × (expand_rest rules home rest ≡ ok out)
  unfolding expand_rest validate_path_target check_body path_body strip_prefix bytes_eq
  expand_rest-ok home [] h = (home, refl)
  expand_rest-ok home (c ∷ r) h = elim (Bool-cases (c == b'/')) [
    | inl e ↦
        let same = (==_iff c b'/').0 e in
        let accepted : validate_path_target (b'~' ∷ b'/' ∷ r) ≡ ok tt = rw same at h in
        let (network, h₁) =
          refuse_if-eq-ok (is_network_path (b'~' ∷ b'/' ∷ r)) network_path _ accepted in
        let (u, home_ok, h₂) = >>=-eq-ok (check_home_segments (some r)) _ h₁ in
        let (out, s) = expand_below-ok home r home_ok h₂ in (out, rw e s)
    | inr e ↦ absurd (
        not_home c r e
          (>>=-eq-ok (check_home_segments (strip_prefix (codes "~/") (b'~' ∷ c ∷ r))) _
            (refuse_if-eq-ok (is_network_path (b'~' ∷ c ∷ r)) network_path _ h).1).2)
  ]

-- Where every segment that is not empty, has no slash and is no dot segment is a plain name, as on Unix,
-- every path target that passes the check expands under a home directory.
pub validate_path_target-expand_path :
    (rules : PathRules)
    → ((s : Bytes) → IsName s → rules.is_plain s ≡ true)
    → (home target : Bytes) → validate_path_target target ≡ ok tt
    → (out : Bytes) × (expand_path rules (some home) target ≡ ok out)
unfolding expand_path
validate_path_target-expand_path rules names home [] h = ([], refl)
validate_path_target-expand_path rules names home (c ∷ rest) h = elim (Bool-cases (c == b'~')) [
  | inr e ↦ (c ∷ rest, rw e refl)
  | inl e ↦
      let (out, s) = expand_rest-ok rules names home rest (rw ((==_iff c b'~').0 e) at h) in
      (out, rw e s)
]
