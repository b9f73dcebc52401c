-- ===== src/Murl/Version/RoundTrip.antt =====
-- Version tags: what `VersionTag::parse` returns, and that a printed tag parses to itself.
use m_url.Base.{
  ℕ, ◌≤◌, ◌<◌, ◌≡◌, ◌≢◌, refl, Bool, true, false, not, ◌&&◌, ◌||◌, List, [], ◌∷◌, map, ok,
  >>=-eq-ok, refuse_if-eq-ok, ltb, Bool-cases, inl, inr, length, length-map, all, all_mono, All,
  arith, ◌==◌,
}
use m_url.Base.Text.{Bytes, codes, bytes_eq, is_digit, is_empty, starts_with, split, join, Lacks}
use m_url.Base.Text.Equality.{all→Lacks, bytes_eq-false}
use m_url.Base.Text.Pieces.{split-ne-nil, split-join, join-all}
use m_url.Base.Decimal.{show}
use m_url.Base.Decimal.RoundTrip.{
  show-digits, digits_value-show, digits_value-lt, show-nonempty, length-show_le, show-leading,
}
use m_url.Murl.Types.{
  invalid_version, empty_version, too_many_components, bad_component, leading_zero, VersionTag,
  latest, pinned,
}
use m_url.Murl.Version.{parse_component, parse_components, parse_version, show_version}

-- `latest`, or one to three components of at most five digits.
abbrev pub IsVersion : VersionTag → Type 0
IsVersion latest = Unit
IsVersion (pinned ns) = (ns ≢ []) × (length ns ≤ 3) × All (λ n. n < 100000) ns

parse_component-lt : (p : Bytes) (n : ℕ) → parse_component p ≡ ok n → n < 100000
unfolding parse_component
parse_component-lt p n h =
    let (shape, h₁) =
      refuse_if-eq-ok (is_empty p || ltb 5 (length p) || not (all is_digit p))
        (invalid_version bad_component) _ h in
    let (lead, h₂) =
      refuse_if-eq-ok (ltb 1 (length p) && starts_with b'0' p) (invalid_version leading_zero) _
        h₁ in
    let small = digits_value-lt p (ground arith) (ground arith) in ground arith

parse_components-IsVersion :
    (ps : List Bytes) (ns : List ℕ)
    → parse_components ps ≡ ok ns
    → (length ns ≡ length ps) × All (λ n. n < 100000) ns
unfolding parse_components
parse_components-IsVersion [] ns h = let e : ns ≡ [] = ground arith in rw e (refl, tt)
parse_components-IsVersion (p ∷ ps) ns h =
    let (n, e, h₁) = >>=-eq-ok (parse_component p) _ h in
    let (rest, e', h₂) = >>=-eq-ok (parse_components ps) _ h₁ in
    let (len, small) = parse_components-IsVersion ps rest e' in
    let shape : ns ≡ n ∷ rest = ground arith in
    rw shape (omega arith, (parse_component-lt p n e, small))

pub parse_version-IsVersion : (s : Bytes) (v : VersionTag) → parse_version s ≡ ok v → IsVersion v
unfolding parse_version
parse_version-IsVersion s v h = elim (Bool-cases (bytes_eq s (codes "latest"))) [
  | inl e ↦ let shape : v ≡ latest = ground arith in rw shape tt
  | inr e ↦
      let h' = rw e at h in
      let (nonempty, h₁) = refuse_if-eq-ok (is_empty s) (invalid_version empty_version) _ h' in
      let (few, h₂) =
        refuse_if-eq-ok (ltb 3 (length (split b'.' s))) (invalid_version too_many_components) _
          h₁ in
      let (ns, e', h₃) = >>=-eq-ok (parse_components (split b'.' s)) _ h₂ in
      let (len, small) = parse_components-IsVersion (split b'.' s) ns e' in
      let shape : v ≡ pinned ns = ground arith in
      rw shape (ne (split b'.' s) ns (split-ne-nil b'.' s) len, ground arith, small)
]
  where
    ne : (ps : List Bytes) (ns : List ℕ) → ps ≢ [] → length ns ≡ length ps → ns ≢ []
    ne ps (n ∷ ns) h e = cc
    ne [] [] h e = absurd (h refl)
    ne (p ∷ ps) [] h e = absurd (omega arith)

parse_component-show : (n : ℕ) → n < 100000 → parse_component (show n) ≡ ok n
unfolding parse_component
parse_component-show n h =
    let fits : ltb 5 (length (show n)) ≡ false =
      let k = length-show_le n (omega arith) in ground arith in
    rw (show-nonempty n)
      (rw fits (rw (show-digits n) (rw (show-leading n) (rw (digits_value-show n)))))

parse_components-show :
    (ns : List ℕ) → All (λ n. n < 100000) ns → parse_components (map show ns) ≡ ok ns
unfolding parse_components
parse_components-show [] h = refl
parse_components-show (n ∷ ns) (hn, h) =
    rw (parse_component-show n hn) (rw (parse_components-show ns h))

abbrev pub is_version_byte : ℕ → Bool
is_version_byte c = is_digit c || c == b'.'

digit→version_byte : (s : Bytes) → all is_digit s ≡ true → all is_version_byte s ≡ true
digit→version_byte = all_mono is_digit is_version_byte (λ x h. ground arith)

map-show-bytes : (ns : List ℕ) → All (λ s. all is_version_byte s ≡ true) (map show ns)
map-show-bytes [] = tt
map-show-bytes (n ∷ ns) = (digit→version_byte (show n) (show-digits n), map-show-bytes ns)

-- The alphabet of a printed pin.
pub show_version-bytes : (ns : List ℕ) → all is_version_byte (show_version (pinned ns)) ≡ true
unfolding show_version
show_version-bytes ns = join-all is_version_byte (codes ".") (map show ns) refl (map-show-bytes ns)

map-show-Lacks : (ns : List ℕ) → All (Lacks b'.') (map show ns)
map-show-Lacks [] = tt
map-show-Lacks (n ∷ ns) = (all→Lacks b'.' is_digit refl (show n) (show-digits n), map-show-Lacks ns)

not_latest : (s : Bytes) → all is_version_byte s ≡ true → bytes_eq s (codes "latest") ≡ false
not_latest s h = bytes_eq-false s (codes "latest") (λ e.
    let l : Lacks b'l' (codes "latest") = rw e at (all→Lacks b'l' is_version_byte refl s h) in
    cc (l.0))

join-nonempty :
    (p : Bytes) (ps : List Bytes)
    → is_empty p ≡ false
    → is_empty (join (codes ".") (p ∷ ps)) ≡ false
unfolding join
join-nonempty [] ps h = cc
join-nonempty (c ∷ p) [] h = refl
join-nonempty (c ∷ p) (q ∷ ps) h = refl

-- A printed version tag parses to itself, if it is valid: `latest`, or one to three components of
-- at most five digits.
pub parse_version-show_version :
    (v : VersionTag) → IsVersion v → parse_version (show_version v) ≡ ok v
unfolding parse_version
parse_version-show_version latest h = unfold show_version bytes_eq in refl
parse_version-show_version (pinned []) h = absurd (h.0 refl)
parse_version-show_version (pinned (n ∷ ns)) h =
    let few : ltb 3 (length (map show (n ∷ ns))) ≡ false =
      let k = length-map show (n ∷ ns) in let small = h.1 in ground arith in
    rw (not_latest (show_version (pinned (n ∷ ns))) (show_version-bytes (n ∷ ns))) (
      unfold show_version in
      rw (join-nonempty (show n) (map show ns) (show-nonempty n)) (
        rw (split-join b'.' (show n) (map show ns) (map-show-Lacks (n ∷ ns)))
          (rw few (rw (parse_components-show (n ∷ ns) h.2)))))
