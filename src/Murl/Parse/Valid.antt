-- ===== src/Murl/Parse/Valid.antt =====
-- What `Murl::parse` guarantees of its result.
use m_url.Base.{
  ℕ, zero, suc, ◌≤◌, ◌≡◌, ◌≢◌, refl, true, not, List, [], ◌∷◌, ◌++◌, Option, none, some, ok, ok_or,
  >>=-eq-ok, refuse_if-eq-ok, ok_or-eq-ok, ltb, Option-cases, inl, inr, length, drop, All,
  All-append_left, All-append_right, All-mono, arith,
}
use m_url.Base.Text.{Bytes, contains, is_empty, split, split_once, Lacks}
use m_url.Base.Text.Equality.{contains→Lacks}
use m_url.Base.Text.Pieces.{split_once-eq-some, split-ne-nil, split-All}
use m_url.Murl.Types.{
  too_long, canonical_too_long, invalid_character, missing_scheme, missing_name, empty_segment,
  too_many_segments, misplaced_version_marker, max_murl_len, max_segments, VersionTag, latest,
  SelectorItem, Murl,
}
use m_url.Murl.Percent.{decode_segment}
use m_url.Murl.Percent.RoundTrip.{IsByte}
use m_url.Murl.Percent.Segments.{IsSegment, decode_segment-IsSegment}
use m_url.Murl.Version.{parse_version}
use m_url.Murl.Version.RoundTrip.{IsVersion, parse_version-IsVersion}
use m_url.Murl.Authority.{parse_authority}
use m_url.Murl.Authority.Valid.{IsAuthority, parse_authority-IsAuthority}
use m_url.Murl.Selector.{parse_selector}
use m_url.Murl.Selector.RoundTrip.{IsSelector, parse_selector-IsSelector}
use m_url.Murl.Parse.{
  is_printable, check_printable, strip_scheme, cut_suffix, last_segment, parse_segments,
  parse_fragment, check_query, show_murl, parse_located, parse_rest, check_canonical, parse,
}

abbrev pub IsPrintable : ℕ → Type 0
IsPrintable c = is_printable c ≡ true

abbrev pub IsSelected : Option (List SelectorItem) → Type 0
IsSelected none = Unit
IsSelected (some items) = IsSelector items

abbrev pub IsQuery : Option Bytes → Type 0
IsQuery none = Unit
IsQuery (some q) = All IsPrintable q × Lacks b'#' q × (length q ≤ 512)

-- A mURL in the documented grammar, whose canonical form fits the length limit.
pub record IsMurl (m : Murl) : Type 0 where
  pub authority : IsAuthority m.authority
  pub some_segment : m.name ≢ []
  pub few_segments : length m.name ≤ 8
  pub segments : All IsSegment m.name
  pub version : IsVersion m.version
  pub selector : IsSelected m.selector
  pub query : IsQuery m.query
  pub canonical : length (show_murl m) ≤ 1024

printable→byte : (s : Bytes) → All IsPrintable s → All IsByte s
printable→byte = All-mono IsPrintable IsByte (λ c h. ground arith)

check_printable-All : (i : ℕ) (s : Bytes) → check_printable i s ≡ ok tt → All IsPrintable s
unfolding check_printable
check_printable-All i [] h = tt
check_printable-All i (b ∷ s) h =
    let (good, h') = refuse_if-eq-ok (not (is_printable b)) (invalid_character i) _ h in
    (ground arith, check_printable-All (suc i) s h')

drop-All : (n : ℕ) (s : Bytes) → All IsPrintable s → All IsPrintable (drop n s)
drop-All zero s h = h
drop-All (suc n) [] h = tt
drop-All (suc n) (c ∷ s) (hc, h) = drop-All n s h

strip_scheme-All :
    (s rest : Bytes) → All IsPrintable s → strip_scheme s ≡ some rest → All IsPrintable rest
unfolding strip_scheme
strip_scheme-All s rest w h = let e : drop 7 s ≡ rest = ground arith in rw e at (drop-All 7 s w)

abbrev OptionAll : Option Bytes → Type 0
OptionAll none = Unit
OptionAll (some s) = All IsPrintable s

-- The two halves of a text that is cut at its first `mark`.
cut_suffix-All :
    (mark : ℕ) (s : Bytes)
    → All IsPrintable s
    → All IsPrintable (cut_suffix s (split_once mark s)).0
      × OptionAll (cut_suffix s (split_once mark s)).1
unfolding cut_suffix
cut_suffix-All mark s w = elim (Option-cases (split_once mark s)) [
  | inl e ↦ rw e (w, tt)
  | inr ((a, b), e) ↦
      let (shape, _) = split_once-eq-some mark s a b e in
      let w' : All IsPrintable (a ++ mark ∷ b) = rw shape at w in
      rw e (
        All-append_left IsPrintable a (mark ∷ b) w',
        (All-append_right IsPrintable a (mark ∷ b) w').1,
      )
]

last_segment-IsSegment :
    (raw : Bytes) (cut : Option (Bytes × Bytes)) (segs : List Bytes) (v : VersionTag)
    → split_once b'@' raw ≡ cut
    → All IsByte raw
    → last_segment raw cut ≡ ok (segs, v)
    → (length segs ≡ 1) × All IsSegment segs × IsVersion v
unfolding last_segment
last_segment-IsSegment raw none segs v e w h =
    let (seg, e', h') = >>=-eq-ok (decode_segment raw) _ h in
    let shape : segs ≡ seg ∷ [] = ground arith in
    let plain : v ≡ latest = ground arith in
    rw shape (rw plain (refl, (decode_segment-IsSegment raw seg w e', tt), tt))
last_segment-IsSegment raw (some (base, ver)) segs v e w h =
    let (one_mark, h₁) = refuse_if-eq-ok (contains b'@' ver) misplaced_version_marker _ h in
    let (nonempty, h₂) = refuse_if-eq-ok (is_empty base) empty_segment _ h₁ in
    let (version, e₃, h₃) = >>=-eq-ok (parse_version ver) _ h₂ in
    let (seg, e₄, h₄) = >>=-eq-ok (decode_segment base) _ h₃ in
    let (parts, _) = split_once-eq-some b'@' raw base ver e in
    let w' : All IsByte (base ++ b'@' ∷ ver) = rw parts at w in
    let shape : segs ≡ seg ∷ [] = ground arith in
    let same : v ≡ version = ground arith in
    rw shape (
      rw same (
        refl,
        (decode_segment-IsSegment base seg (All-append_left IsByte base (b'@' ∷ ver) w') e₄, tt),
        parse_version-IsVersion ver version e₃,
      ))

parse_segments-IsSegment :
    (raws : List Bytes) (segs : List Bytes) (v : VersionTag)
    → raws ≢ []
    → All (All IsByte) raws
    → parse_segments raws ≡ ok (segs, v)
    → (length segs ≡ length raws) × All IsSegment segs × IsVersion v
unfolding parse_segments
parse_segments-IsSegment [] segs v ne w h = absurd (ne refl)
parse_segments-IsSegment (raw ∷ []) segs v ne w h =
    last_segment-IsSegment raw (split_once b'@' raw) segs v refl w.0 h
parse_segments-IsSegment (raw ∷ next ∷ rest) segs v ne w h =
    let (no_mark, h₁) = refuse_if-eq-ok (contains b'@' raw) misplaced_version_marker _ h in
    let (seg, e₂, h₂) = >>=-eq-ok (decode_segment raw) _ h₁ in
    let ((segs', v'), e₃, h₃) = >>=-eq-ok (parse_segments (next ∷ rest)) _ h₂ in
    let (len, good, version) = parse_segments-IsSegment (next ∷ rest) segs' v' (cc) w.1 e₃ in
    let shape : segs ≡ seg ∷ segs' = ground arith in
    let same : v ≡ v' = ground arith in
    rw shape (rw same (omega arith, (decode_segment-IsSegment raw seg w.0 e₂, good), version))

parse_fragment-IsSelected :
    (f : Option Bytes) (sel : Option (List SelectorItem))
    → parse_fragment f ≡ ok sel
    → IsSelected sel
unfolding parse_fragment
parse_fragment-IsSelected none sel h = let e : sel ≡ none = ground arith in rw e tt
parse_fragment-IsSelected (some f) sel h =
    let (items, e, h') = >>=-eq-ok (parse_selector f) _ h in
    let shape : sel ≡ some items = ground arith in rw shape (parse_selector-IsSelector f items e)

check_query-IsQuery : (q : Option Bytes) → OptionAll q → check_query q ≡ ok tt → IsQuery q
unfolding check_query
check_query-IsQuery none w h = tt
check_query-IsQuery (some q) w h = (w, contains→Lacks b'#' q (ground arith), ground arith)

-- All of `IsMurl` but the length of the canonical form.
record IsLocated (m : Murl) : Type 0 where
  authority : IsAuthority m.authority
  some_segment : m.name ≢ []
  few_segments : length m.name ≤ 8
  segments : All IsSegment m.name
  version : IsVersion m.version
  selector : IsSelected m.selector
  query : IsQuery m.query

nonempty_of_length : (xs ys : List Bytes) → length xs ≡ length ys → ys ≢ [] → xs ≢ []
nonempty_of_length (x ∷ xs) ys e h = cc
nonempty_of_length [] [] e h = absurd (h refl)
nonempty_of_length [] (y ∷ ys) e h = absurd (omega arith)

parse_located-IsLocated :
    (cut : Option (Bytes × Bytes)) (s : Bytes) (query fragment : Option Bytes) (m : Murl)
    → split_once b'/' s ≡ cut
    → All IsPrintable s
    → OptionAll query
    → parse_located cut query fragment ≡ ok m
    → IsLocated m
unfolding parse_located
parse_located-IsLocated none s query fragment m e w wq h = cc
parse_located-IsLocated (some (auth, path)) s query fragment m e w wq h =
    let (a, e₁, h₁) = >>=-eq-ok (parse_authority auth) _ h in
    let (named, h₂) = refuse_if-eq-ok (is_empty path) missing_name _ h₁ in
    let raws = split b'/' path in
    let (few, h₃) = refuse_if-eq-ok (ltb max_segments (length raws)) too_many_segments _ h₂ in
    let ((segs, v), e₄, h₄) = >>=-eq-ok (parse_segments raws) _ h₃ in
    let (sel, e₅, h₅) = >>=-eq-ok (parse_fragment fragment) _ h₄ in
    let (u, e₆, h₆) = >>=-eq-ok (check_query query) _ h₅ in
    let (shape, _) = split_once-eq-some b'/' s auth path e in
    let w' : All IsPrintable (auth ++ b'/' ∷ path) = rw shape at w in
    let wp = printable→byte path (All-append_right IsPrintable auth (b'/' ∷ path) w').1 in
    let (len, good, version) =
      parse_segments-IsSegment raws segs v (split-ne-nil b'/' path) (split-All b'/' IsByte path wp)
        e₄ in
    let built : m
        ≡ record { authority = a; name = segs; version = v; selector = sel; query = query } =
      ground arith in
    rw built (record {
      authority = parse_authority-IsAuthority auth a e₁;
      some_segment = nonempty_of_length segs raws len (split-ne-nil b'/' path);
      few_segments = ground arith;
      segments = good;
      version = version;
      selector = parse_fragment-IsSelected fragment sel e₅;
      query = check_query-IsQuery query wq e₆;
    })

parse_rest-IsLocated :
    (s : Bytes) (m : Murl) → All IsPrintable s → parse_rest s ≡ ok m → IsLocated m
unfolding parse_rest
parse_rest-IsLocated s m w h =
    let before = (cut_suffix s (split_once b'#' s)).0 in
    let (w₁, _) = cut_suffix-All b'#' s w in
    let (w₂, wq) = cut_suffix-All b'?' before w₁ in
    parse_located-IsLocated _ (cut_suffix before (split_once b'?' before)).0 _ _ m refl w₂ wq h

-- Every mURL that the parser returns is in the documented grammar, and its canonical form is within
-- the length limit.
pub parse-IsMurl : (s : Bytes) (m : Murl) → parse s ≡ ok m → IsMurl m
unfolding parse check_canonical
parse-IsMurl s m h =
    let (fits, h₁) = refuse_if-eq-ok (ltb max_murl_len (length s)) too_long _ h in
    let (u, e₂, h₂) = >>=-eq-ok (check_printable 0 s) _ h₁ in
    let (rest, e₃, h₃) = >>=-eq-ok (ok_or (strip_scheme s) missing_scheme) _ h₂ in
    let (m', e₄, h₄) = >>=-eq-ok (parse_rest rest) _ h₃ in
    let w =
      strip_scheme-All s rest (check_printable-All 0 s e₂)
        (ok_or-eq-ok (strip_scheme s) missing_scheme e₃) in
    let located = parse_rest-IsLocated rest m' w e₄ in
    let (short, h₅) =
      refuse_if-eq-ok (ltb max_murl_len (length (show_murl m')))
        (canonical_too_long (length (show_murl m'))) (ok m') h₄ in
    let same : m' ≡ m = ground arith in
    let valid : IsMurl m' = record {
      authority = located.authority;
      some_segment = located.some_segment;
      few_segments = located.few_segments;
      segments = located.segments;
      version = located.version;
      selector = located.selector;
      query = located.query;
      canonical = ground arith;
    } in
    rw same at valid
