-- ===== src/Murl/Parse/RoundTrip.antt =====
-- The canonical form of a valid mURL parses back to it.
use m_url.Base.{
  ℕ, suc, ◌≤◌, ◌≡◌, ◌↔◌, refl, sym, ◌∙◌, ap, true, false, List, [], ◌∷◌, ◌++◌, append_assoc,
  append-nil, Option, none, some, Result, ok, ltb, length, all, All, arith, and_true,
}
use m_url.Base.Text.{Bytes, codes, bytes_eq, is_empty, lowercase, split_once}
use m_url.Base.Text.Equality.{Lacks→contains}
use m_url.Base.Text.Pieces.{split_once-append, split_once-none}
use m_url.Murl.Types.{MurlParseError, VersionTag, latest, pinned, SelectorItem, Murl}
use m_url.Murl.Percent.{encode_segment}
use m_url.Murl.Percent.RoundTrip.{encode_segment-nonempty}
use m_url.Murl.Percent.Segments.{IsSegment, decode_segment-encode_segment}
use m_url.Murl.Version.{show_version}
use m_url.Murl.Version.RoundTrip.{
  IsVersion, is_version_byte, show_version-bytes, parse_version-show_version,
}
use m_url.Murl.Authority.{show_authority}
use m_url.Murl.Authority.RoundTrip.{parse_authority-show_authority}
use m_url.Murl.Selector.RoundTrip.{parse_selector-show}
use m_url.Base.Text.Equality.{all→Lacks}
use m_url.Murl.Parse.{
  is_printable, check_printable, strip_scheme, last_segment, parse_segments, parse_fragment,
  check_query, slash_segments, show_pin, selector_display, show_suffix, show_murl, parse_located,
  parse_rest, check_canonical, parse,
}
use m_url.Murl.Parse.Valid.{IsMurl, IsQuery, IsSelected, parse-IsMurl}
use m_url.Murl.Parse.Canonical.{
  locator, tail_of, show_murl-tail_of, cut_suffix-show_suffix, before_fragment-Lacks, locator-Lacks,
  authority-Lacks, raw_segments, length-raw_segments, segment-no_marker, split-path,
  tail_of-printable,
}

check_printable-all : (i : ℕ) (s : Bytes) → all is_printable s ≡ true → check_printable i s ≡ ok tt
unfolding check_printable
check_printable-all i [] h = refl
check_printable-all i (c ∷ s) h =
    let (hc, hs) = and_true (is_printable c) (all is_printable s) h in
    rw hc (check_printable-all (suc i) s hs)

strip_scheme-scheme : (s : Bytes) → strip_scheme (codes "murl://" ++ s) ≡ some s
unfolding strip_scheme bytes_eq lowercase
strip_scheme-scheme s = ground arith

last_segment-show :
    (s : Bytes) (v : VersionTag)
    → IsSegment s
    → IsVersion v
    → last_segment
        (encode_segment s ++ show_pin v)
        (split_once b'@' (encode_segment s ++ show_pin v))
      ≡ ok (s ∷ [], v)
unfolding last_segment show_pin
last_segment-show s latest hs hv = rw append-nil (
    rw (split_once-none b'@' (encode_segment s) (segment-no_marker s hs))
      (rw (decode_segment-encode_segment s hs)))
last_segment-show s (pinned ns) hs hv =
    let one_mark =
      Lacks→contains b'@' (show_version (pinned ns))
        (all→Lacks b'@' is_version_byte refl (show_version (pinned ns)) (show_version-bytes ns)) in
    rw
      (split_once-append b'@' (encode_segment s) (show_version (pinned ns))
        (segment-no_marker s hs))
      (rw one_mark (
        rw (encode_segment-nonempty s hs.nonempty) (
          rw (parse_version-show_version (pinned ns) hv)
            (rw (decode_segment-encode_segment s hs)))))

parse_segments-show :
    (s : Bytes) (names : List Bytes) (v : VersionTag)
    → All IsSegment (s ∷ names)
    → IsVersion v
    → parse_segments (raw_segments s names v) ≡ ok (s ∷ names, v)
unfolding raw_segments parse_segments
parse_segments-show s [] v (hs, h) hv = last_segment-show s v hs hv
parse_segments-show s (t ∷ names) v (hs, h) hv = step t names (parse_segments-show t names v h hv)
  where
    step :
        (t : Bytes) (names : List Bytes)
        → parse_segments (raw_segments t names v) ≡ ok (t ∷ names, v)
        → parse_segments (encode_segment s ∷ raw_segments t names v) ≡ ok (s ∷ t ∷ names, v)
    step t [] ih =
        rw (Lacks→contains b'@' (encode_segment s) (segment-no_marker s hs))
          (rw (decode_segment-encode_segment s hs) (rw ih))
    step t (u ∷ names) ih =
        rw (Lacks→contains b'@' (encode_segment s) (segment-no_marker s hs))
          (rw (decode_segment-encode_segment s hs) (rw ih))

parse_fragment-show :
    (sel : Option (List SelectorItem))
    → IsSelected sel
    → parse_fragment (selector_display sel) ≡ ok sel
unfolding parse_fragment selector_display
parse_fragment-show none h = refl
parse_fragment-show (some items) h = rw (parse_selector-show items h)

check_query-ok : (q : Option Bytes) → IsQuery q → check_query q ≡ ok tt
unfolding check_query
check_query-ok none h = refl
check_query-ok (some q) (_, lacks, short) =
    let fits : ltb 512 (length q) ≡ false = ground arith in
    rw (Lacks→contains b'#' q lacks) (rw fits)

append-nonempty : (s t : Bytes) → is_empty s ≡ false → is_empty (s ++ t) ≡ false
append-nonempty [] t h = cc
append-nonempty (c ∷ s) t h = refl

-- The parser from the first slash on, at the parts of a canonical form.
parse_located-show :
    (m : Murl) (s : Bytes) (names : List Bytes)
    → IsMurl m
    → m.name ≡ s ∷ names
    → parse_located
        (some (
          show_authority m.authority,
          encode_segment s ++ (slash_segments names ++ show_pin m.version),
        ))
        m.query
        (selector_display m.selector)
      ≡ ok (record {
        authority = m.authority;
        name = s ∷ names;
        version = m.version;
        selector = m.selector;
        query = m.query;
      })
unfolding parse_located
parse_located-show m s names v e =
    let segments : All IsSegment (s ∷ names) = rw e at v.segments in
    let count : suc (length names) ≤ 8 = rw e at v.few_segments in
    let few : ltb 8 (length (raw_segments s names m.version)) ≡ false =
      let k = length-raw_segments s names m.version in ground arith in
    rw (parse_authority-show_authority m.authority v.authority) (
      rw (append-nonempty (encode_segment s) _ (encode_segment-nonempty s segments.0.nonempty)) (
        rw (split-path s names m.version segments) (
          rw few (
            rw (parse_segments-show s names m.version segments v.version) (
              rw (parse_fragment-show m.selector v.selector)
                (rw (check_query-ok m.query v.query)))))))

locator-split :
    (m : Murl) (s : Bytes) (names : List Bytes)
    → IsMurl m
    → m.name ≡ s ∷ names
    → split_once b'/' (locator m)
      ≡ some (
        show_authority m.authority,
        encode_segment s ++ (slash_segments names ++ show_pin m.version),
      )
unfolding slash_segments
locator-split m s names v e = rw e (
    rw (append_assoc (encode_segment s) (slash_segments names) (show_pin m.version))
      (split_once-append b'/' (show_authority m.authority) _ (authority-Lacks m v)))

name_kept : (m : Murl) (names : List Bytes) → m.name ≡ names → record m { name = names } ≡ m
name_kept m names e = λ i. record m { name = sym e i }

parse_rest-tail_of :
    (m : Murl) (s : Bytes) (names : List Bytes)
    → IsMurl m
    → m.name ≡ s ∷ names
    → parse_rest (tail_of m) ≡ ok m
unfolding parse_rest
parse_rest-tail_of m s names v e =
    rw
      (cut_suffix-show_suffix b'#' (locator m ++ show_suffix b'?' m.query)
        (selector_display m.selector) (before_fragment-Lacks m v))
      (rw (cut_suffix-show_suffix b'?' (locator m) m.query (locator-Lacks m v)) (
        rw (locator-split m s names v e)
          (parse_located-show m s names v e ∙ ap (λ n. ok n) (name_kept m (s ∷ names) e))))

parse_rest-canonical :
    (m : Murl) (names : List Bytes) → IsMurl m → m.name ≡ names → parse_rest (tail_of m) ≡ ok m
parse_rest-canonical m [] v e = absurd (v.some_segment e)
parse_rest-canonical m (s ∷ names) v e = parse_rest-tail_of m s names v e

show_murl-printable : (m : Murl) → IsMurl m → all is_printable (show_murl m) ≡ true
show_murl-printable m v = rw show_murl-tail_of (tail_of-printable m v)

strip_scheme-show_murl : (m : Murl) → strip_scheme (show_murl m) ≡ some (tail_of m)
strip_scheme-show_murl m = rw show_murl-tail_of (strip_scheme-scheme (tail_of m))

-- The canonical form of a mURL in the documented grammar parses to that mURL.
pub parse-show_murl : (m : Murl) → IsMurl m → parse (show_murl m) ≡ ok m
unfolding parse check_canonical
parse-show_murl m v =
    let fits : ltb 1024 (length (show_murl m)) ≡ false = let k = v.canonical in ground arith in
    rw fits (
      rw (check_printable-all 0 (show_murl m) (show_murl-printable m v))
        (rw (strip_scheme-show_murl m) (rw (parse_rest-canonical m m.name v refl) (rw fits refl))))

-- Printing a parsed mURL and parsing again gives the same mURL: the canonical form is a fixed point.
pub parse-show_murl-parse : (s : Bytes) (m : Murl) → parse s ≡ ok m → parse (show_murl m) ≡ ok m
parse-show_murl-parse s m h = parse-show_murl m (parse-IsMurl s m h)

-- The results of the parser are exactly the mURLs in the documented grammar.
pub parse-exact : (m : Murl) → IsMurl m ↔ ((s : Bytes) × (parse s ≡ ok m))
parse-exact m = ((λ v. (show_murl m, parse-show_murl m v)), (λ (s, h). parse-IsMurl s m h))

-- Different mURLs of the grammar have different canonical forms.
pub show_murl-injective : (m n : Murl) → IsMurl m → IsMurl n → show_murl m ≡ show_murl n → m ≡ n
show_murl-injective m n vm vn e =
    same (sym (parse-show_murl m vm) ∙ (ap parse e ∙ parse-show_murl n vn))
  where
    same : ◌≡◌ {A = Result MurlParseError Murl} (ok m) (ok n) → m ≡ n
    same h = cc
