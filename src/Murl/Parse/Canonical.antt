-- ===== src/Murl/Parse/Canonical.antt =====
-- The canonical form of a mURL, taken apart at its marks.
use m_url.Base.{
  ℕ, suc, ◌≡◌, refl, sym, ap, Bool, true, false, ◌||◌, List, [], ◌∷◌, ◌++◌, map, append_assoc,
  append-nil, Option, none, some, ◌==◌, length, all, all_mono, all-append, All, All→all, arith,
}
use m_url.Base.Text.{Bytes, codes, split, split_once, join, Lacks}
use m_url.Base.Text.Equality.{all→Lacks, Lacks-append}
use m_url.Base.Text.Pieces.{split_once-append, split_once-none, split_none, split-append}
use m_url.Murl.Types.{VersionTag, latest, pinned, SelectorItem, Murl}
use m_url.Murl.Percent.{encode_segment}
use m_url.Murl.Percent.RoundTrip.{is_escaped_byte, encode_segment-escaped}
use m_url.Murl.Percent.Segments.{IsSegment}
use m_url.Murl.Version.{show_version}
use m_url.Murl.Version.RoundTrip.{is_version_byte, show_version-bytes}
use m_url.Murl.Authority.{show_authority}
use m_url.Murl.Authority.RoundTrip.{is_authority_byte, show_authority-bytes}
use m_url.Murl.Selector.{show_item}
use m_url.Murl.Selector.RoundTrip.{is_selector_byte, show_selector-bytes}
use m_url.Murl.Parse.{
  is_printable, cut_suffix, slash_segments, show_pin, identity, selector_display, show_suffix,
  show_murl,
}
use m_url.Murl.Parse.Valid.{IsMurl, IsQuery, IsSelected}

-- The bytes of an identity behind the scheme.
abbrev pub is_locator_byte : ℕ → Bool
is_locator_byte c = is_escaped_byte c || (is_authority_byte c || (c == b'/' || c == b'@'))

encoded-bytes : (s : Bytes) → IsSegment s → all is_escaped_byte (encode_segment s) ≡ true
encoded-bytes s v = All→all is_escaped_byte (encode_segment s) (encode_segment-escaped s v.bytes)

escaped→locator : (s : Bytes) → all is_escaped_byte s ≡ true → all is_locator_byte s ≡ true
escaped→locator = all_mono is_escaped_byte is_locator_byte (λ c h. rw h refl)

show_pin-bytes : (v : VersionTag) → all is_locator_byte (show_pin v) ≡ true
unfolding show_pin
show_pin-bytes latest = refl
show_pin-bytes (pinned ns) =
    all_mono is_version_byte is_locator_byte (λ c h. ground arith) (show_version (pinned ns))
      (show_version-bytes ns)

slash_segments-bytes :
    (names : List Bytes) → All IsSegment names → all is_locator_byte (slash_segments names) ≡ true
unfolding slash_segments
slash_segments-bytes [] h = refl
slash_segments-bytes (s ∷ names) (hs, h) =
    all-append is_locator_byte (encode_segment s) (slash_segments names)
      (escaped→locator (encode_segment s) (encoded-bytes s hs)) (slash_segments-bytes names h)

-- The identity without its scheme.
abbrev pub locator : Murl → Bytes
locator m = show_authority m.authority ++ (slash_segments m.name ++ show_pin m.version)

pub locator-bytes : (m : Murl) → IsMurl m → all is_locator_byte (locator m) ≡ true
locator-bytes m v =
    all-append is_locator_byte (show_authority m.authority) _
      (all_mono is_authority_byte is_locator_byte (λ c h. ground arith) (show_authority m.authority)
        (show_authority-bytes m.authority v.authority))
      (all-append is_locator_byte (slash_segments m.name) (show_pin m.version)
        (slash_segments-bytes m.name v.segments) (show_pin-bytes m.version))

-- What follows the scheme in the canonical form.
abbrev pub tail_of : Murl → Bytes
tail_of m =
    (locator m ++ show_suffix b'?' m.query) ++ show_suffix b'#' (selector_display m.selector)

pub show_murl-tail_of : (m : Murl) → show_murl m ≡ codes "murl://" ++ tail_of m
unfolding show_murl identity
show_murl-tail_of m =
    ap (λ s. codes "murl://" ++ s)
      (sym (
        append_assoc (locator m) (show_suffix b'?' m.query)
          (show_suffix b'#' (selector_display m.selector))))

-- A text that is cut at the mark of a suffix which it was given.
pub cut_suffix-show_suffix :
    (mark : ℕ) (s : Bytes) (o : Option Bytes)
    → Lacks mark s
    → cut_suffix (s ++ show_suffix mark o) (split_once mark (s ++ show_suffix mark o)) ≡ (s, o)
unfolding cut_suffix show_suffix
cut_suffix-show_suffix mark s none h = rw append-nil (rw (split_once-none mark s h))
cut_suffix-show_suffix mark s (some f) h = rw (split_once-append mark s f h)

query-Lacks : (q : Option Bytes) → IsQuery q → Lacks b'#' (show_suffix b'?' q)
unfolding show_suffix
query-Lacks none h = tt
query-Lacks (some q) h = (refl, h.1)

pub before_fragment-Lacks :
    (m : Murl) → IsMurl m → Lacks b'#' (locator m ++ show_suffix b'?' m.query)
before_fragment-Lacks m v =
    Lacks-append b'#' (locator m) _
      (all→Lacks b'#' is_locator_byte refl (locator m) (locator-bytes m v))
      (query-Lacks m.query v.query)

pub locator-Lacks : (m : Murl) → IsMurl m → Lacks b'?' (locator m)
locator-Lacks m v = all→Lacks b'?' is_locator_byte refl (locator m) (locator-bytes m v)

pub authority-Lacks : (m : Murl) → IsMurl m → Lacks b'/' (show_authority m.authority)
authority-Lacks m v =
    all→Lacks b'/' is_authority_byte refl (show_authority m.authority)
      (show_authority-bytes m.authority v.authority)

-- The raw segments of the canonical form; the last one carries the pin.
unfoldable pub raw_segments : Bytes → List Bytes → VersionTag → List Bytes
raw_segments s [] v = (encode_segment s ++ show_pin v) ∷ []
raw_segments s (t ∷ names) v = encode_segment s ∷ raw_segments t names v

pub length-raw_segments :
    (s : Bytes) (names : List Bytes) (v : VersionTag)
    → length (raw_segments s names v) ≡ suc (length names)
unfolding raw_segments
length-raw_segments s [] v = refl
length-raw_segments s (t ∷ names) v = ap suc (length-raw_segments t names v)

pin-Lacks : (v : VersionTag) → Lacks b'/' (show_pin v)
unfolding show_pin
pin-Lacks latest = tt
pin-Lacks (pinned ns) =
    (refl, all→Lacks b'/' is_version_byte refl (show_version (pinned ns)) (show_version-bytes ns))

segment-Lacks :
    (b : ℕ) → is_escaped_byte b ≡ false → (s : Bytes) → IsSegment s → Lacks b (encode_segment s)
segment-Lacks b h s v = all→Lacks b is_escaped_byte h (encode_segment s) (encoded-bytes s v)

pub segment-no_marker : (s : Bytes) → IsSegment s → Lacks b'@' (encode_segment s)
segment-no_marker = segment-Lacks b'@' refl

-- Splitting the path at its slashes.
pub split-path :
    (s : Bytes) (names : List Bytes) (v : VersionTag)
    → All IsSegment (s ∷ names)
    → split b'/' (encode_segment s ++ (slash_segments names ++ show_pin v)) ≡ raw_segments s names v
unfolding raw_segments slash_segments
split-path s [] v (hs, h) =
    split_none b'/' (encode_segment s ++ show_pin v) (
      Lacks-append b'/' (encode_segment s) (show_pin v) (segment-Lacks b'/' refl s hs)
        (pin-Lacks v))
split-path s (t ∷ names) v (hs, h) =
    rw
      (split-append b'/' (encode_segment s)
        ((encode_segment t ++ slash_segments names) ++ show_pin v) (segment-Lacks b'/' refl s hs))
      (rw (append_assoc (encode_segment t) (slash_segments names) (show_pin v))
        (ap (λ ps. encode_segment s ∷ ps) (split-path t names v h)))

locator→printable : (s : Bytes) → all is_locator_byte s ≡ true → all is_printable s ≡ true
locator→printable = all_mono is_locator_byte is_printable (λ c h. ground arith)

query-printable : (q : Option Bytes) → IsQuery q → all is_printable (show_suffix b'?' q) ≡ true
unfolding show_suffix
query-printable none h = refl
query-printable (some q) h = All→all is_printable q h.0

selector-printable :
    (sel : Option (List SelectorItem))
    → IsSelected sel
    → all is_printable (show_suffix b'#' (selector_display sel)) ≡ true
unfolding show_suffix selector_display
selector-printable none h = refl
selector-printable (some items) h =
    all_mono is_selector_byte is_printable (λ c h. ground arith)
      (join (codes ",") (map show_item items)) (show_selector-bytes items h.each)

-- The canonical form is printable ASCII.
pub tail_of-printable : (m : Murl) → IsMurl m → all is_printable (tail_of m) ≡ true
tail_of-printable m v =
    all-append is_printable (locator m ++ show_suffix b'?' m.query) _
      (all-append is_printable (locator m) _ (locator→printable (locator m) (locator-bytes m v))
        (query-printable m.query v.query))
      (selector-printable m.selector v.selector)
