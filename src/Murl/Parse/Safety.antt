-- ===== src/Murl/Parse/Safety.antt =====
-- What the rest of the program relies on: what the segments of a name hold, and identities that tell
-- names apart.
use m_url.Base.{
  ℕ, List, some, ◌≤◌, ◌<◌, ◌≡◌, ◌≢◌, sym, ◌∙◌, ap, false, [], append-nil, none, ◌⊎◌, ok, length,
  length-append, All, All-mono, arith,
}
use m_url.Base.Text.{Bytes, codes, bytes_eq, is_empty}
use m_url.Murl.Types.{Murl}
use m_url.Murl.Utf8.{chars, is_control}
use m_url.Murl.Percent.{is_separator}
use m_url.Murl.Percent.Segments.{IsSegment}
use m_url.Murl.Parse.{parse, identity, show_murl, show_suffix, selector_display}
use m_url.Murl.Parse.Valid.{IsMurl, parse-IsMurl}
use m_url.Murl.Parse.RoundTrip.{show_murl-injective}

-- A character that is no slash, no backslash and no control character: U+0000 to U+001F and U+007F to
-- U+009F are the control characters of Unicode.
abbrev pub IsNameCharacter : ℕ → Type 0
IsNameCharacter c = (c ≢ b'/') × (c ≢ b'\\') × (0x20 ≤ c) × ((c < 0x7f) ⊎ (0xa0 ≤ c))

plain→IsNameCharacter :
    (c : ℕ) → (is_control c ≡ false) × (is_separator c ≡ false) → IsNameCharacter c
plain→IsNameCharacter c (visible, flat) = (ground arith, ground arith, ground arith, ground arith)

-- What is stated of the bytes of a segment.
pub record IsNameSegment (s : Bytes) : Type 0 where
  pub some_byte : s ≢ []
  pub short : length s ≤ 64
  pub not_dot : s ≢ codes "."
  pub not_dots : s ≢ codes ".."
  pub characters : List ℕ
  pub decoded : chars s ≡ some characters
  pub plain : All IsNameCharacter characters

IsSegment-IsNameSegment : (s : Bytes) → IsSegment s → IsNameSegment s
unfolding bytes_eq
IsSegment-IsNameSegment s v = record {
  some_byte = λ e. (let h : is_empty [] ≡ false = rw e at v.nonempty in cc);
  short = v.short;
  not_dot = λ e. (let h : bytes_eq (codes ".") (codes ".") ≡ false = rw e at v.not_dot in cc);
  not_dots = λ e. (let h : bytes_eq (codes "..") (codes "..") ≡ false = rw e at v.not_dots in cc);
  characters = v.characters;
  decoded = v.decoded;
  plain =
      All-mono (λ c. (is_control c ≡ false) × (is_separator c ≡ false)) IsNameCharacter
        plain→IsNameCharacter v.characters v.plain;
}

-- Every segment of a parsed name is the UTF-8 of some characters, none of which is a slash, a backslash
-- or a control character; it has at least one byte and at most 64, and is neither "." nor "..".
pub parse-IsNameSegment : (s : Bytes) (m : Murl) → parse s ≡ ok m → All IsNameSegment m.name
parse-IsNameSegment s m h =
    All-mono IsSegment IsNameSegment IsSegment-IsNameSegment m.name (parse-IsMurl s m h).segments

-- The mURL without selector and query.
abbrev bare : Murl → Murl
bare m = record m { selector = none; query = none }

show_murl-bare : (m : Murl) → show_murl (bare m) ≡ identity m
unfolding show_murl show_suffix selector_display identity
show_murl-bare m = append-nil (identity m)

IsMurl-bare : (m : Murl) → IsMurl m → IsMurl (bare m)
IsMurl-bare m v = record {
  authority = v.authority;
  some_segment = v.some_segment;
  few_segments = v.few_segments;
  segments = v.segments;
  version = v.version;
  selector = tt;
  query = tt;
  canonical = shorter;
}
  where
    shorter : length (show_murl (bare m)) ≤ 1024
    shorter =
        let whole = v.canonical in
        rw (show_murl-bare m) (unfold show_murl in omega (arith, length-append (identity m) _))

-- Two parsed mURLs with one identity have the same authority, name and version: the key of the cache
-- and of cycle detection tells different names apart.
pub identity-injective :
    (s t : Bytes) (m n : Murl)
    → parse s ≡ ok m
    → parse t ≡ ok n
    → identity m ≡ identity n
    → (m.authority ≡ n.authority) × (m.name ≡ n.name) × (m.version ≡ n.version)
identity-injective s t m n hm hn e =
    let same : bare m ≡ bare n =
      show_murl-injective (bare m) (bare n) (IsMurl-bare m (parse-IsMurl s m hm))
        (IsMurl-bare n (parse-IsMurl t n hn)) (show_murl-bare m ∙ (e ∙ sym (show_murl-bare n))) in
    (ap (λ x. x.authority) same, ap (λ x. x.name) same, ap (λ x. x.version) same)
