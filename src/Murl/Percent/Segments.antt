-- ===== src/Murl/Percent/Segments.antt =====
-- The names of a parsed mURL: what `decode_segment` accepts, and that its results are kept by escaping.
use m_url.Base.{
  ℕ, ◌≤◌, ◌≡◌, refl, false, ◌||◌, List, [], ◌∷◌, some, ok, ◌>>◌, refuse_if, ok_or, >>=-eq-ok,
  refuse_if-eq-ok, ok_or-eq-ok, ltb, length, arith, All,
}
use m_url.Base.Text.{Bytes, codes, bytes_eq, is_empty}
use m_url.Murl.Types.{
  max_segment_bytes, empty_segment, segment_too_long, invalid_segment, not_utf8, control_character,
  path_separator, dot_segment,
}
use m_url.Murl.Utf8.{chars, is_control}
use m_url.Murl.Percent.{
  is_separator, percent_decode, encode_segment, check_chars, check_segment, decode_segment,
}
use m_url.Murl.Percent.RoundTrip.{
  IsByte, percent_decode-encode_segment, percent_decode-bytes, percent_decode-nonempty,
  encode_segment-nonempty,
}

-- A name segment that the parser lets through.
pub record IsSegment (s : Bytes) : Type 0 where
  pub nonempty : is_empty s ≡ false
  pub bytes : All IsByte s
  pub short : length s ≤ 64
  pub characters : List ℕ
  pub decoded : chars s ≡ some characters
  pub plain : All (λ c. (is_control c ≡ false) × (is_separator c ≡ false)) characters
  pub not_dot : bytes_eq s (codes ".") ≡ false
  pub not_dots : bytes_eq s (codes "..") ≡ false

check_chars-plain :
    (cs : List ℕ)
    → check_chars cs ≡ ok tt
    → All (λ c. (is_control c ≡ false) × (is_separator c ≡ false)) cs
unfolding check_chars
check_chars-plain [] h = tt
check_chars-plain (c ∷ cs) h =
    let (visible, h') =
      refuse_if-eq-ok (is_control c) (invalid_segment control_character)
        (refuse_if (is_separator c) (invalid_segment path_separator) >> check_chars cs) h in
    let (flat, rest) =
      refuse_if-eq-ok (is_separator c) (invalid_segment path_separator) (check_chars cs) h' in
    ((visible, flat), check_chars-plain cs rest)

plain-check_chars :
    (cs : List ℕ)
    → All (λ c. (is_control c ≡ false) × (is_separator c ≡ false)) cs
    → check_chars cs ≡ ok tt
unfolding check_chars
plain-check_chars [] h = refl
plain-check_chars (c ∷ cs) ((visible, flat), h) = rw visible (rw flat (plain-check_chars cs h))

-- The guards of `check_segment`, passed.
check_segment-eq :
    (bytes s : Bytes)
    → is_empty bytes ≡ false
    → All IsByte bytes
    → check_segment bytes ≡ ok s
    → (bytes ≡ s) × IsSegment bytes
unfolding check_segment
check_segment-eq bytes s nonempty w h =
    let (short, h₁) = refuse_if-eq-ok (ltb max_segment_bytes (length bytes)) segment_too_long _ h in
    let (cs, e₂, h₂) = >>=-eq-ok (ok_or (chars bytes) (invalid_segment not_utf8)) _ h₁ in
    let (u, e₃, h₃) = >>=-eq-ok (check_chars cs) _ h₂ in
    let (dots, h₄) =
      refuse_if-eq-ok (bytes_eq bytes (codes ".") || bytes_eq bytes (codes ".."))
        (invalid_segment dot_segment) _ h₃ in
    (
      ground arith,
      record {
        nonempty = nonempty;
        bytes = w;
        short = ground arith;
        characters = cs;
        decoded = ok_or-eq-ok (chars bytes) (invalid_segment not_utf8) e₂;
        plain = check_chars-plain cs e₃;
        not_dot = ground arith;
        not_dots = ground arith;
      },
    )

pub IsSegment-check_segment : (s : Bytes) → IsSegment s → check_segment s ≡ ok s
unfolding check_segment
IsSegment-check_segment s v =
    let short : ltb 64 (length s) ≡ false = let fits = v.short in ground arith in
    rw short (
      rw v.decoded
        (rw (plain-check_chars v.characters v.plain) (rw v.not_dot (rw v.not_dots refl))))

-- A segment that `decode_segment` returns satisfies `IsSegment`.
pub decode_segment-IsSegment :
    (raw s : Bytes) → All IsByte raw → decode_segment raw ≡ ok s → IsSegment s
unfolding decode_segment
decode_segment-IsSegment raw s w h =
    let (nonempty, h₁) = refuse_if-eq-ok (is_empty raw) empty_segment _ h in
    let (bytes, e, h₂) = >>=-eq-ok (percent_decode raw) _ h₁ in
    let (same, valid) =
      check_segment-eq bytes s (percent_decode-nonempty raw bytes nonempty e)
        (percent_decode-bytes raw bytes w e) h₂ in
    rw same at valid

-- Decoding an escaped segment gives the segment back.
pub decode_segment-encode_segment :
    (s : Bytes) → IsSegment s → decode_segment (encode_segment s) ≡ ok s
unfolding decode_segment
decode_segment-encode_segment s v =
    rw (encode_segment-nonempty s v.nonempty)
      (rw (percent_decode-encode_segment s v.bytes) (IsSegment-check_segment s v))
