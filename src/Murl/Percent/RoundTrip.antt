-- ===== src/Murl/Percent/RoundTrip.antt =====
-- Escaping a segment and decoding it again; which bytes either direction can produce.
use m_url.Base.{
  zero, suc, length, Option, none, ℕ, ◌+◌, ◌*◌, ◌/◌, ◌%◌, ◌≤◌, ◌<◌, ◌≡◌, refl, inl, inr, Bool, true,
  false, [], ◌∷◌, ◌++◌, some, Result, ok, err, ◌==◌, if◌then◌else◌, arith, Bool-cases, All,
  All-append,
}
use m_url.Base.Text.{Bytes, is_empty}
use m_url.Murl.Types.{MurlParseError}
use m_url.Murl.Percent.{
  hex_val, push, push_escape, percent_decode, hex_digit, is_unreserved, encode_byte, encode_segment,
}

abbrev pub IsByte : ℕ → Type 0
IsByte b = b < 256

-- The bytes that an escaped segment is made of.
abbrev pub is_escaped_byte : ℕ → Bool
is_escaped_byte b = if is_unreserved b then true else b == b'%'

hex_val-hex_digit : (n : ℕ) → n < 16 → hex_val (hex_digit n) ≡ some n
unfolding hex_val
hex_val-hex_digit n h = ground arith

pub decode_plain :
    (b : ℕ) (s : Bytes)
    → is_unreserved b ≡ true
    → percent_decode (b ∷ s) ≡ push b (percent_decode s)
unfolding percent_decode
decode_plain b [] h = ground arith
decode_plain b (c ∷ []) h = ground arith
decode_plain b (c ∷ d ∷ s) h = ground arith

pub decode_escape :
    (b : ℕ) (s : Bytes)
    → b < 256
    → percent_decode (b'%' ∷ hex_digit (b / 16) ∷ hex_digit (b % 16) ∷ s)
      ≡ push b (percent_decode s)
unfolding percent_decode push_escape
decode_escape b s h = rw (hex_val-hex_digit (b / 16) (omega arith)) (
    rw (hex_val-hex_digit (b % 16) (omega arith))
      (let e : b / 16 * 16 + b % 16 ≡ b = omega arith in rw e))

decode-encode_byte :
    (b : ℕ) (s : Bytes) → b < 256 → percent_decode (encode_byte b ++ s) ≡ push b (percent_decode s)
unfolding encode_byte
decode-encode_byte b s h = elim (Bool-cases (is_unreserved b)) [
  | inl e ↦ rw e (decode_plain b s e)
  | inr e ↦ rw e (decode_escape b s h)
]

-- Decoding the escaped form of any byte sequence gives the sequence back.
pub percent_decode-encode_segment :
    (s : Bytes) → All IsByte s → percent_decode (encode_segment s) ≡ ok s
unfolding encode_segment
percent_decode-encode_segment [] h = unfold percent_decode in refl
percent_decode-encode_segment (b ∷ s) (hb, h) =
    rw (decode-encode_byte b (encode_segment s) hb) (rw (percent_decode-encode_segment s h))

-- `is_escaped_byte` is the alphabet of an escaped segment.
hex_digit-escaped : (n : ℕ) → n < 16 → is_escaped_byte (hex_digit n) ≡ true
hex_digit-escaped n h = ground arith

encode_byte-escaped : (b : ℕ) → b < 256 → All (λ c. is_escaped_byte c ≡ true) (encode_byte b)
unfolding encode_byte
encode_byte-escaped b h = elim (Bool-cases (is_unreserved b)) [
  | inl e ↦ rw e (rw e refl, tt)
  | inr e ↦ rw e (
    refl,
    (hex_digit-escaped (b / 16) (omega arith), (hex_digit-escaped (b % 16) (omega arith), tt)),
  )
]

pub encode_segment-escaped :
    (s : Bytes) → All IsByte s → All (λ c. is_escaped_byte c ≡ true) (encode_segment s)
unfolding encode_segment
encode_segment-escaped [] h = tt
encode_segment-escaped (b ∷ s) (hb, h) =
    All-append (λ c. is_escaped_byte c ≡ true) (encode_byte b) (encode_segment s)
      (encode_byte-escaped b hb) (encode_segment-escaped s h)

pub encode_segment-nonempty : (s : Bytes) → is_empty s ≡ false → is_empty (encode_segment s) ≡ false
unfolding encode_segment encode_byte
encode_segment-nonempty [] h = cc
encode_segment-nonempty (b ∷ s) h = ground arith

push-eq-ok :
    (b : ℕ) (r : Result MurlParseError Bytes) (out : Bytes)
    → push b r ≡ ok out
    → (rest : Bytes) × (r ≡ ok rest) × (out ≡ b ∷ rest)
push-eq-ok b (ok rest) out h = (rest, refl, ground arith)
push-eq-ok b (err e) out h = cc

hex_val-lt : (b n : ℕ) → hex_val b ≡ some n → n < 16
unfolding hex_val
hex_val-lt b n h = ground arith

push_escape-eq-ok :
    (h l : Option ℕ) (r : Result MurlParseError Bytes) (out : Bytes)
    → push_escape h l r ≡ ok out
    → (x : ℕ) × (y : ℕ) × (rest : Bytes) × (h ≡ some x)
      × (l ≡ some y)
      × (r ≡ ok rest)
      × (out ≡ (x * 16 + y) ∷ rest)
unfolding push_escape
push_escape-eq-ok none l r out h = cc
push_escape-eq-ok (some x) none r out h = cc
push_escape-eq-ok (some x) (some y) r out h =
    let (rest, er, eo) = push-eq-ok (x * 16 + y) r out h in (x, y, rest, refl, refl, er, eo)

-- One round of the decoding loop: the first byte of the result, and the input that is left.
decode_step :
    (b : ℕ) (s out : Bytes)
    → percent_decode (b ∷ s) ≡ ok out
    → (v : ℕ) × (rest : Bytes) × (left : Bytes) × (out ≡ v ∷ rest)
      × (percent_decode left ≡ ok rest)
      × (All IsByte (b ∷ s) → (v < 256) × All IsByte left)
      × (length left ≤ length s)
unfolding percent_decode
decode_step b [] out h = elim (Bool-cases (b == b'%')) [
  | inl e ↦ absurd (let h' = rw e at h in cc)
  | inr e ↦ (b, [], [], (let h' = rw e at h in ground arith), refl, (λ w. w), omega arith)
]
decode_step b (c ∷ []) out h = elim (Bool-cases (b == b'%')) [
  | inl e ↦ absurd (let h' = rw e at h in cc)
  | inr e ↦
      let (rest, er, eo) = push-eq-ok b (percent_decode (c ∷ [])) out (rw e at h) in
      (b, rest, c ∷ [], eo, er, (λ w. w), omega arith)
]
decode_step b (c ∷ d ∷ s) out h = elim (Bool-cases (b == b'%')) [
  | inl e ↦
      let (x, y, rest, ex, ey, er, eo) =
        push_escape-eq-ok (hex_val c) (hex_val d) (percent_decode s) out (rw e at h) in
      let hx : x < 16 = hex_val-lt c x ex in
      let hy : y < 16 = hex_val-lt d y ey in
      (x * 16 + y, rest, s, eo, er, (λ w. (omega arith, w.1.1.1)), omega arith)
  | inr e ↦
      let (rest, er, eo) = push-eq-ok b (percent_decode (c ∷ d ∷ s)) out (rw e at h) in
      (b, rest, c ∷ d ∷ s, eo, er, (λ w. w), omega arith)
]

decode-bytes_below :
    (k : ℕ) (raw out : Bytes)
    → length raw ≤ k
    → All IsByte raw
    → percent_decode raw ≡ ok out
    → All IsByte out
decode-bytes_below k [] out hk w h =
    let e : out ≡ [] = unfold percent_decode in ground arith in rw e tt
decode-bytes_below zero (b ∷ s) out hk w h = absurd (omega arith)
decode-bytes_below (suc k) (b ∷ s) out hk w h =
    let (v, rest, left, eo, el, bytes, shorter) = decode_step b s out h in
    rw eo ((bytes w).0, decode-bytes_below k left rest (omega arith) (bytes w).1 el)

-- A decoded segment consists of bytes.
pub percent_decode-bytes :
    (raw out : Bytes) → All IsByte raw → percent_decode raw ≡ ok out → All IsByte out
percent_decode-bytes raw out = decode-bytes_below (length raw) raw out (omega arith)

pub percent_decode-nonempty :
    (raw out : Bytes) → is_empty raw ≡ false → percent_decode raw ≡ ok out → is_empty out ≡ false
percent_decode-nonempty [] out w h = cc
percent_decode-nonempty (b ∷ s) out w h =
    let (v, rest, left, eo, el, bytes, shorter) = decode_step b s out h in rw eo
