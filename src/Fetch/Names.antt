-- ===== src/Fetch/Names.antt =====
-- Sanitized segments: what bytes they are made of, and that they tell segments apart.
use m_url.Base.{
  ℕ, ◌<◌, ◌≡◌, refl, sym, ◌∙◌, ap, inl, inr, Bool, true, false, ◌||◌, [], ◌∷◌, ◌++◌, Result, ok,
  Bool-cases, ◌==◌, All, All-append, arith,
}
use m_url.Base.Text.{Bytes, is_empty}
use m_url.Murl.Types.{MurlParseError}
use m_url.Murl.Percent.{push, percent_decode}
use m_url.Murl.Percent.RoundTrip.{IsByte, decode_plain, decode_escape}
use m_url.Fetch.{is_safe_byte, sanitize_byte, sanitize_component}

-- The bytes of a sanitized segment.
abbrev pub is_file_byte : ℕ → Bool
is_file_byte b = is_safe_byte b || b == b'%'

decode-sanitize_byte :
    (b : ℕ) (s : Bytes)
    → b < 256
    → percent_decode (sanitize_byte b ++ s) ≡ push b (percent_decode s)
unfolding sanitize_byte
decode-sanitize_byte b s h = elim (Bool-cases (is_safe_byte b)) [
  | inl e ↦ rw e (decode_plain b s (ground arith))
  | inr e ↦ rw e (decode_escape b s h)
]

decode-sanitize_component :
    (s : Bytes) → All IsByte s → percent_decode (sanitize_component s) ≡ ok s
unfolding sanitize_component
decode-sanitize_component [] h = unfold percent_decode in refl
decode-sanitize_component (b ∷ s) (hb, h) =
    rw (decode-sanitize_byte b (sanitize_component s) hb) (rw (decode-sanitize_component s h) refl)

-- Different segments are different files or folders.
pub sanitize_component-injective :
    (s t : Bytes)
    → All IsByte s
    → All IsByte t
    → sanitize_component s ≡ sanitize_component t
    → s ≡ t
sanitize_component-injective s t hs ht e =
    let same : ◌≡◌ {A = Result MurlParseError Bytes} (ok s) (ok t) =
      sym (decode-sanitize_component s hs)
      ∙ (ap percent_decode e ∙ decode-sanitize_component t ht) in
    cc

pub sanitize_byte-bytes : (b : ℕ) → b < 256 → All (λ c. is_file_byte c ≡ true) (sanitize_byte b)
unfolding sanitize_byte
sanitize_byte-bytes b h = elim (Bool-cases (is_safe_byte b)) [
  | inl e ↦ rw (e, sanitize_byte) (rw e refl, tt)
  | inr e ↦ rw (e, sanitize_byte) (refl, (ground arith, (ground arith, tt)))
]

pub sanitize_component-bytes :
    (s : Bytes) → All IsByte s → All (λ c. is_file_byte c ≡ true) (sanitize_component s)
unfolding sanitize_component
sanitize_component-bytes [] h = tt
sanitize_component-bytes (b ∷ s) (hb, h) =
    All-append (λ c. is_file_byte c ≡ true) (sanitize_byte b) (sanitize_component s)
      (sanitize_byte-bytes b hb) (sanitize_component-bytes s h)

pub sanitize_component-nonempty :
    (s : Bytes) → is_empty s ≡ false → is_empty (sanitize_component s) ≡ false
unfolding sanitize_component sanitize_byte
sanitize_component-nonempty [] h = cc
sanitize_component-nonempty (b ∷ s) h = ground arith

-- A segment that reads back as itself is sanitized only from itself.
pub sanitize_component-of :
    (s t : Bytes) → All IsByte s → percent_decode t ≡ ok t → sanitize_component s ≡ t → s ≡ t
sanitize_component-of s t hs ht e =
    let same : ◌≡◌ {A = Result MurlParseError Bytes} (ok s) (ok t) =
      sym (decode-sanitize_component s hs) ∙ (ap percent_decode e ∙ ht) in
    cc
