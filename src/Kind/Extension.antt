-- ===== src/Kind/Extension.antt =====
-- Executable extensions are found through letter case and through trailing dots and spaces.
use m_url.Base.{◌≡◌, refl, ap, true, false, ◌||◌, [], ◌∷◌, ◌++◌, all, any, arith, and_true}
use m_url.Base.Text.{Bytes, to_lower, lowercase, last_piece}
use m_url.Kind.{is_path_separator, is_padding, trim_end, has_executable_extension}

lowercase-append : (s t : Bytes) → lowercase (s ++ t) ≡ lowercase s ++ lowercase t
unfolding lowercase
lowercase-append [] t = refl
lowercase-append (c ∷ s) t = ap (λ r. to_lower c ∷ r) (lowercase-append s t)

lowercase-padding : (s : Bytes) → all is_padding s ≡ true → lowercase s ≡ s
unfolding lowercase
lowercase-padding [] h = refl
lowercase-padding (c ∷ s) h = ground (arith, lowercase-padding s)

lowercase_idem : (s : Bytes) → lowercase (lowercase s) ≡ lowercase s
unfolding lowercase
lowercase_idem [] = refl
lowercase_idem (c ∷ s) = ground (arith, lowercase_idem s)

padding-no_separator : (s : Bytes) → all is_padding s ≡ true → any is_path_separator s ≡ false
padding-no_separator [] h = refl
padding-no_separator (c ∷ s) h = ground (arith, padding-no_separator s)

any-append :
    (s t : Bytes)
    → any is_path_separator t ≡ false
    → any is_path_separator (s ++ t) ≡ any is_path_separator s
any-append [] t h = h
any-append (c ∷ s) t h = ap (λ b. is_path_separator c || b) (any-append s t h)

last_piece_plain :
    (s : Bytes) → any is_path_separator s ≡ false → last_piece is_path_separator s ≡ s
unfolding last_piece
last_piece_plain [] h = refl
last_piece_plain (c ∷ s) h = ground (arith, last_piece_plain s)

last_piece-append :
    (s t : Bytes)
    → any is_path_separator t ≡ false
    → last_piece is_path_separator (s ++ t) ≡ last_piece is_path_separator s ++ t
unfolding last_piece
last_piece-append [] t h = last_piece_plain t h
last_piece-append (c ∷ s) t h = ground (arith, last_piece-append s t h, any-append s t h)

trim_end-padding : (t : Bytes) → all is_padding t ≡ true → trim_end t ≡ []
unfolding trim_end
trim_end-padding [] h = refl
trim_end-padding (c ∷ t) h =
    let (hc, ht) = and_true (is_padding c) (all is_padding t) h in
    rw (trim_end-padding t ht, trim_end) (rw hc refl)

trim_end-append : (s t : Bytes) → all is_padding t ≡ true → trim_end (s ++ t) ≡ trim_end s
unfolding trim_end
trim_end-append [] t h = trim_end-padding t h
trim_end-append (c ∷ s) t h = rw (trim_end-append s t h, trim_end) refl

-- Dots and spaces behind a target do not change whether it counts as executable.
pub has_executable_extension-append :
    (target pad : Bytes)
    → all is_padding pad ≡ true
    → has_executable_extension (target ++ pad) ≡ has_executable_extension target
unfolding has_executable_extension
has_executable_extension-append target pad h = rw (lowercase-append target pad) (
    rw (lowercase-padding pad h) (
      rw (last_piece-append (lowercase target) pad (padding-no_separator pad h))
        (rw (trim_end-append (last_piece is_path_separator (lowercase target)) pad h) refl)))

-- Whether a target counts as executable does not depend on the case of its letters.
pub has_executable_extension-lowercase :
    (target : Bytes) → has_executable_extension (lowercase target) ≡ has_executable_extension target
unfolding has_executable_extension
has_executable_extension-lowercase target = rw (lowercase_idem target)
