-- ===== src/Murl/Authority/Valid.antt =====
-- What `parse_authority` returns.
use m_url.Base.{
  ℕ, ◌≤◌, ◌≡◌, refl, true, false, not, ◌||◌, List, [], ◌∷◌, Option, none, some, ok, >>=-eq-ok,
  refuse_if-eq-ok, ltb, ◌==◌, Bool-cases, inl, inr, length, all, All, arith,
}
use m_url.Base.Text.{
  Bytes, bytes_eq, contains, is_digit, is_empty, lowercase, starts_with, ends_with, split,
  split_once,
}
use m_url.Base.Decimal.{show, digits_value}
use m_url.Base.Decimal.RoundTrip.{show-digits, digits_value-show, show-nonempty, length-show_le}
use m_url.Murl.Types.{
  missing_authority, userinfo_forbidden, ipv6_not_supported, invalid_authority, invalid_port,
  host_too_long, local_takes_no_port, bad_label, bad_label_bytes, Authority, local, remote,
  max_authority_len, local_authority,
}
use m_url.Murl.Authority.{
  is_label_byte, parse_port, split_port, check_label, check_labels, is_some_port, build_authority,
  parse_authority,
}

-- A DNS label: 1 to 63 bytes of [a-z0-9-] with no dash at either end.
pub record IsLabel (l : Bytes) : Type 0 where
  pub nonempty : is_empty l ≡ false
  pub short : length l ≤ 63
  pub plain : all is_label_byte l ≡ true
  pub no_dash_first : starts_with b'-' l ≡ false
  pub no_dash_last : ends_with b'-' l ≡ false

abbrev pub IsPort : Option ℕ → Type 0
IsPort none = Unit
IsPort (some p) = (1 ≤ p) × (p ≤ 65535)

pub record IsHost (host : Bytes) : Type 0 where
  pub short : length host ≤ 253
  pub not_reserved : bytes_eq host local_authority ≡ false
  pub labels : All IsLabel (split b'.' host)

abbrev pub IsAuthority : Authority → Type 0
IsAuthority local = Unit
IsAuthority (remote host port) = IsHost host × IsPort port

check_label-IsLabel : (l : Bytes) → check_label l ≡ ok tt → IsLabel l
unfolding check_label
check_label-IsLabel l h =
    let (size, h₁) =
      refuse_if-eq-ok (is_empty l || ltb 63 (length l)) (invalid_authority bad_label) _ h in
    let (plain, h₂) =
      refuse_if-eq-ok (not (all is_label_byte l)) (invalid_authority bad_label_bytes) _ h₁ in
    record {
      nonempty = ground arith;
      short = ground arith;
      plain = ground arith;
      no_dash_first = ground arith;
      no_dash_last = ground arith;
    }

IsLabel-check_label : (l : Bytes) → IsLabel l → check_label l ≡ ok tt
unfolding check_label
IsLabel-check_label l v =
    let fits : ltb 63 (length l) ≡ false = let k = v.short in ground arith in
    rw v.nonempty (rw fits (rw v.plain (rw v.no_dash_first (rw v.no_dash_last refl))))

check_labels-All : (ls : List Bytes) → check_labels ls ≡ ok tt → All IsLabel ls
unfolding check_labels
check_labels-All [] h = tt
check_labels-All (l ∷ ls) h =
    let (u, e, h') = >>=-eq-ok (check_label l) _ h in
    (check_label-IsLabel l e, check_labels-All ls h')

pub All-check_labels : (ls : List Bytes) → All IsLabel ls → check_labels ls ≡ ok tt
unfolding check_labels
All-check_labels [] h = refl
All-check_labels (l ∷ ls) (hl, h) = rw (IsLabel-check_label l hl) (All-check_labels ls h)

parse_port-bounds : (p : Bytes) (n : ℕ) → parse_port p ≡ ok n → (1 ≤ n) × (n ≤ 65535)
unfolding parse_port
parse_port-bounds p n h =
    let (shape, h₁) =
      refuse_if-eq-ok (is_empty p || ltb 5 (length p) || not (all is_digit p)) (invalid_port p) _
        h in
    let (range, h₂) =
      refuse_if-eq-ok (digits_value 0 p == 0 || ltb 65535 (digits_value 0 p)) (invalid_port p) _
        h₁ in
    (ground arith, ground arith)

pub parse_port-show : (n : ℕ) → 1 ≤ n → n ≤ 65535 → parse_port (show n) ≡ ok n
unfolding parse_port
parse_port-show n lo hi =
    let fits : ltb 5 (length (show n)) ≡ false =
      let k = length-show_le n (omega arith) in ground arith in
    rw (show-nonempty n) (rw fits (rw (show-digits n) (rw (digits_value-show n) (ground arith))))

split_port-IsPort :
    (raw : Bytes) (cut : Option (Bytes × Bytes)) (host : Bytes) (port : Option ℕ)
    → split_port raw cut ≡ ok (host, port)
    → IsPort port
unfolding split_port
split_port-IsPort raw none host port h = let e : port ≡ none = ground arith in rw e tt
split_port-IsPort raw (some (a, p)) host port h =
    let (n, e, h') = >>=-eq-ok (parse_port p) _ h in
    let shape : port ≡ some n = ground arith in rw shape (parse_port-bounds p n e)

build_authority-IsAuthority :
    (host : Bytes) (port : Option ℕ) (a : Authority)
    → IsPort port
    → build_authority host port ≡ ok a
    → IsAuthority a
unfolding build_authority
build_authority-IsAuthority host port a hp h =
    let (short, h₁) =
      refuse_if-eq-ok (ltb max_authority_len (length host)) (invalid_authority host_too_long) _ h in
    elim (Bool-cases (bytes_eq host local_authority)) [
      | inl e ↦
          let (none_given, h₂) =
            refuse_if-eq-ok (is_some_port port) (invalid_authority local_takes_no_port) (ok local)
              (rw e at h₁) in
          let shape : a ≡ local = ground arith in rw shape tt
      | inr e ↦
          let (u, e₂, h₂) = >>=-eq-ok (check_labels (split b'.' host)) _ (rw e at h₁) in
          let shape : a ≡ remote host port = ground arith in
          rw shape (
            record {
              short = ground arith;
              not_reserved = e;
              labels = check_labels-All (split b'.' host) e₂;
            },
            hp,
          )
    ]

-- What the parser returns as the authority.
pub parse_authority-IsAuthority :
    (raw : Bytes) (a : Authority) → parse_authority raw ≡ ok a → IsAuthority a
unfolding parse_authority
parse_authority-IsAuthority raw a h =
    let (nonempty, h₁) = refuse_if-eq-ok (is_empty raw) missing_authority _ h in
    let (no_user, h₂) = refuse_if-eq-ok (contains b'@' raw) userinfo_forbidden _ h₁ in
    let (no_v6, h₃) =
      refuse_if-eq-ok (contains b'[' raw || contains b']' raw) ipv6_not_supported _ h₂ in
    let ((host, port), e, h₄) = >>=-eq-ok (split_port raw (split_once b':' raw)) _ h₃ in
    build_authority-IsAuthority (lowercase host) port a (split_port-IsPort raw _ host port e) h₄
