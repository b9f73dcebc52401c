-- ===== src/Manifest/Target/Safety.antt =====
-- What no accepted target is, whatever its kind.
use m_url.Base.{
  ℕ, ◌≡◌, ◌≢◌, inl, inr, refl, Bool, true, false, [], ◌∷◌, ◌++◌, some, Result, ok, err, ◌>>=◌,
  refuse_if, ok_or, >>=-eq-ok, refuse_if-eq-ok, ok_or-eq-ok, Bool-cases, Option-cases, ◌==◌, ==_iff,
  ltb, length, take, arith,
}
use m_url.Base.Text.{Bytes, codes, bytes_eq, lowercase, strip_prefix, starts_with, to_lower}
use m_url.Base.Text.Equality.{strip_prefix-eq-some}
use m_url.Kind.{Kind, https, file, dir, murl, terminal, ssh, remote_desktop, geo, mailto, custom}
use m_url.Murl.Types.{Murl, MurlParseError, missing_scheme, too_long, max_murl_len}
use m_url.Murl.Parse.{parse, strip_scheme, check_printable}
use m_url.Manifest.Target.Types.{TargetFault, bad_scheme, network_path, option_like}
use m_url.Manifest.Target.Hosts.{validate_ssh_target, validate_remote_desktop_target}
use m_url.Manifest.Target.Messages.{Floats, validate_geo_target, validate_mailto_target}
use m_url.Manifest.Target.Paths.{
  is_network_path, validate_web_target, check_web_scheme, validate_path_target,
  validate_custom_target, check_body, check_home_segments, path_body,
}
use m_url.Manifest.Target.Check.{validate_target, check_murl}

-- Neither a network path nor an option of the program that it is given to.
pub record IsInert (target : Bytes) : Type 0 where
  pub not_network : is_network_path target ≡ false
  pub not_option : starts_with b'-' target ≡ false

-- A text whose first byte is neither a separator nor a dash.
IsInert-head :
    (c : ℕ) (s : Bytes)
    → (c == b'/') ≡ false
    → (c == b'\\') ≡ false
    → (c == b'-') ≡ false
    → IsInert (c ∷ s)
unfolding is_network_path starts_with
IsInert-head c [] a b d = record { not_network = refl; not_option = d }
IsInert-head c (e ∷ s) a b d = record { not_network = rw a (rw b refl); not_option = d }

-- A text behind a scheme.
IsInert-prefix :
    (c : ℕ) (p rest target : Bytes)
    → (c == b'/') ≡ false
    → (c == b'\\') ≡ false
    → (c == b'-') ≡ false
    → strip_prefix (c ∷ p) target ≡ some rest
    → IsInert target
IsInert-prefix c p rest target a b d e =
    rw (strip_prefix-eq-some (c ∷ p) target rest e) (IsInert-head c (p ++ rest) a b d)

ok_or-IsInert :
    (c : ℕ) (p target : Bytes) (k : Bytes → Result TargetFault (Unit {0}))
    → (c == b'/') ≡ false
    → (c == b'\\') ≡ false
    → (c == b'-') ≡ false
    → (ok_or (strip_prefix (c ∷ p) target) bad_scheme >>= k) ≡ ok tt
    → IsInert target
ok_or-IsInert c p target k a b d h =
    let (rest, e, h') = >>=-eq-ok (ok_or (strip_prefix (c ∷ p) target) bad_scheme) k h in
    IsInert-prefix c p rest target a b d (ok_or-eq-ok _ bad_scheme e)

validate_web_target-IsInert : (target : Bytes) → validate_web_target target ≡ ok tt → IsInert target
unfolding validate_web_target check_web_scheme
validate_web_target-IsInert target h =
    elim (Option-cases (strip_prefix (codes "https://") target)) [
      | inr (rest, e) ↦ IsInert-prefix b'h' (codes "ttps://") rest target refl refl refl e
      | inl e ↦ elim (Option-cases (strip_prefix (codes "http://") target)) [
        | inr (rest, e') ↦ IsInert-prefix b'h' (codes "ttp://") rest target refl refl refl e'
        | inl e' ↦ absurd (let h' = rw e at h in let h'' = rw e' at h' in cc)
      ]
    ]

validate_remote_desktop_target-IsInert :
    (target : Bytes) → validate_remote_desktop_target target ≡ ok tt → IsInert target
unfolding validate_remote_desktop_target
validate_remote_desktop_target-IsInert target h =
    elim (Option-cases (strip_prefix (codes "rdp://") target)) [
      | inr (rest, e) ↦ IsInert-prefix b'r' (codes "dp://") rest target refl refl refl e
      | inl e ↦ elim (Option-cases (strip_prefix (codes "vnc://") target)) [
        | inr (rest, e') ↦ IsInert-prefix b'v' (codes "nc://") rest target refl refl refl e'
        | inl e' ↦ absurd (let h' = rw e at h in let h'' = rw e' at h' in cc)
      ]
    ]

-- A path that starts with a dash is not absolute.
dash-not_path : (s : Bytes) → check_body (b'-' ∷ s) ≢ ok tt
unfolding check_body path_body strip_prefix bytes_eq
dash-not_path [] h = cc
dash-not_path (a ∷ []) h = cc
dash-not_path (a ∷ b ∷ s) h = cc

validate_path_target-IsInert :
    (target : Bytes) → validate_path_target target ≡ ok tt → IsInert target
unfolding validate_path_target starts_with
validate_path_target-IsInert target h =
    let (network, h₁) = refuse_if-eq-ok (is_network_path target) network_path _ h in
    let (u, home, h₂) = >>=-eq-ok (check_home_segments (strip_prefix (codes "~/") target)) _ h₁ in
    record { not_network = network; not_option = no_dash target h₂ }
  where
    no_dash : (t : Bytes) → check_body t ≡ ok tt → starts_with b'-' t ≡ false
    no_dash [] h = refl
    no_dash (c ∷ s) h = elim (Bool-cases (c == b'-')) [
      | inr e ↦ e
      | inl e ↦ absurd (dash-not_path s (rw ((==_iff c b'-').0 e) at h))
    ]

-- The scheme of a mURL begins with a letter.
strip_scheme-IsInert : (target rest : Bytes) → strip_scheme target ≡ some rest → IsInert target
unfolding strip_scheme bytes_eq
strip_scheme-IsInert [] rest h = cc
strip_scheme-IsInert (c ∷ s) rest h = elim (Bool-cases (ltb (length (c ∷ s)) 7)) [
  | inl e ↦ absurd (let h' = rw e at h in cc)
  | inr e ↦
      let h' = rw e at h in
      elim (Bool-cases (bytes_eq (lowercase (take 7 (c ∷ s))) (codes "murl://"))) [
        | inr n ↦ absurd (let h'' = rw n at h' in cc)
        | inl y ↦ letter (lowercase (take 6 s)) (unfold lowercase in y)
      ]
]
  where
    letter : (t : Bytes) → bytes_eq (to_lower c ∷ t) (codes "murl://") ≡ true → IsInert (c ∷ s)
    letter t y =
        IsInert-head c s (let y' = y in ground arith) (let y' = y in ground arith)
          (let y' = y in ground arith)

murl-IsInert : (target : Bytes) → check_murl (parse target) ≡ ok tt → IsInert target
unfolding check_murl parse
murl-IsInert target h = accepted (parse target) refl h
  where
    accepted :
        (r : Result MurlParseError Murl) → parse target ≡ r → check_murl r ≡ ok tt → IsInert target
    accepted (err x) e h = cc
    accepted (ok m) e h =
        let (short, h₁) = refuse_if-eq-ok (ltb max_murl_len (length target)) too_long _ e in
        let (u, printable, h₂) = >>=-eq-ok (check_printable 0 target) _ h₁ in
        let (rest, scheme, h₃) = >>=-eq-ok (ok_or (strip_scheme target) missing_scheme) _ h₂ in
        strip_scheme-IsInert target rest (ok_or-eq-ok _ missing_scheme scheme)

-- No accepted target, of any kind, is a network path, and none begins with a dash, so that it reads as an
-- option of the handler.
pub validate_target-IsInert :
    (floats : Floats) (kind : Kind) (target : Bytes)
    → validate_target floats kind target ≡ ok tt
    → IsInert target
unfolding validate_target validate_ssh_target validate_geo_target validate_mailto_target
    validate_custom_target
validate_target-IsInert floats https target h = validate_web_target-IsInert target h
validate_target-IsInert floats file target h = validate_path_target-IsInert target h
validate_target-IsInert floats dir target h = validate_path_target-IsInert target h
validate_target-IsInert floats terminal target h = validate_path_target-IsInert target h
validate_target-IsInert floats murl target h = murl-IsInert target h
validate_target-IsInert floats ssh target h =
    ok_or-IsInert b's' (codes "sh://") target _ refl refl refl h
validate_target-IsInert floats remote_desktop target h =
    validate_remote_desktop_target-IsInert target h
validate_target-IsInert floats geo target h =
    ok_or-IsInert b'g' (codes "eo:") target _ refl refl refl h
validate_target-IsInert floats mailto target h =
    ok_or-IsInert b'm' (codes "ailto:") target _ refl refl refl h
validate_target-IsInert floats (custom name) target h =
    let (dash, h₁) = refuse_if-eq-ok (starts_with b'-' target) option_like _ h in
    record { not_network = last (is_network_path target) h₁; not_option = dash }
  where
    last : (b : Bool) → refuse_if b network_path ≡ ok tt → b ≡ false
    last true e = cc
    last false e = refl
