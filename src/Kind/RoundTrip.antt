-- ===== src/Kind/RoundTrip.antt =====
-- Kinds and their names.
use m_url.Base.{
  ◌≡◌, refl, inl, inr, true, false, not, ◌||◌, Option, none, some, Result, ok, refuse_if-eq-ok, ltb,
  if◌then◌else◌, Bool-cases, length, ◌≤◌, arith, sym,
}
use m_url.Base.Text.{Bytes, codes, bytes_eq, is_empty, strip_prefix}
use m_url.Base.Text.Equality.{bytes_eq→eq, strip_prefix-append, strip_prefix-eq-some}
use m_url.Grammar.{all_indexed, is_alnum, is_id_byte}
use m_url.Kind.{
  Kind, https, file, dir, murl, terminal, ssh, remote_desktop, geo, mailto, custom, KindFault,
  max_custom_name, bad_custom_length, bad_custom_name, parse_custom, parse_kind, show_kind,
}

-- A custom kind has a name of 1 to 32 bytes in [a-z0-9][a-z0-9_-]*.
abbrev pub IsKind : Kind → Type 0
IsKind (custom name) =
    (is_empty name ≡ false) × (length name ≤ 32) × (all_indexed is_alnum is_id_byte name ≡ true)
IsKind _ = Unit

parse_custom-eq :
    (o : Option Bytes) (k : Kind)
    → parse_custom o ≡ ok k
    → (name : Bytes) × (o ≡ some name) × (k ≡ custom name) × IsKind (custom name)
unfolding parse_custom
parse_custom-eq none k h = cc
parse_custom-eq (some name) k h =
    let (size, h₁) =
      refuse_if-eq-ok (is_empty name || ltb max_custom_name (length name)) bad_custom_length _ h in
    let (shape, h₂) =
      refuse_if-eq-ok (not (all_indexed is_alnum is_id_byte name)) bad_custom_name _ h₁ in
    (name, refl, ground arith, (ground arith, ground arith, ground arith))

-- What an arm of the match says of its kind.
Named : Bytes → Kind → Type 0
Named s k = (show_kind k ≡ s) × IsKind k

arm :
    (lit s : Bytes) (j : Kind) (rest : Result KindFault Kind) (k : Kind)
    → show_kind j ≡ lit
    → IsKind j
    → (rest ≡ ok k → Named s k)
    → (if bytes_eq s lit then ok j else rest) ≡ ok k
    → Named s k
unfolding Named
arm lit s j rest k shown valid other h = elim (Bool-cases (bytes_eq s lit)) [
  | inl e ↦
      let same : k ≡ j = let h' = rw e at h in ground arith in
      let text = bytes_eq→eq s lit e in rw same (rw text shown, valid)
  | inr e ↦ other (rw e at h)
]

-- A parsed kind has the parsed text as its name, and a valid name if it is a custom kind.
pub parse_kind-show_kind :
    (s : Bytes) (k : Kind) → parse_kind s ≡ ok k → (show_kind k ≡ s) × IsKind k
unfolding parse_kind Named show_kind
parse_kind-show_kind s k = arm (codes "https") s https _ k refl tt (
    arm (codes "file") s file _ k refl tt (
      arm (codes "dir") s dir _ k refl tt (
        arm (codes "murl") s murl _ k refl tt (
          arm (codes "terminal") s terminal _ k refl tt (
            arm (codes "ssh") s ssh _ k refl tt (
              arm (codes "remote-desktop") s remote_desktop _ k refl tt (
                arm (codes "geo") s geo _ k refl tt
                  (arm (codes "mailto") s mailto _ k refl tt last))))))))
  where
    last : parse_custom (strip_prefix (codes "custom:") s) ≡ ok k → Named s k
    last h =
        let (name, e, same, valid) = parse_custom-eq (strip_prefix (codes "custom:") s) k h in
        rw same (sym (strip_prefix-eq-some (codes "custom:") s name e), valid)

-- The name of every valid kind parses to the kind.
pub show_kind-parse_kind : (k : Kind) → IsKind k → parse_kind (show_kind k) ≡ ok k
unfolding parse_kind show_kind bytes_eq
show_kind-parse_kind (custom name) (nonempty, short, shape) =
    let fits : ltb 32 (length name) ≡ false = ground arith in
    rw (strip_prefix-append (codes "custom:") name)
      (unfold parse_custom in rw nonempty (rw fits (rw shape refl)))
show_kind-parse_kind _ v = refl
