-- ===== src/Murl/Authority/RoundTrip.antt =====
-- A printed authority parses to itself.
use m_url.Base.{
  Option, ℕ, ◌≡◌, refl, Bool, true, false, ◌||◌, [], ◌∷◌, ◌++◌, none, some, ok, ◌>>=◌, ltb, ◌==◌,
  length, all, all_mono, all-append, All-mono, arith,
}
use m_url.Base.Text.{
  Bytes, bytes_eq, contains, is_digit, is_empty, lowercase, split, split_by, split_once,
}
use m_url.Base.Text.Equality.{all→Lacks, Lacks→contains}
use m_url.Base.Text.Pieces.{split_once-append, split_once-none, all-of_split}
use m_url.Base.Decimal.{show}
use m_url.Base.Decimal.RoundTrip.{show-digits}
use m_url.Murl.Types.{Authority, local, remote}
use m_url.Murl.Authority.{
  is_label_byte, split_port, is_some_port, build_authority, parse_authority, show_authority,
}
use m_url.Murl.Authority.Valid.{
  IsLabel, IsPort, IsHost, IsAuthority, All-check_labels, parse_port-show,
}

abbrev pub is_host_byte : ℕ → Bool
is_host_byte c = is_label_byte c || c == b'.'

-- The alphabet of a printed authority.
abbrev pub is_authority_byte : ℕ → Bool
is_authority_byte c = is_host_byte c || c == b':'

pub host-bytes : (host : Bytes) → IsHost host → all is_host_byte host ≡ true
host-bytes host v =
    all-of_split b'.' is_label_byte host (
      All-mono IsLabel (λ t. all is_label_byte t ≡ true) (λ l v. v.plain) (split b'.' host)
        v.labels)

host-nonempty : (host : Bytes) → IsHost host → is_empty host ≡ false
unfolding split split_by
host-nonempty [] v = (v.labels).0.nonempty
host-nonempty (c ∷ host) v = refl

lowercase-host : (s : Bytes) → all is_host_byte s ≡ true → lowercase s ≡ s
unfolding lowercase
lowercase-host [] h = refl
lowercase-host (c ∷ s) h = ground (arith, lowercase-host s)

pub show_authority-bytes :
    (a : Authority) → IsAuthority a → all is_authority_byte (show_authority a) ≡ true
unfolding show_authority
show_authority-bytes local v = refl
show_authority-bytes (remote host none) v =
    all_mono is_host_byte is_authority_byte (λ c h. ground arith) host (host-bytes host v.0)
show_authority-bytes (remote host (some p)) v =
    all-append is_authority_byte host _
      (all_mono is_host_byte is_authority_byte (λ c h. ground arith) host (host-bytes host v.0))
      (all_mono is_digit is_authority_byte (λ c h. ground arith) (show p) (show-digits p))

append-nonempty : (s t : Bytes) → is_empty s ≡ false → is_empty (s ++ t) ≡ false
append-nonempty [] t h = cc
append-nonempty (c ∷ s) t h = refl

show_authority-nonempty : (a : Authority) → IsAuthority a → is_empty (show_authority a) ≡ false
unfolding show_authority
show_authority-nonempty local v = refl
show_authority-nonempty (remote host none) v = host-nonempty host v.0
show_authority-nonempty (remote host (some p)) v = append-nonempty host _ (host-nonempty host v.0)

build_authority-remote :
    (host : Bytes) (port : Option ℕ)
    → IsHost host
    → build_authority (lowercase host) port ≡ ok (remote host port)
unfolding build_authority
build_authority-remote host port v =
    let fits : ltb 253 (length host) ≡ false = let k = v.short in ground arith in
    rw (lowercase-host host (host-bytes host v))
      (rw fits (rw v.not_reserved (rw (All-check_labels (split b'.' host) v.labels))))

-- The guards of `parse_authority` pass for a printed authority.
parse_authority-guards :
    (raw : Bytes)
    → is_empty raw ≡ false
    → all is_authority_byte raw ≡ true
    → parse_authority raw
      ≡ (split_port raw (split_once b':' raw) >>= λ hp. build_authority (lowercase hp.0) hp.1)
unfolding parse_authority
parse_authority-guards raw nonempty h =
    let no_at = Lacks→contains b'@' raw (all→Lacks b'@' is_authority_byte refl raw h) in
    let no_open = Lacks→contains b'[' raw (all→Lacks b'[' is_authority_byte refl raw h) in
    let no_close = Lacks→contains b']' raw (all→Lacks b']' is_authority_byte refl raw h) in
    rw nonempty (rw no_at (rw no_open (rw no_close refl)))

split_port-show :
    (host : Bytes) (port : Option ℕ)
    → IsHost host
    → IsPort port
    → split_port
        (show_authority (remote host port))
        (split_once b':' (show_authority (remote host port)))
      ≡ ok (host, port)
unfolding split_port show_authority
split_port-show host none v hp =
    rw (split_once-none b':' host (all→Lacks b':' is_host_byte refl host (host-bytes host v)))
split_port-show host (some p) v (lo, hi) =
    rw
      (split_once-append b':' host (show p)
        (all→Lacks b':' is_host_byte refl host (host-bytes host v)))
      (rw (parse_port-show p lo hi))

-- A printed authority parses to itself, if it is valid: `local`, or a host with valid labels and
-- a port from 1 to 65535 or none.
pub parse_authority-show_authority :
    (a : Authority) → IsAuthority a → parse_authority (show_authority a) ≡ ok a
parse_authority-show_authority local v =
    unfold parse_authority show_authority split_port split_once contains build_authority bytes_eq
      lowercase is_some_port in
    refl
parse_authority-show_authority (remote host port) v =
    rw
      (parse_authority-guards (show_authority (remote host port))
        (show_authority-nonempty (remote host port) v) (show_authority-bytes (remote host port) v))
      (rw (split_port-show host port v.0 v.1) (build_authority-remote host port v.0))
