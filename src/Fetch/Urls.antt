-- ===== src/Fetch/Urls.antt =====
-- The URL of a remote name tells it apart.
use mathlib.Core.List.{append_cancel_left, append_cancel_right}
use m_url.Base.{
  ℕ, ◌==◌, get_elem?, ◌≡◌, sym, ◌∙◌, ap, Bool, true, false, ◌∷◌, ◌++◌, append_assoc, Option, none,
  some, ok, if◌then◌else◌,
}
use m_url.Base.Text.{Bytes, codes, split_once, Lacks}
use m_url.Base.Text.Pieces.{split_once-append}
use m_url.Murl.Types.{Murl, Authority, local, remote, is_loopback}
use m_url.Murl.Authority.{show_authority}
use m_url.Murl.Parse.{parse, identity, slash_segments, show_pin}
use m_url.Murl.Parse.Valid.{parse-IsMurl}
use m_url.Murl.Parse.Canonical.{authority-Lacks}
use m_url.Murl.Parse.Safety.{identity-injective}
use m_url.Fetch.{scheme_of, manifest_suffix, url_path, url_of, well_known_url}

abbrev is_colon : Option ℕ → Bool
is_colon none = false
is_colon (some c) = c == b':'

abbrev fifth_is_colon : Bytes → Bool
fifth_is_colon s = is_colon (get_elem? s 4)

scheme_cancel :
    (a b : Bool) (s t : Bytes)
    → (if a then codes "http" else codes "https") ++ (codes "://" ++ s)
      ≡ (if b then codes "http" else codes "https") ++ (codes "://" ++ t)
    → s ≡ t
scheme_cancel true true s t h = cc
scheme_cancel true false s t h = absurd (let e = ap fifth_is_colon h in cc)
scheme_cancel false true s t h = absurd (let e = ap fifth_is_colon h in cc)
scheme_cancel false false s t h = cc

split_at_slash :
    (a b x y : Bytes)
    → Lacks b'/' a
    → Lacks b'/' b
    → a ++ b'/' ∷ x ≡ b ++ b'/' ∷ y
    → (a ≡ b) × (x ≡ y)
split_at_slash a b x y ha hb h =
    let same : ◌≡◌ {A = Option (Bytes × Bytes)} (some (a, x)) (some (b, y)) =
      sym (split_once-append b'/' a x ha)
      ∙ (ap (split_once b'/') h ∙ split_once-append b'/' b y hb) in
    (cc, cc)

-- The parts of a URL.
pub url-parts :
    (m : Murl) (u : Bytes)
    → well_known_url m ≡ some u
    → scheme_of m.authority
        ++ (codes "://"
            ++ (show_authority m.authority ++ (codes "/.well-known/murl" ++ url_path m)))
      ≡ u
unfolding well_known_url url_of
url-parts m u h = go m.authority h
  where
    go :
        (a : Authority)
        → url_of m a ≡ some u
        → scheme_of a
            ++ (codes "://" ++ (show_authority a ++ (codes "/.well-known/murl" ++ url_path m)))
          ≡ u
    go local e = absurd cc
    go (remote host port) e = cc

url_path-cancel :
    (m n : Murl)
    → url_path m ≡ url_path n
    → slash_segments m.name ++ show_pin m.version ≡ slash_segments n.name ++ show_pin n.version
unfolding url_path
url_path-cancel m n h =
    append_cancel_right (slash_segments m.name ++ show_pin m.version)
      (slash_segments n.name ++ show_pin n.version) manifest_suffix
      (rw append_assoc (rw append_assoc h))

-- Two parsed remote names with one URL have the same authority, name and version: no manifest is
-- fetched from the place of another name.
pub well_known_url-injective :
    (s t u : Bytes) (m n : Murl)
    → parse s ≡ ok m
    → parse t ≡ ok n
    → well_known_url m ≡ some u
    → well_known_url n ≡ some u
    → (m.authority ≡ n.authority) × (m.name ≡ n.name) × (m.version ≡ n.version)
unfolding identity
well_known_url-injective s t u m n hm hn em en =
    let rest =
      scheme_cancel (is_loopback m.authority) (is_loopback n.authority) _ _
        (url-parts m u em ∙ sym (url-parts n u en)) in
    let (same, path) =
      split_at_slash (show_authority m.authority) (show_authority n.authority) _ _
        (authority-Lacks m (parse-IsMurl s m hm)) (authority-Lacks n (parse-IsMurl t n hn)) rest in
    let tail =
      url_path-cancel m n
        (append_cancel_left (codes ".well-known/murl") (url_path m) (url_path n) path) in
    identity-injective s t m n hm hn
      (rw same (ap (λ x. codes "murl://" ++ (show_authority n.authority ++ x)) tail))
