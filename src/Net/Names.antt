-- ===== src/Net/Names.antt =====
-- The URL of a name passes the checks of the fetcher, which tells from it what the name's authority is.
use m_url.Base.{
  ℕ, ◌≡◌, refl, sym, Bool, true, false, not, [], ◌∷◌, ◌++◌, Option, none, some, ok, if◌then◌else◌,
  all, arith,
}
use m_url.Base.Text.{Bytes, codes, strip_prefix, first_piece, rsplit_once, is_digit, Lacks}
use m_url.Base.Text.Equality.{all→Lacks}
use m_url.Base.Text.Cut.{Runs}
use m_url.Base.Decimal.{show}
use m_url.Base.Decimal.RoundTrip.{show-digits}
use m_url.Limits.{Limits}
use m_url.Murl.Types.{Murl, Authority, local, remote, is_loopback}
use m_url.Murl.Authority.{show_authority}
use m_url.Murl.Authority.Valid.{IsAuthority}
use m_url.Murl.Authority.RoundTrip.{
  is_host_byte, is_authority_byte, host-bytes, show_authority-bytes,
}
use m_url.Murl.Parse.{parse}
use m_url.Murl.Parse.Valid.{parse-IsMurl}
use m_url.Fetch.{url_of, well_known_url}
use m_url.Fetch.Urls.{url-parts}
use m_url.Net.{
  is_url_end, before_port, url_host, host_after, host_is_loopback, ureq_redirects, Agent, Answer,
  read_answer, is_some_loopback, is_https, is_http, agent_for, fetch,
}

first_piece-append : (a t : Bytes) → Runs is_url_end a → first_piece is_url_end (a ++ b'/' ∷ t) ≡ a
unfolding first_piece
first_piece-append [] t h = refl
first_piece-append (c ∷ a) t (hc, h) = rw hc (rw (first_piece-append a t h) refl)

rsplit_once-none : (s : Bytes) → Lacks b':' s → rsplit_once b':' s ≡ none
unfolding rsplit_once
rsplit_once-none [] h = refl
rsplit_once-none (c ∷ s) (hc, h) = rw (rsplit_once-none s h) (rw hc refl)

rsplit_once-append : (a b : Bytes) → Lacks b':' b → rsplit_once b':' (a ++ b':' ∷ b) ≡ some (a, b)
unfolding rsplit_once
rsplit_once-append [] b h = rw (rsplit_once-none b h) refl
rsplit_once-append (c ∷ a) b h = rw (rsplit_once-append a b h) refl

authority_byte→Runs : (s : Bytes) → all is_authority_byte s ≡ true → Runs is_url_end s
authority_byte→Runs [] h = tt
authority_byte→Runs (c ∷ s) h = (ground arith, authority_byte→Runs s (ground arith))

-- The host of a printed authority is found before the port.
host-of_authority :
    (host : Bytes) (port : Option ℕ)
    → IsAuthority (remote host port)
    → before_port
        (show_authority (remote host port))
        (rsplit_once b':' (show_authority (remote host port)))
      ≡ host
unfolding show_authority
host-of_authority host none v =
    rw (rsplit_once-none host (all→Lacks b':' is_host_byte refl host (host-bytes host v.0))) refl
host-of_authority host (some p) v =
    rw (rsplit_once-append host (show p) (all→Lacks b':' is_digit refl (show p) (show-digits p)))
      refl

loopback-of_authority :
    (a : Authority) (url t : Bytes) (m : Murl)
    → url_of m a ≡ some url
    → IsAuthority a
    → is_some_loopback (host_after (some (show_authority a ++ b'/' ∷ t))) ≡ is_loopback a
unfolding url_of is_loopback host_is_loopback
loopback-of_authority local url t m h v = absurd cc
loopback-of_authority (remote host port) url t m h v =
    let runs =
      authority_byte→Runs (show_authority (remote host port))
        (show_authority-bytes (remote host port) v) in
    rw (first_piece-append (show_authority (remote host port)) t runs)
      (rw (host-of_authority host port v) refl)

-- What the checks of `fetch` read from a URL, by its scheme.
scheme_checks :
    (b : Bool) (rest url : Bytes)
    → (if b then codes "http" else codes "https") ++ (codes "://" ++ rest) ≡ url
    → (is_https url ≡ not b) × (is_http url ≡ b) × (url_host url ≡ host_after (some rest))
unfolding url_host strip_prefix
scheme_checks true rest url h = rw (sym h) (refl, refl, refl)
scheme_checks false rest url h = rw (sym h) (refl, refl, refl)

-- The request of the client for a URL of the well-known place of a name.
abbrev pub agent_of : Murl → Limits → Agent
agent_of m limits = record {
  timeout_secs = limits.fetch_timeout_secs;
  redirects = ureq_redirects limits.max_redirects;
  https_only = not (is_loopback m.authority);
  loopback = is_loopback m.authority;
}

fetch-passes :
    (client : Agent → Bytes → Answer) (limits : Limits) (m : Murl) (b : Bool) (url : Bytes)
    → is_loopback m.authority ≡ b
    → is_https url ≡ not b
    → is_http url ≡ b
    → is_some_loopback (url_host url) ≡ is_loopback m.authority
    → fetch client url limits ≡ read_answer limits url (client (agent_of m limits) url)
unfolding fetch agent_for
fetch-passes client limits m true url e https http host = rw https (rw host (rw e (rw http refl)))
fetch-passes client limits m false url e https http host = rw https (rw host (rw e refl))

-- The URL of a parsed name passes the check of the scheme, and the client is asked for it once: over
-- https only, with the guard for public addresses, if the name's authority is no loopback host, and
-- with the guard for loopback addresses if it is one.
pub fetch-well_known_url :
    (client : Agent → Bytes → Answer) (limits : Limits) (s url : Bytes) (m : Murl)
    → parse s ≡ ok m
    → well_known_url m ≡ some url
    → fetch client url limits ≡ read_answer limits url (client (agent_of m limits) url)
unfolding well_known_url
fetch-well_known_url client limits s url m hm h =
    let (https, http, host) = scheme_checks (is_loopback m.authority) _ url (url-parts m url h) in
    let loopback = loopback-of_authority m.authority url _ m h (parse-IsMurl s m hm).authority in
    fetch-passes client limits m (is_loopback m.authority) url refl https http (rw host loopback)
