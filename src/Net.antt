-- ===== src/Net.antt =====
-- crates/murl-net/src/lib.rs: the fetcher of manifests, with its guard on addresses. The HTTP client and the
-- lookup of addresses are parameters; the trace is left out.
pub mod Guard
pub mod Names
mod Tests
use m_url.Base.{
  ℕ, ◌+◌, ◌/◌, ◌%◌, Bool, true, false, not, ◌&&◌, ◌||◌, List, [], ◌∷◌, Option, none, some, Result,
  ok, err, ◌>>=◌, ◌>>◌, refuse_if, map_err, ltb, leb, ◌==◌, if◌then◌else◌, length, retain,
}
use m_url.Base.Text.{Bytes, codes, bytes_eq, strip_prefix, ends_with_text, first_piece, rsplit_once}
use m_url.Limits.{Limits}

pub data Ip : Type 0 where
  v4 : (a b c d : ℕ) → Ip
  v6 : (s₀ s₁ s₂ s₃ s₄ s₅ s₆ s₇ : ℕ) → Ip

-- `v6.to_ipv4_mapped()`, and the address itself otherwise.
unfoldable pub unmapped : Ip → Ip
unmapped (v4 a b c d) = v4 a b c d
unmapped (v6 s₀ s₁ s₂ s₃ s₄ s₅ s₆ s₇) =
    if s₀ == 0 && s₁ == 0 && s₂ == 0 && s₃ == 0 && s₄ == 0 && s₅ == 0xffff
    then v4 (s₆ / 256) (s₆ % 256) (s₇ / 256) (s₇ % 256)
    else v6 s₀ s₁ s₂ s₃ s₄ s₅ s₆ s₇

-- The library's `is_loopback`, `is_unspecified` and `is_private` of the two kinds of addresses.
abbrev pub is_v6 : ℕ → Ip → Bool
is_v6 last (v4 a b c d) = false
is_v6 last (v6 s₀ s₁ s₂ s₃ s₄ s₅ s₆ s₇) =
    s₀ == 0 && s₁ == 0 && s₂ == 0 && s₃ == 0 && s₄ == 0 && s₅ == 0 && s₆ == 0 && s₇ == last

abbrev pub is_loopback_ip : Ip → Bool
is_loopback_ip (v4 a b c d) = a == 127
is_loopback_ip (v6 s₀ s₁ s₂ s₃ s₄ s₅ s₆ s₇) = is_v6 1 (v6 s₀ s₁ s₂ s₃ s₄ s₅ s₆ s₇)

abbrev pub is_private : ℕ → ℕ → Bool
is_private a b = a == 10 || (a == 172 && leb 16 b && leb b 31) || (a == 192 && b == 168)

-- The arms of the `match`. A mask on the upper bits is a division: `seg0 & 0xfe00 == 0xfc00` is
-- `seg0 / 512 == 126`.
unfoldable pub is_public : Ip → Bool
is_public (v4 a b c d) = not (
    a == 127
    || is_private a b
    || (a == 169 && b == 254)
    || (a == 255 && b == 255 && c == 255 && d == 255)
    || (leb 224 a && leb a 239)
    || a == 0
    || (a == 100 && b / 64 == 1))
is_public (v6 s₀ s₁ s₂ s₃ s₄ s₅ s₆ s₇) = not (
    is_v6 1 (v6 s₀ s₁ s₂ s₃ s₄ s₅ s₆ s₇)
    || is_v6 0 (v6 s₀ s₁ s₂ s₃ s₄ s₅ s₆ s₇)
    || s₀ / 256 == 255
    || s₀ / 512 == 126
    || s₀ / 64 == 1018)

unfoldable pub ip_allowed : Ip → Bool → Bool
ip_allowed ip loopback = if loopback then is_loopback_ip (unmapped ip) else is_public (unmapped ip)

pub data NetFault : Type 0 where
  not_looked_up : Bytes → NetFault
  only_blocked : (loopback : Bool) (netloc : Bytes) → NetFault

abbrev pub some_addresses : List Ip → Bool
some_addresses [] = false
some_addresses (a ∷ rest) = true

-- The addresses that were looked up, filtered.
unfoldable pub guard_addresses : Bool → Bytes → List Ip → Result NetFault (List Ip)
guard_addresses loopback netloc addrs = do
  refuse_if
      (not (some_addresses (retain (λ a. ip_allowed a loopback) addrs)) && some_addresses addrs)
      (only_blocked loopback netloc)
  ok (retain (λ a. ip_allowed a loopback) addrs)

-- `GuardedResolver::resolve`
unfoldable pub resolve_guarded :
    (Bytes → Result Bytes (List Ip)) → Bool → Bytes → Result NetFault (List Ip)
resolve_guarded lookup loopback netloc = do
  addrs ← map_err not_looked_up (lookup netloc)
  guard_addresses loopback netloc addrs

abbrev pub is_url_end : ℕ → Bool
is_url_end c = c == b'/' || c == b'?' || c == b'#'

abbrev pub before_port : Bytes → Option (Bytes × Bytes) → Bytes
before_port authority none = authority
before_port authority (some (host, port)) = host

abbrev pub either : Option Bytes → Option Bytes → Option Bytes
either none o = o
either (some s) o = some s

abbrev pub host_after : Option Bytes → Option Bytes
host_after none = none
host_after (some rest) =
    some
      (before_port (first_piece is_url_end rest) (rsplit_once b':' (first_piece is_url_end rest)))

unfoldable pub url_host : Bytes → Option Bytes
url_host url =
    host_after (either (strip_prefix (codes "https://") url) (strip_prefix (codes "http://") url))

unfoldable pub host_is_loopback : Bytes → Bool
host_is_loopback host =
    bytes_eq host (codes "localhost")
    || bytes_eq host (codes "127.0.0.1")
    || ends_with_text (codes ".localhost") host

-- `n.saturating_add(1)` on 32 bits
unfoldable pub ureq_redirects : ℕ → ℕ
ureq_redirects max_redirects =
    if max_redirects == 0
    then 0
    else if max_redirects == 4294967295
    then 4294967295
    else max_redirects + 1

-- How the client is built for a request.
pub record Agent : Type 0 where
  pub timeout_secs : ℕ
  pub redirects : ℕ
  pub https_only : Bool
  pub loopback : Bool

-- What a call of the client gives. A body gives what reading at most some bytes of it gives.
pub data Answer : Type 0 where
  response : (status : ℕ) (body : ℕ → Result Bytes Bytes) → Answer
  status_error : (code : ℕ) → Answer
  transport_error : Bytes → Answer

pub data FetchError : Type 0 where
  not_https : Bytes → FetchError
  http_status : ℕ → Bytes → FetchError
  broken_off : Bytes → FetchError
  too_large : Bytes → FetchError

unfoldable pub read_capped : (ℕ → Result Bytes Bytes) → ℕ → Bytes → Result FetchError Bytes
read_capped body cap url = do
  buf ← map_err broken_off (body (cap + 1))
  refuse_if (ltb cap (length buf)) (too_large url)
  ok buf

unfoldable pub read_answer : Limits → Bytes → Answer → Result FetchError Bytes
read_answer limits url (response status body) =
    if leb 200 status && leb status 299
    then read_capped body limits.max_manifest_bytes url
    else err (http_status status url)
read_answer limits url (status_error code) = err (http_status code url)
read_answer limits url (transport_error e) = err (broken_off e)

abbrev pub is_some_loopback : Option Bytes → Bool
is_some_loopback none = false
is_some_loopback (some host) = host_is_loopback host

abbrev pub has_prefix : Option Bytes → Bool
has_prefix none = false
has_prefix (some s) = true

abbrev pub is_https : Bytes → Bool
is_https url = has_prefix (strip_prefix (codes "https://") url)

abbrev pub is_http : Bytes → Bool
is_http url = has_prefix (strip_prefix (codes "http://") url)

unfoldable pub agent_for : Bytes → Limits → Agent
agent_for url limits = record {
  timeout_secs = limits.fetch_timeout_secs;
  redirects = ureq_redirects limits.max_redirects;
  https_only = is_https url;
  loopback = is_some_loopback (url_host url);
}

-- `HttpsFetcher::fetch`
unfoldable pub fetch : (Agent → Bytes → Answer) → Bytes → Limits → Result FetchError Bytes
fetch client url limits = do
  refuse_if (not (is_https url || (is_http url && is_some_loopback (url_host url)))) (not_https url)
  read_answer limits url (client (agent_for url limits) url)
