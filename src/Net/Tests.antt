-- ===== src/Net/Tests.antt =====
-- Runs of the fetcher and of its guard, and their properties there.
use m_url.Base.Text.{
  bytes_eq, lowercase, contains, strip_prefix, starts_with, ends_with, ends_with_text, split_once,
  rsplit_once, split_by, split, first_piece, last_piece, join,
}
use m_url.Base.Decimal.{show_from, show, digits_value}
use m_url.Grammar.{all_indexed, is_valid_resource_id, is_valid_role, is_valid_tag}
use m_url.Murl.Types.{is_local, is_loopback}
use m_url.Murl.Utf8.{lead, continue, feed, decode_from, chars}
use m_url.Murl.Percent.{
  hex_val, push_escape, percent_decode, encode_byte, encode_segment, check_chars, check_segment,
  decode_segment,
}
use m_url.Murl.Version.{parse_component, parse_components, parse_version, is_latest, show_version}
use m_url.Murl.Authority.{
  parse_port, split_port, check_label, check_labels, is_some_port, build_authority, parse_authority,
  show_authority,
}
use m_url.Murl.Selector.{select_kind, parse_item, parse_items, parse_selector, show_item}
use m_url.Murl.Parse.{
  check_printable, strip_scheme, cut_suffix, last_segment, parse_segments, parse_fragment,
  check_query, slash_segments, show_pin, identity, selector_display, show_suffix, show_murl,
  parse_located, parse_rest, check_canonical, parse, name_path,
}
use m_url.Fetch.{
  url_path, url_of, well_known_url, sanitize_byte, sanitize_component, path_components,
  push_components, manifest_path, load_read, load,
}
use m_url.Net.{
  unmapped, is_public, ip_allowed, guard_addresses, resolve_guarded, url_host, host_is_loopback,
  ureq_redirects, read_capped, read_answer, agent_for, fetch,
}
use m_url.Base.{◌≡◌, refl, true, false, List, [], ◌∷◌, none, some, Result, ok, err, ◌⊎◌, ◌≢◌}
use m_url.Base.Text.{Bytes, codes}
use m_url.Limits.{default_limits}
use m_url.Murl.Types.{Murl, Authority, VersionTag}
use m_url.Net.{Ip, v4, v6, Agent, Answer, response, not_https, too_large, only_blocked}
use m_url.Net.Guard.{IsFiltered, IsReachable, resolve_guarded-IsFiltered}
use m_url.Net.Names.{agent_of, fetch-well_known_url}

program : Unit {0}
unfolding bytes_eq lowercase contains strip_prefix starts_with ends_with ends_with_text split_once
    rsplit_once split_by split first_piece last_piece join show_from show digits_value all_indexed
    is_valid_resource_id is_valid_role is_valid_tag is_local is_loopback lead continue feed
    decode_from chars hex_val push_escape percent_decode encode_byte encode_segment check_chars
    check_segment decode_segment parse_component parse_components parse_version is_latest
    show_version parse_port split_port check_label check_labels is_some_port build_authority
    parse_authority show_authority select_kind parse_item parse_items parse_selector show_item
    check_printable strip_scheme cut_suffix last_segment parse_segments parse_fragment check_query
    slash_segments show_pin identity selector_display show_suffix show_murl parse_located parse_rest
    check_canonical parse name_path url_path url_of well_known_url sanitize_byte sanitize_component
    path_components push_components manifest_path load_read load unmapped is_public ip_allowed
    guard_addresses resolve_guarded url_host host_is_loopback ureq_redirects read_capped read_answer
    agent_for fetch
program = tt

private_mapped : ip_allowed (v6 0 0 0 0 0 0xffff 0x0a00 1) false ≡ false
unfolding program
private_mapped = refl

metadata_blocked : ip_allowed (v4 169 254 169 254) false ≡ false
unfolding program
metadata_blocked = refl

public_allowed : ip_allowed (v4 93 184 216 34) false ≡ true
unfolding program
public_allowed = refl

unique_local_blocked : ip_allowed (v6 0xfd12 0 0 0 0 0 0 1) false ≡ false
unfolding program
unique_local_blocked = refl

-- The lookup gives a public and a private address.
abbrev two_addresses : Bytes → Result Bytes (List Ip)
two_addresses netloc = ok (v4 93 184 216 34 ∷ v4 10 0 0 1 ∷ [])

resolve_sample :
    resolve_guarded two_addresses false (codes "acme.example:443") ≡ ok (v4 93 184 216 34 ∷ [])
unfolding program
resolve_sample = refl

resolve_loopback :
    resolve_guarded two_addresses true (codes "dev.localhost:80")
    ≡ err (only_blocked true (codes "dev.localhost:80"))
unfolding program
resolve_loopback = refl

resolve_guarded-IsFiltered_example :
    (found : List Ip) × (two_addresses (codes "acme.example:443") ≡ ok found)
    × IsFiltered (IsReachable false) found (v4 93 184 216 34 ∷ [])
    × ((found ≡ []) ⊎ (v4 93 184 216 34 ∷ [] ≢ []))
resolve_guarded-IsFiltered_example =
    resolve_guarded-IsFiltered two_addresses false (codes "acme.example:443")
      (v4 93 184 216 34 ∷ []) resolve_sample

abbrev remote_name : Murl
remote_name = record {
  authority = Authority.remote (codes "dev.localhost") (some 8080);
  name = codes "a" ∷ [];
  version = VersionTag.latest;
  selector = none;
  query = none;
}

abbrev url : Bytes
url = codes "http://dev.localhost:8080/.well-known/murl/a.murl.json"

parse_sample : parse (codes "murl://dev.localhost:8080/a") ≡ ok remote_name
unfolding program
parse_sample = refl

url_sample : well_known_url remote_name ≡ some url
unfolding program
url_sample = refl

abbrev client : Agent → Bytes → Answer
client agent u = response 200 (λ n. ok (codes "{}"))

fetch_sample : fetch client url default_limits ≡ ok (codes "{}")
unfolding program
fetch_sample = refl

fetch_plain :
    fetch client (codes "http://acme.example/a") default_limits
    ≡ err (not_https (codes "http://acme.example/a"))
unfolding program
fetch_plain = refl

fetch_large :
    fetch client url (record default_limits { max_manifest_bytes = 1 }) ≡ err (too_large url)
unfolding program
fetch_large = refl

fetch-well_known_url_example :
    fetch client url default_limits
    ≡ read_answer default_limits url (client (agent_of remote_name default_limits) url)
fetch-well_known_url_example =
    fetch-well_known_url client default_limits (codes "murl://dev.localhost:8080/a") url remote_name
      parse_sample url_sample
