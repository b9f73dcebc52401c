-- ===== src/Fetch/Tests.antt =====
-- Paths and URLs of names, and their properties there.
use m_url.Base.Text.{
  bytes_eq, lowercase, contains, strip_prefix, starts_with, ends_with, ends_with_text, split_once,
  rsplit_once, split_by, split, first_piece, last_piece, join,
}
use m_url.Base.Decimal.{show_from, show, digits_value}
use m_url.Grammar.{all_indexed, is_valid_resource_id, is_valid_role, is_valid_tag}
use m_url.Murl.Types.{is_local, is_loopback}
use m_url.Murl.Utf8.{lead, continue, feed, decode_from, chars}
use m_url.Murl.Percent.{
  hex_val, push_escape, percent_decode, encode_byte, encode_segment, check_chars, check_segment,
  decode_segment,
}
use m_url.Murl.Version.{parse_component, parse_components, parse_version, is_latest, show_version}
use m_url.Murl.Authority.{
  parse_port, split_port, check_label, check_labels, is_some_port, build_authority, parse_authority,
  show_authority,
}
use m_url.Murl.Selector.{select_kind, parse_item, parse_items, parse_selector, show_item}
use m_url.Murl.Parse.{
  check_printable, strip_scheme, cut_suffix, last_segment, parse_segments, parse_fragment,
  check_query, slash_segments, show_pin, identity, selector_display, show_suffix, show_murl,
  parse_located, parse_rest, check_canonical, parse, name_path,
}
use m_url.Fetch.{
  url_path, url_of, well_known_url, sanitize_byte, sanitize_component, path_components,
  push_components, manifest_path, load_read, load,
}
use m_url.Base.{length, ◌↔◌, ◌≡◌, ◌≢◌, refl, List, [], ◌∷◌, ◌++◌, none, some, ok, All}
use m_url.Base.Text.{Bytes, codes}
use m_url.Murl.Types.{Murl, Authority, VersionTag}
use m_url.Fetch.Paths.{IsPortable, push_all, manifest_path-ArePortable}
use m_url.Fetch.Urls.{well_known_url-injective}

program : Unit {0}
unfolding bytes_eq lowercase contains strip_prefix starts_with ends_with ends_with_text split_once
    rsplit_once split_by split first_piece last_piece join show_from show digits_value all_indexed
    is_valid_resource_id is_valid_role is_valid_tag is_local is_loopback lead continue feed
    decode_from chars hex_val push_escape percent_decode encode_byte encode_segment check_chars
    check_segment decode_segment parse_component parse_components parse_version is_latest
    show_version parse_port split_port check_label check_labels is_some_port build_authority
    parse_authority show_authority select_kind parse_item parse_items parse_selector show_item
    check_printable strip_scheme cut_suffix last_segment parse_segments parse_fragment check_query
    slash_segments show_pin identity selector_display show_suffix show_murl parse_located parse_rest
    check_canonical parse name_path url_path url_of well_known_url sanitize_byte sanitize_component
    path_components push_components manifest_path load_read load
program = tt

abbrev local_name : Murl
local_name = record {
  authority = Authority.local;
  name = codes "team" ∷ codes "a b" ∷ [];
  version = VersionTag.pinned (1 ∷ 4 ∷ []);
  selector = none;
  query = none;
}

abbrev remote_name : Murl
remote_name = record local_name { authority = Authority.remote (codes "acme.example") (some 8443) }

parse_local : parse (codes "murl://local/team/a%20b@1.4") ≡ ok local_name
unfolding program
parse_local = refl

parse_remote : parse (codes "murl://acme.example:8443/team/a%20b@1.4") ≡ ok remote_name
unfolding program
parse_remote = refl

parse_remote_upper : parse (codes "MURL://Acme.example:8443/team/a%20b@1.4") ≡ ok remote_name
unfolding program
parse_remote_upper = refl

-- Pushing on a Unix system, to a path that does not end in a slash.
abbrev push_slash : Bytes → Bytes → Bytes
push_slash path c = path ++ (b'/' ∷ c)

path_sample :
    manifest_path push_slash (codes "store") local_name ≡ codes "store/team/a%20b@1.4.murl.json"
unfolding program
path_sample = refl

url_sample :
    well_known_url remote_name
    ≡ some (codes "https://acme.example:8443/.well-known/murl/team/a%20b@1.4.murl.json")
unfolding program
url_sample = refl

manifest_path-ArePortable_example :
    (cs ds : List Bytes) × (manifest_path push_slash (codes "store") local_name
      ≡ push_all push_slash cs (codes "store"))
    × (manifest_path push_slash (codes "store") remote_name
        ≡ push_all push_slash ds (codes "store"))
    × (cs ≢ [])
    × (length cs ≡ 2)
    × All IsPortable cs
    × ((cs ≡ ds)
        ↔ ((local_name.name ≡ remote_name.name) × (local_name.version ≡ remote_name.version)))
manifest_path-ArePortable_example =
    manifest_path-ArePortable push_slash (codes "murl://local/team/a%20b@1.4")
      (codes "murl://acme.example:8443/team/a%20b@1.4") (codes "store") local_name remote_name
      parse_local parse_remote

well_known_url-injective_example :
    (remote_name.authority ≡ remote_name.authority)
    × (remote_name.name ≡ remote_name.name)
    × (remote_name.version ≡ remote_name.version)
well_known_url-injective_example =
    well_known_url-injective (codes "MURL://Acme.example:8443/team/a%20b@1.4")
      (codes "murl://acme.example:8443/team/a%20b@1.4")
      (codes "https://acme.example:8443/.well-known/murl/team/a%20b@1.4.murl.json") remote_name
      remote_name parse_remote_upper parse_remote url_sample url_sample
