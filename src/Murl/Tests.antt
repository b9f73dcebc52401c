-- ===== src/Murl/Tests.antt =====
-- Runs of the mURL parser on small inputs, and the properties at such inputs.
use m_url.Base.{List, map, ◌≡◌, ◌↔◌, refl, [], ◌∷◌, none, some, ok, err, All, arith}
use m_url.Base.Text.{
  Bytes, codes, bytes_eq, ends_with_text, lowercase, contains, strip_prefix, starts_with, ends_with,
  split_once, split, split_by, join,
}
use m_url.Base.Decimal.{show, show_from, digits_value}
use m_url.Grammar.{all_indexed, is_valid_resource_id, is_valid_role, is_valid_tag}
use m_url.Murl.Utf8.{chars, decode_from, feed, lead, continue}
use m_url.Murl.Percent.{
  hex_val, push_escape, percent_decode, encode_byte, encode_segment, check_chars, check_segment,
  decode_segment,
}
use m_url.Murl.Version.{parse_component, parse_components, parse_version, show_version}
use m_url.Murl.Authority.{
  parse_port, split_port, check_label, check_labels, is_some_port, build_authority, parse_authority,
  show_authority,
}
use m_url.Murl.Selector.{select_kind, parse_item, parse_items, parse_selector, show_item}
use m_url.Murl.Authority.RoundTrip.{parse_authority-show_authority}
use m_url.Murl.Authority.Valid.{parse_authority-IsAuthority}
use m_url.Murl.Version.RoundTrip.{parse_version-IsVersion, parse_version-show_version}
use m_url.Murl.Percent.RoundTrip.{percent_decode-encode_segment}
use m_url.Murl.Selector.RoundTrip.{parse_selector-IsSelector, parse_selector-show}
use m_url.Murl.Parse.Valid.{IsMurl}
use m_url.Murl.Parse.RoundTrip.{parse-show_murl-parse, parse-exact}
use m_url.Murl.Parse.Safety.{IsNameSegment, parse-IsNameSegment, identity-injective}
use m_url.Murl.Types.{
  Murl, SelectorItem, remote, pinned, role, id, tag, invalid_segment, dot_segment,
  userinfo_forbidden,
}
use m_url.Murl.Parse.{
  check_printable, strip_scheme, cut_suffix, last_segment, parse_segments, parse_fragment,
  check_query, slash_segments, show_pin, identity, selector_display, show_suffix, show_murl,
  parse_located, parse_rest, check_canonical, parse,
}

program : Unit {0}
unfolding bytes_eq ends_with_text lowercase contains strip_prefix starts_with ends_with split_once
    split split_by join show show_from digits_value all_indexed is_valid_resource_id is_valid_role
    is_valid_tag chars decode_from feed lead continue hex_val push_escape percent_decode encode_byte
    encode_segment check_chars check_segment decode_segment parse_component parse_components
    parse_version show_version parse_port split_port check_label check_labels is_some_port
    build_authority parse_authority show_authority select_kind parse_item parse_items parse_selector
    show_item check_printable strip_scheme cut_suffix last_segment parse_segments parse_fragment
    check_query slash_segments show_pin identity selector_display show_suffix show_murl
    parse_located parse_rest check_canonical parse
program = tt

abbrev sample : Murl
sample = record {
  authority = remote (codes "acme.example") (some 8443);
  name = codes "team" ∷ codes "project x" ∷ [];
  version = pinned (1 ∷ 4 ∷ []);
  selector = some (id (codes "ci") ∷ role (codes "docs") ∷ []);
  query = some (codes "a=b");
}

parse-sample :
    parse (codes "MURL://Acme.example:08443/team/project%20x@1.4?a=b#ci,role=docs") ≡ ok sample
unfolding program
parse-sample = refl

show_sample :
    show_murl sample ≡ codes "murl://acme.example:8443/team/project%20x@1.4?a=b#ci,role=docs"
unfolding program
show_sample = refl

parse_dots : parse (codes "murl://local/a/%2e%2E") ≡ err (invalid_segment dot_segment)
unfolding program
parse_dots = refl

parse_userinfo : parse (codes "murl://github.com@evil.example/x") ≡ err userinfo_forbidden
unfolding program
parse_userinfo = refl

parse-exact_example : IsMurl sample ↔ ((s : Bytes) × (parse s ≡ ok sample))
parse-exact_example = parse-exact sample

parse-show_murl-parse_example : parse (show_murl sample) ≡ ok sample
parse-show_murl-parse_example =
    parse-show_murl-parse (codes "MURL://Acme.example:08443/team/project%20x@1.4?a=b#ci,role=docs")
      sample parse-sample

parse-IsNameSegment_example : All IsNameSegment sample.name
parse-IsNameSegment_example =
    parse-IsNameSegment (codes "MURL://Acme.example:08443/team/project%20x@1.4?a=b#ci,role=docs")
      sample parse-sample

-- The same mURL without selector and query.
abbrev plain : Murl
plain = record sample { selector = none; query = none }

parse-plain : parse (codes "murl://acme.example:8443/team/project%20x@1.4") ≡ ok plain
unfolding program
parse-plain = refl

identity-injective_example :
    (sample.authority ≡ plain.authority)
    × (sample.name ≡ plain.name)
    × (sample.version ≡ plain.version)
identity-injective_example =
    identity-injective (codes "MURL://Acme.example:08443/team/project%20x@1.4?a=b#ci,role=docs")
      (codes "murl://acme.example:8443/team/project%20x@1.4") sample plain parse-sample parse-plain
      (unfold program in refl)

parse_version_sample : parse_version (codes "1.4") ≡ ok (pinned (1 ∷ 4 ∷ []))
unfolding program
parse_version_sample = refl

parse_version_of_show_version_sample :
    parse_version (show_version (pinned (1 ∷ 4 ∷ []))) ≡ ok (pinned (1 ∷ 4 ∷ []))
parse_version_of_show_version_sample =
    parse_version-show_version (pinned (1 ∷ 4 ∷ []))
      (parse_version-IsVersion (codes "1.4") (pinned (1 ∷ 4 ∷ [])) parse_version_sample)

parse_authority_sample :
    parse_authority (codes "Host.example:80") ≡ ok (remote (codes "host.example") (some 80))
unfolding program
parse_authority_sample = refl

parse_authority_of_show_authority_sample :
    parse_authority (show_authority (remote (codes "host.example") (some 80)))
    ≡ ok (remote (codes "host.example") (some 80))
parse_authority_of_show_authority_sample =
    parse_authority-show_authority (remote (codes "host.example") (some 80)) (
      parse_authority-IsAuthority (codes "Host.example:80")
        (remote (codes "host.example") (some 80)) parse_authority_sample)

percent_decode_of_encode_segment_sample :
    percent_decode (encode_segment (0 ∷ 255 ∷ [])) ≡ ok (0 ∷ 255 ∷ [])
percent_decode_of_encode_segment_sample =
    percent_decode-encode_segment (0 ∷ 255 ∷ []) (omega arith, (omega arith, tt))

abbrev items : List SelectorItem
items = id (codes "ci") ∷ tag (codes "x") ∷ []

parse_selector_sample : parse_selector (codes "ci,tag=x") ≡ ok items
unfolding program
parse_selector_sample = refl

parse_selector_of_show_sample : parse_selector (join (codes ",") (map show_item items)) ≡ ok items
parse_selector_of_show_sample =
    parse_selector-show items
      (parse_selector-IsSelector (codes "ci,tag=x") items parse_selector_sample)
