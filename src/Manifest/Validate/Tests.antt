-- ===== src/Manifest/Validate/Tests.antt =====
-- Reading and validating a manifest, and the properties there.
use m_url.Base.Text.{
  bytes_eq, lowercase, contains, strip_prefix, starts_with, ends_with, ends_with_text, split_once,
  rsplit_once, split_by, split, first_piece, last_piece, join,
}
use m_url.Base.Decimal.{show_from, show, digits_value}
use m_url.Grammar.{all_indexed, is_valid_resource_id, is_valid_role, is_valid_tag}
use m_url.Murl.Types.{is_local, is_loopback}
use m_url.Murl.Utf8.{lead, continue, feed, decode_from, chars}
use m_url.Murl.Percent.{
  hex_val, push_escape, percent_decode, encode_byte, encode_segment, check_chars, check_segment,
  decode_segment,
}
use m_url.Murl.Version.{parse_component, parse_components, parse_version, is_latest, show_version}
use m_url.Murl.Authority.{
  parse_port, split_port, check_label, check_labels, is_some_port, build_authority, parse_authority,
  show_authority,
}
use m_url.Murl.Selector.{select_kind, parse_item, parse_items, parse_selector, show_item}
use m_url.Murl.Parse.{
  check_printable, strip_scheme, cut_suffix, last_segment, parse_segments, parse_fragment,
  check_query, slash_segments, show_pin, identity, selector_display, show_suffix, show_murl,
  parse_located, parse_rest, check_canonical, parse, name_path,
}
use m_url.Kind.{
  parse_custom, parse_kind, is_filesystem, show_kind, trim_end, is_listed_extension,
  has_executable_extension,
}
use m_url.Time.{
  is_leap, days_in_month, days_from_civil, num, is_strict_form, to_epoch, parse_rfc3339_utc,
}
use m_url.Graph.{
  position, edges, deps_from, is_done, is_ready, order_at, key_lt, pick_from, stuck_ids, rounds,
  execution_order,
}
use m_url.Trust.Store.{
  hex, bytes_lt, find_keys, replace_keys, insert_keys, remove_keys, normalize_authority, pin, unpin,
  sha256_hex, key_id_for, make_integrity, check_integrity, check_key, save, add_checked, add,
  remove_checked, remove, is_trusted_name, is_trusted,
}
use m_url.Trust.Verify.{
  get_member, remove_member, insert_member, signable_members, signable_bytes, field,
  signature_block, sign_manifest, check_signature, verify_block, verify_member, verify_manifest,
}
use m_url.Manifest.Strict.{visit, visit_seq, visit_map}
use m_url.Manifest.Target.Check.{is_integrity_text, is_valid_integrity, check_murl, validate_target}
use m_url.Manifest.Target.Hosts.{
  is_valid_port, check_port, validate_hostport, check_user, check_ssh_authority,
  validate_ssh_target, validate_remote_desktop_target,
}
use m_url.Manifest.Target.Messages.{
  check_range, check_coordinates, check_params, check_geo_parts, validate_geo_target,
  check_addresses, check_headers, check_mail, validate_mailto_target,
}
use m_url.Manifest.Target.Paths.{
  is_network_path, starts_with_drive, is_loopback_host, check_web, check_web_scheme,
  validate_web_target, drop_last_separator, check_home_segments, check_dots, path_body, check_body,
  validate_path_target, validate_custom_target,
}
use m_url.Manifest.Validate.Document.{
  from_slice, description_findings, id_findings, version_findings, time_findings, window_findings,
  header_findings, all_findings, validate,
}
use m_url.Manifest.Validate.Members.{
  unknown_names, unknown_in_items, unknown_in_object, validate_unknown_members, walk, walk_items,
  walk_members, validate_numbers,
}
use m_url.Manifest.Validate.Relations.{
  is_known_id, is_valid_rel, relation_findings, relations_findings, validate_relations,
  validate_signature_shape,
}
use m_url.Manifest.Validate.Resources.{
  kind_target_findings, target_findings, seen_after, label_findings, role_findings, tag_findings,
  integrity_findings, is_order, dependency_findings, dependencies_findings, resource_findings,
  each_findings, order_findings, validate_resources,
}
use m_url.Manifest.Validate.Types.{
  errors_of, warnings_of, is_valid, into_result, char_count, has_control_char, item_path,
}
use m_url.Base.{ℕ, ◌≡◌, ◌↔◌, refl, true, false, List, [], ◌∷◌, none, some, ok, err}
use m_url.Base.Int.{pos}
use m_url.Base.Text.{codes}
use m_url.Manifest.Json.{Value, object, end}
use m_url.Manifest.Types.{ResourceDoc, Manifest}
use m_url.Manifest.Strict.{Syntax, Elements, Entries, duplicate_member}
use m_url.Manifest.Clean.{IsClean, visit-accepts}
use m_url.Manifest.Target.Messages.{Floats}
use m_url.Trust.Store.{Crypto}
use m_url.Manifest.Validate.Sound.{AreRunnable, validate-AreRunnable}

program : Unit {0}
unfolding bytes_eq lowercase contains strip_prefix starts_with ends_with ends_with_text split_once
    rsplit_once split_by split first_piece last_piece join show_from show digits_value all_indexed
    is_valid_resource_id is_valid_role is_valid_tag is_local is_loopback lead continue feed
    decode_from chars hex_val push_escape percent_decode encode_byte encode_segment check_chars
    check_segment decode_segment parse_component parse_components parse_version is_latest
    show_version parse_port split_port check_label check_labels is_some_port build_authority
    parse_authority show_authority select_kind parse_item parse_items parse_selector show_item
    check_printable strip_scheme cut_suffix last_segment parse_segments parse_fragment check_query
    slash_segments show_pin identity selector_display show_suffix show_murl parse_located parse_rest
    check_canonical parse name_path parse_custom parse_kind is_filesystem show_kind trim_end
    is_listed_extension has_executable_extension is_leap days_in_month days_from_civil num
    is_strict_form to_epoch parse_rfc3339_utc position edges deps_from is_done is_ready order_at
    key_lt pick_from stuck_ids rounds execution_order hex bytes_lt find_keys replace_keys
    insert_keys remove_keys normalize_authority pin unpin sha256_hex key_id_for make_integrity
    check_integrity check_key save add_checked add remove_checked remove is_trusted_name is_trusted
    get_member remove_member insert_member signable_members signable_bytes field signature_block
    sign_manifest check_signature verify_block verify_member verify_manifest visit visit_seq
    visit_map is_integrity_text is_valid_integrity check_murl validate_target is_valid_port
    check_port validate_hostport check_user check_ssh_authority validate_ssh_target
    validate_remote_desktop_target check_range check_coordinates check_params check_geo_parts
    validate_geo_target check_addresses check_headers check_mail validate_mailto_target
    is_network_path starts_with_drive is_loopback_host check_web check_web_scheme
    validate_web_target drop_last_separator check_home_segments check_dots path_body check_body
    validate_path_target validate_custom_target from_slice description_findings id_findings
    version_findings time_findings window_findings header_findings all_findings validate
    unknown_names unknown_in_items unknown_in_object validate_unknown_members walk walk_items
    walk_members validate_numbers is_known_id is_valid_rel relation_findings relations_findings
    validate_relations validate_signature_shape kind_target_findings target_findings seen_after
    label_findings role_findings tag_findings integrity_findings is_order dependency_findings
    dependencies_findings resource_findings each_findings order_findings validate_resources
    errors_of warnings_of is_valid into_result char_count has_control_char item_path
program = tt

abbrev no_floats : Floats
no_floats = record {
  F = ℕ;
  parse_float = λ s. none;
  is_finite = λ n. true;
  is_within = λ bound n. true;
}

abbrev no_crypto : Crypto
no_crypto = record {
  encode_b64 = λ s. s;
  decode_b64 = λ s. none;
  sha256 = λ s. [];
  is_point = λ s. false;
}

abbrev page : ResourceDoc
page = record {
  id = codes "page";
  kind = codes "https";
  target = codes "https://a.example/";
  label = some (codes "A page");
  role = none;
  required = true;
  order = pos 1;
  depends_on = codes "docs" ∷ [];
  tags = codes "ci" ∷ [];
  integrity = none;
  meta = none;
}

abbrev docs : ResourceDoc
docs = record page { id = codes "docs"; target = codes "https://b.example/"; depends_on = [] }

abbrev manifest_of : List ResourceDoc → Manifest
manifest_of resources = record {
  raw = object end;
  doc = record {
    murl_version = codes "0.2";
    id = some (codes "murl://acme.example/a");
    name = codes "sample";
    description = none;
    version = some (codes "1.2");
    not_before = none;
    expires = none;
    resources = resources;
    relations = [];
    signature = none;
  };
}

valid_sample : is_valid (validate no_crypto no_floats (manifest_of (page ∷ docs ∷ []))) ≡ true
unfolding program
valid_sample = refl

cyclic_sample :
    is_valid (
      validate no_crypto no_floats
        (manifest_of (page ∷ record docs { depends_on = codes "page" ∷ [] } ∷ [])))
    ≡ false
unfolding program
cyclic_sample = refl

validate-AreRunnable_example : AreRunnable no_floats (page ∷ docs ∷ [])
validate-AreRunnable_example =
    validate-AreRunnable no_crypto no_floats (manifest_of (page ∷ docs ∷ [])) valid_sample

abbrev nested : Syntax
nested = Syntax.sequence (
    Elements.element
      (Syntax.map (
        Entries.entry (codes "a") Syntax.unit
          (Entries.entry (codes "b") (Syntax.float (some (codes "0.5"))) Entries.done)))
      Elements.last)

doubled_sample :
    visit (
      Syntax.map
        (Entries.entry (codes "a") Syntax.unit (Entries.entry (codes "a") nested Entries.done)))
    ≡ err (duplicate_member (codes "a"))
unfolding program
doubled_sample = refl

visit-accepts_example : ((v : Value) × (visit nested ≡ ok v)) ↔ IsClean nested
visit-accepts_example = visit-accepts nested
