-- ===== src/Resolver/Tests.antt =====
-- Runs of the resolver on a store with two manifests, and its properties there.
use m_url.Base.Text.{
  bytes_eq, lowercase, contains, strip_prefix, starts_with, ends_with, ends_with_text, split_once,
  rsplit_once, split_by, split, first_piece, last_piece, join,
}
use m_url.Base.Decimal.{show_from, show, digits_value}
use m_url.Grammar.{all_indexed, is_valid_resource_id, is_valid_role, is_valid_tag}
use m_url.Murl.Utf8.{lead, continue, feed, decode_from, chars}
use m_url.Murl.Percent.{
  hex_val, push_escape, percent_decode, encode_byte, encode_segment, check_chars, check_segment,
  decode_segment,
}
use m_url.Murl.Version.{parse_component, parse_components, parse_version, is_latest, show_version}
use m_url.Murl.Authority.{
  parse_port, split_port, check_label, check_labels, is_some_port, build_authority, parse_authority,
  show_authority,
}
use m_url.Murl.Selector.{select_kind, parse_item, parse_items, parse_selector, show_item}
use m_url.Murl.Parse.{
  check_printable, strip_scheme, cut_suffix, last_segment, parse_segments, parse_fragment,
  check_query, slash_segments, show_pin, identity, selector_display, show_suffix, show_murl,
  parse_located, parse_rest, check_canonical, parse, name_path,
}
use m_url.Kind.{
  parse_custom, parse_kind, is_filesystem, show_kind, trim_end, is_listed_extension,
  has_executable_extension,
}
use m_url.Time.{
  is_leap, days_in_month, days_from_civil, num, is_strict_form, to_epoch, parse_rfc3339_utc,
}
use m_url.Policy.{
  show_tier, classify, is_safe, is_dangerous, mode_for, is_prompt, decide_reasons, early_reasons,
  late_reasons, check_filesystem, consult, evaluate,
}
use m_url.Graph.{
  position, edges, deps_from, is_done, is_ready, order_at, key_lt, pick_from, stuck_ids, rounds,
  execution_order,
}
use m_url.Trust.Status.{is_trusted, show_status}
use m_url.Trust.Store.{
  hex, bytes_lt, find_keys, replace_keys, insert_keys, remove_keys, normalize_authority, pin, unpin,
  sha256_hex, key_id_for, make_integrity, check_integrity, check_key, save, add_checked, add,
  remove_checked, remove, is_trusted_name,
}
use m_url.Trust.Verify.{
  get_member, remove_member, insert_member, signable_members, signable_bytes, field,
  signature_block, sign_manifest, check_signature, verify_block, verify_member, verify_manifest,
}
use m_url.Canonical.{
  write_char, write_chars, write_string, write_integer, write_value, write_items, write_members,
  canonical_json_bytes,
}
use m_url.Fetch.{
  url_path, url_of, well_known_url, sanitize_byte, sanitize_component, path_components,
  push_components, manifest_path, load_read, load,
}
use m_url.Manifest.Strict.{visit, visit_seq, visit_map}
use m_url.Manifest.Target.Check.{is_integrity_text, is_valid_integrity, check_murl, validate_target}
use m_url.Manifest.Target.Hosts.{
  is_valid_port, check_port, validate_hostport, check_user, check_ssh_authority,
  validate_ssh_target, validate_remote_desktop_target,
}
use m_url.Manifest.Target.Messages.{
  check_range, check_coordinates, check_params, check_geo_parts, validate_geo_target,
  check_addresses, check_headers, check_mail, validate_mailto_target,
}
use m_url.Manifest.Target.Paths.{
  is_network_path, starts_with_drive, is_loopback_host, check_web, check_web_scheme,
  validate_web_target, drop_last_separator, check_home_segments, check_dots, path_body, check_body,
  validate_path_target, validate_custom_target,
}
use m_url.Manifest.Validate.Document.{
  from_slice, description_findings, id_findings, version_findings, time_findings, window_findings,
  header_findings, all_findings, validate,
}
use m_url.Manifest.Validate.Members.{
  unknown_names, unknown_in_items, unknown_in_object, validate_unknown_members, walk, walk_items,
  walk_members, validate_numbers,
}
use m_url.Manifest.Validate.Relations.{
  is_known_id, is_valid_rel, relation_findings, relations_findings, validate_relations,
  validate_signature_shape,
}
use m_url.Manifest.Validate.Resources.{
  kind_target_findings, target_findings, seen_after, label_findings, role_findings, tag_findings,
  integrity_findings, is_order, dependency_findings, dependencies_findings, resource_findings,
  each_findings, order_findings, validate_resources,
}
use m_url.Manifest.Validate.Types.{
  errors_of, warnings_of, is_valid, into_result, char_count, has_control_char, item_path,
}
use m_url.Resolver.Types.{display_label}
use m_url.Resolver.Locality.{
  is_remote, describe_origin, locality_of, of_source, eq_authority, eq_names, version_conflicts,
}
use m_url.Resolver.Locate.{
  ttl_of, cached, remember, fetched, fall_back, answered, request, offline_entry, look_up,
  beyond_cache, use_entry, locate_remote, locate_local, locate,
}
use m_url.Resolver.Ingest.{
  label_of, remote_trust, trust_of, is_relabeled, check_declared, check_identity, is_expired,
  is_premature, add_resource, enter, nest, splice, ingest_resource, ingest_resources,
  ingest_manifest, check_manifest, ingest_bytes, check_pin, ingest_with, ingest_named,
}
use m_url.Resolver.Select.{
  matches, claims, check_items, finish, run_named, resolve, resolve_read, resolve_file, decide_all,
  apply_policy,
}
use m_url.Base.Text.{Bytes, codes}
use m_url.Base.{
  ◌++◌, ℕ, ◌≡◌, ◌≢◌, refl, true, false, List, [], ◌∷◌, none, some, Result, ok, err, if◌then◌else◌,
  get_elem?, map, All,
}
use m_url.Base.Int.{pos}
use m_url.Murl.Types.{Murl, Authority, VersionTag, is_local}
use m_url.Limits.{default_limits}
use m_url.Manifest.Json.{object, member}
use m_url.Manifest.Types.{ResourceDoc, ManifestDoc}
use m_url.Manifest.Strict.{Syntax, Entries}
use m_url.Manifest.Target.Messages.{Floats}
use m_url.Manifest.Validate.Document.{Json}
use m_url.Trust.Store.{Crypto}
use m_url.Trust.Verify.{Scheme}
use m_url.Fetch.{FileRead, content, no_file}
use m_url.Policy.{default_policy}
use m_url.Resolver.Types.{Resolution, Resolver, ResolveFault, out_of_fuel, panicked, store_read}
use m_url.Resolver.Locality.{rank, locality_of}
use m_url.Resolver.Sound.{IsFar}
use m_url.Resolver.Outcome.{IsPlan}
use m_url.Resolver.Plan.{
  resolve-IsPlan, resolve-terminates, resolve-IsFar, undecided, IsDecided, resolve-IsDecided,
}

program : Unit {0}
unfolding is_local bytes_eq lowercase contains strip_prefix starts_with ends_with ends_with_text
    split_once rsplit_once split_by split first_piece last_piece join show_from show digits_value
    all_indexed is_valid_resource_id is_valid_role is_valid_tag lead continue feed decode_from chars
    hex_val push_escape percent_decode encode_byte encode_segment check_chars check_segment
    decode_segment parse_component parse_components parse_version is_latest show_version parse_port
    split_port check_label check_labels is_some_port build_authority parse_authority show_authority
    select_kind parse_item parse_items parse_selector show_item check_printable strip_scheme
    cut_suffix last_segment parse_segments parse_fragment check_query slash_segments show_pin
    identity selector_display show_suffix show_murl parse_located parse_rest check_canonical parse
    name_path parse_custom parse_kind is_filesystem show_kind trim_end is_listed_extension
    has_executable_extension is_leap days_in_month days_from_civil num is_strict_form to_epoch
    parse_rfc3339_utc show_tier classify is_safe is_dangerous mode_for is_prompt decide_reasons
    early_reasons late_reasons check_filesystem consult evaluate position edges deps_from is_done
    is_ready order_at key_lt pick_from stuck_ids rounds execution_order is_trusted show_status hex
    bytes_lt find_keys replace_keys insert_keys remove_keys normalize_authority pin unpin sha256_hex
    key_id_for make_integrity check_integrity check_key save add_checked add remove_checked remove
    is_trusted_name get_member remove_member insert_member signable_members signable_bytes field
    signature_block sign_manifest check_signature verify_block verify_member verify_manifest
    write_char write_chars write_string write_integer write_value write_items write_members
    canonical_json_bytes url_path url_of well_known_url sanitize_byte sanitize_component
    path_components push_components manifest_path load_read load visit visit_seq visit_map
    is_integrity_text is_valid_integrity check_murl validate_target is_valid_port check_port
    validate_hostport check_user check_ssh_authority validate_ssh_target
    validate_remote_desktop_target check_range check_coordinates check_params check_geo_parts
    validate_geo_target check_addresses check_headers check_mail validate_mailto_target
    is_network_path starts_with_drive is_loopback_host check_web check_web_scheme
    validate_web_target drop_last_separator check_home_segments check_dots path_body check_body
    validate_path_target validate_custom_target from_slice description_findings id_findings
    version_findings time_findings window_findings header_findings all_findings validate
    unknown_names unknown_in_items unknown_in_object validate_unknown_members walk walk_items
    walk_members validate_numbers is_known_id is_valid_rel relation_findings relations_findings
    validate_relations validate_signature_shape kind_target_findings target_findings seen_after
    label_findings role_findings tag_findings integrity_findings is_order dependency_findings
    dependencies_findings resource_findings each_findings order_findings validate_resources
    errors_of warnings_of is_valid into_result char_count has_control_char item_path display_label
    is_remote describe_origin locality_of of_source eq_authority eq_names version_conflicts ttl_of
    cached remember fetched fall_back answered request offline_entry look_up beyond_cache use_entry
    locate_remote locate_local locate label_of remote_trust trust_of is_relabeled check_declared
    check_identity is_expired is_premature add_resource enter nest splice ingest_resource
    ingest_resources ingest_manifest check_manifest ingest_bytes check_pin ingest_with ingest_named
    matches claims check_items finish run_named resolve resolve_read resolve_file decide_all
    apply_policy
program = tt

-- Libraries that no manifest below needs.
abbrev no_floats : Floats
no_floats = record {
  F = ℕ;
  parse_float = λ s. none;
  is_finite = λ n. true;
  is_within = λ bound n. true;
}

abbrev no_crypto : Crypto
no_crypto = record {
  encode_b64 = λ s. s;
  decode_b64 = λ s. none;
  sha256 = λ s. [];
  is_point = λ s. false;
}

abbrev no_scheme : Scheme
no_scheme = record { public_key = λ s. []; sign = λ s m. []; verify = λ k m s. false }

abbrev resource : Bytes → Bytes → Bytes → ResourceDoc
resource id kind target = record {
  id = id;
  kind = kind;
  target = target;
  label = none;
  role = none;
  required = true;
  order = pos 0;
  depends_on = [];
  tags = [];
  integrity = none;
  meta = none;
}

abbrev doc_of : List ResourceDoc → ManifestDoc
doc_of resources = record {
  murl_version = codes "0.2";
  id = none;
  name = codes "sample";
  description = none;
  version = none;
  not_before = none;
  expires = none;
  resources = resources;
  relations = [];
  signature = none;
}

-- The manifest `a` has a page and nests `b`, which has the same page and another one.
abbrev resources_of : Bytes → List ResourceDoc
resources_of name =
    if bytes_eq name (codes "a")
    then resource (codes "page") (codes "https") (codes "https://a.example/")
      ∷ resource (codes "more") (codes "murl") (codes "murl://local/b")
      ∷ []
    else resource (codes "page") (codes "https") (codes "https://a.example/")
      ∷ resource (codes "other") (codes "https") (codes "https://b.example/")
      ∷ []

-- A manifest's text is its name, read as an object with this one member.
abbrev reader : Json
reader = record {
  read = λ s. some (Syntax.map (Entries.entry s Syntax.unit Entries.done));
  typed =
      λ v. elim v [ object (member name w rest) ↦ some (doc_of (resources_of name)) | _ ↦ none ];
}

-- The file of a name is `s/` followed by the name, which has one byte.
abbrev read_store : Bytes → FileRead
read_store path = elim (get_elem? path 2) [ none ↦ no_file | some c ↦ content (c ∷ []) ]

abbrev resolver : Resolver
resolver = record {
  store_root = codes "s";
  push = λ path c. path ++ (b'/' ∷ c);
  read_file = read_store;
  fetcher = none;
  cache = none;
  trust_store = record { path = []; authorities = [] };
  limits = default_limits;
  now = 0;
  json = reader;
  crypto = no_crypto;
  scheme = no_scheme;
  floats = no_floats;
}

abbrev name_a : Murl
name_a = record {
  authority = Authority.local;
  name = codes "a" ∷ [];
  version = VersionTag.latest;
  selector = none;
  query = none;
}

abbrev nothing : Resolution
nothing = record { nodes = []; resources = []; warnings = []; selector = none }

abbrev resolution_or : Result ResolveFault Resolution → Resolution
resolution_or (ok res) = res
resolution_or (err e) = nothing

abbrev plan_a : Resolution
plan_a = resolution_or (resolve resolver name_a []).0

-- The page that both list is planned once; the nested manifest has depth 1.
plan_a_targets :
    map (λ pr. pr.resource.target) plan_a.resources
    ≡ codes "https://a.example/" ∷ codes "https://b.example/" ∷ []
unfolding program
plan_a_targets = refl

plan_a_depths : map (λ n. n.depth) plan_a.nodes ≡ 0 ∷ 1 ∷ []
unfolding program
plan_a_depths = refl

resolves_a : (resolve resolver name_a []).0 ≡ ok plan_a
unfolding program
resolves_a = refl

resolve-IsPlan_example : IsPlan resolver plan_a
resolve-IsPlan_example = resolve-IsPlan resolver name_a [] plan_a resolves_a

resolve-terminates_example :
    ((resolve resolver name_a []).0 ≢ err out_of_fuel)
    × ((resolve resolver name_a []).0 ≢ err panicked)
resolve-terminates_example = resolve-terminates resolver name_a []

resolve-IsFar_example :
    All
      (IsFar resolver (rank (locality_of name_a.authority)))
      (resolve resolver name_a []).1.requests
resolve-IsFar_example = resolve-IsFar resolver name_a []

resolve-IsDecided_example :
    (undecided (apply_policy default_policy plan_a).resources ≡ undecided plan_a.resources)
    × All (IsDecided default_policy plan_a.nodes) (apply_policy default_policy plan_a).resources
resolve-IsDecided_example = resolve-IsDecided resolver name_a [] default_policy plan_a resolves_a

-- Both manifests are read from the store, the nested one last.
reads_a :
    (resolve resolver name_a []).1.requests
    ≡ store_read (codes "s/b.murl.json") ∷ store_read (codes "s/a.murl.json") ∷ []
unfolding program
reads_a = refl
