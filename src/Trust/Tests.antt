-- ===== src/Trust/Tests.antt =====
-- Runs of the trust store, and its properties at such inputs.
use m_url.Base.{◌≡◌, refl, true, ◌&&◌, ◌||◌, not, [], none, some, ok, replicate}
use m_url.Base.Text.{
  Bytes, codes, bytes_eq, ends_with_text, lowercase, contains, strip_prefix, starts_with, ends_with,
  split_once, split, split_by, join,
}
use m_url.Base.Decimal.{show, show_from, digits_value}
use m_url.Grammar.{all_indexed, is_valid_resource_id, is_valid_role, is_valid_tag}
use m_url.Murl.Utf8.{chars, decode_from, feed, lead, continue}
use m_url.Murl.Percent.{
  hex_val, push_escape, percent_decode, encode_byte, encode_segment, check_chars, check_segment,
  decode_segment,
}
use m_url.Murl.Version.{parse_component, parse_components, parse_version, show_version}
use m_url.Murl.Authority.{
  parse_port, split_port, check_label, check_labels, is_some_port, build_authority, parse_authority,
  show_authority,
}
use m_url.Murl.Selector.{select_kind, parse_item, parse_items, parse_selector, show_item}
use m_url.Murl.Parse.{
  check_printable, strip_scheme, cut_suffix, last_segment, parse_segments, parse_fragment,
  check_query, slash_segments, show_pin, identity, selector_display, show_suffix, show_murl,
  parse_located, parse_rest, check_canonical, parse,
}
use m_url.Trust.Store.{
  TrustStore, Crypto, Disk, hex, bytes_lt, find_keys, replace_keys, insert_keys, remove_keys,
  normalize_authority, pin, unpin, sha256_hex, key_id_for, check_key, save, add_checked, add,
  remove_checked, remove, is_trusted_name, is_trusted,
}
use m_url.Trust.Pins.{add-is_trusted, remove-is_trusted}

program : Unit {0}
unfolding bytes_eq ends_with_text lowercase contains strip_prefix starts_with ends_with split_once
    split split_by join show show_from digits_value all_indexed is_valid_resource_id is_valid_role
    is_valid_tag chars decode_from feed lead continue hex_val push_escape percent_decode encode_byte
    encode_segment check_chars check_segment decode_segment parse_component parse_components
    parse_version show_version parse_port split_port check_label check_labels is_some_port
    build_authority parse_authority show_authority select_kind parse_item parse_items parse_selector
    show_item check_printable strip_scheme cut_suffix last_segment parse_segments parse_fragment
    check_query slash_segments show_pin identity selector_display show_suffix show_murl
    parse_located parse_rest check_canonical parse hex bytes_lt find_keys replace_keys insert_keys
    remove_keys normalize_authority pin unpin sha256_hex key_id_for check_key save add_checked add
    remove_checked remove is_trusted_name is_trusted
program = tt

-- Functions in place of the libraries: text stands for itself, and a hash is 32 zero bytes.
abbrev plain : Crypto
plain = record {
  encode_b64 = λ s. s;
  decode_b64 = λ s. some s;
  sha256 = λ s. replicate 32 0;
  is_point = λ s. true;
}

abbrev writable : Disk
writable = record { write = λ path m. none }

abbrev empty_store : TrustStore
empty_store = record { path = codes "trust.json"; authorities = [] }

abbrev key : Bytes
key = replicate 32 7

abbrev id : Bytes
id = codes "ed25519:0000000000000000"

check_key_sample : check_key plain (codes "Acme.example") key ≡ ok (codes "acme.example", id)
unfolding program
check_key_sample = refl

normalize_sample : normalize_authority (codes "ACME.example") ≡ ok (codes "acme.example")
unfolding program
normalize_sample = refl

-- What follows a slash is read as a name, and dropped.
normalize_path : normalize_authority (codes "acme.example/team") ≡ ok (codes "acme.example")
unfolding program
normalize_path = refl

abbrev pinned_store : TrustStore
pinned_store = (add plain writable empty_store (codes "Acme.example") key 5).1

add-is_trusted_example : is_trusted pinned_store (codes "ACME.example") id ≡ (
    is_trusted empty_store (codes "ACME.example") id
    || (bytes_eq (codes "acme.example") (codes "acme.example") && bytes_eq id id))
add-is_trusted_example =
    add-is_trusted plain writable empty_store (codes "Acme.example") key (codes "acme.example") id 5
      (codes "ACME.example") (codes "acme.example") id check_key_sample normalize_sample

remove-is_trusted_example :
    is_trusted (remove writable pinned_store (codes "ACME.example") id).1 (codes "ACME.example") id
    ≡ (is_trusted pinned_store (codes "ACME.example") id
        && not (bytes_eq (codes "acme.example") (codes "acme.example") && bytes_eq id id))
remove-is_trusted_example =
    remove-is_trusted writable pinned_store (codes "ACME.example") (codes "acme.example") id
      (codes "ACME.example") (codes "acme.example") id normalize_sample normalize_sample
