-- ===== src/Murl/Selector.antt =====
-- crates/murl-core/src/murl.rs: `parse_selector` and the `Display` of `SelectorItem`.
pub mod RoundTrip
use m_url.Base.{
  ℕ, Bool, true, false, not, List, [], ◌∷◌, ◌++◌, Option, none, some, Result, ok, err, ◌>>=◌, ◌>>◌,
  refuse_if, ltb, length,
}
use m_url.Base.Text.{Bytes, codes, is_empty, strip_prefix, split}
use m_url.Grammar.{is_valid_resource_id, is_valid_role, is_valid_tag}
use m_url.Murl.Types.{
  MurlParseError, invalid_selector, empty_fragment, too_many_items, bad_role, bad_tag, bad_id,
  SelectorItem, id, role, tag, max_selector_items,
}

-- The `if let … else if let … else` over the two prefixes.
unfoldable pub select_kind :
    Bytes → Option Bytes → Option Bytes → Result MurlParseError SelectorItem
select_kind part (some r) as_tag = do
  refuse_if (not (is_valid_role r)) (invalid_selector bad_role)
  ok (role r)
select_kind part none (some t) = do
  refuse_if (not (is_valid_tag t)) (invalid_selector bad_tag)
  ok (tag t)
select_kind part none none = do
  refuse_if (not (is_valid_resource_id part)) (invalid_selector bad_id)
  ok (id part)

unfoldable pub parse_item : Bytes → Result MurlParseError SelectorItem
parse_item part =
    select_kind part (strip_prefix (codes "role=") part) (strip_prefix (codes "tag=") part)

unfoldable pub parse_items : List Bytes → Result MurlParseError (List SelectorItem)
parse_items [] = ok []
parse_items (p ∷ ps) = do item ← parse_item p; items ← parse_items ps; ok (item ∷ items)

unfoldable pub parse_selector : Bytes → Result MurlParseError (List SelectorItem)
parse_selector f = do
  refuse_if (is_empty f) (invalid_selector empty_fragment)
  let parts = split b',' f
  refuse_if (ltb max_selector_items (length parts)) (invalid_selector too_many_items)
  parse_items parts

unfoldable pub show_item : SelectorItem → Bytes
show_item (id s) = s
show_item (role s) = codes "role=" ++ s
show_item (tag s) = codes "tag=" ++ s
