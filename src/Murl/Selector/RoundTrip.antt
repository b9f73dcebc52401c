-- ===== src/Murl/Selector/RoundTrip.antt =====
-- Selectors: what `parse_selector` returns, and that a printed selector parses to itself.
use m_url.Base.{
  ℕ, ◌≤◌, ◌≡◌, ◌≢◌, refl, Bool, true, false, not, ◌||◌, List, [], ◌∷◌, ◌++◌, map, Option, none,
  some, ok, >>=-eq-ok, refuse_if-eq-ok, ltb, ◌==◌, length, length-map, all, all_mono, all-append,
  All, arith, and_true,
}
use m_url.Base.Text.{Bytes, codes, contains, is_empty, strip_prefix, split, join, Lacks}
use m_url.Base.Text.Equality.{all→Lacks, strip_prefix-append}
use m_url.Base.Text.Pieces.{split-ne-nil, split-join, join-all}
use m_url.Grammar.{
  all_indexed, is_alnum, is_id_byte, is_dash_byte, is_valid_resource_id, is_valid_role,
  is_valid_tag,
}
use m_url.Murl.Types.{
  invalid_selector, empty_fragment, too_many_items, bad_role, bad_tag, bad_id, SelectorItem, id,
  role, tag, max_selector_items,
}
use m_url.Murl.Selector.{select_kind, parse_item, parse_items, parse_selector, show_item}

-- Each item satisfies the grammar of its class.
abbrev pub IsItem : SelectorItem → Type 0
IsItem (id s) = is_valid_resource_id s ≡ true
IsItem (role s) = is_valid_role s ≡ true
IsItem (tag s) = is_valid_tag s ≡ true

-- One to eight such items.
pub record IsSelector (items : List SelectorItem) : Type 0 where
  pub some_item : items ≢ []
  pub few : length items ≤ 8
  pub each : All IsItem items

select_kind-IsItem :
    (part : Bytes) (r t : Option Bytes) (item : SelectorItem)
    → select_kind part r t ≡ ok item
    → IsItem item
unfolding select_kind
select_kind-IsItem part (some s) t item h =
    let (good, h') = refuse_if-eq-ok (not (is_valid_role s)) (invalid_selector bad_role) _ h in
    let e : item ≡ role s = ground arith in rw e (ground arith)
select_kind-IsItem part none (some s) item h =
    let (good, h') = refuse_if-eq-ok (not (is_valid_tag s)) (invalid_selector bad_tag) _ h in
    let e : item ≡ tag s = ground arith in rw e (ground arith)
select_kind-IsItem part none none item h =
    let (good, h') =
      refuse_if-eq-ok (not (is_valid_resource_id part)) (invalid_selector bad_id) _ h in
    let e : item ≡ id part = ground arith in rw e (ground arith)

parse_items-each :
    (ps : List Bytes) (items : List SelectorItem)
    → parse_items ps ≡ ok items
    → (length items ≡ length ps) × All IsItem items
unfolding parse_items parse_item
parse_items-each [] items h = let e : items ≡ [] = ground arith in rw e (refl, tt)
parse_items-each (p ∷ ps) items h =
    let (item, e, h₁) = >>=-eq-ok (parse_item p) _ h in
    let (rest, e', h₂) = >>=-eq-ok (parse_items ps) _ h₁ in
    let (len, each) = parse_items-each ps rest e' in
    let shape : items ≡ item ∷ rest = ground arith in
    rw shape (omega arith, (select_kind-IsItem p _ _ item e, each))

nonempty_of_length :
    (items : List SelectorItem) (ps : List Bytes) → length items ≡ length ps → ps ≢ [] → items ≢ []
nonempty_of_length (i ∷ items) ps e h = cc
nonempty_of_length [] [] e h = absurd (h refl)
nonempty_of_length [] (p ∷ ps) e h = absurd (omega arith)

pub parse_selector-IsSelector :
    (f : Bytes) (items : List SelectorItem) → parse_selector f ≡ ok items → IsSelector items
unfolding parse_selector
parse_selector-IsSelector f items h =
    let (nonempty, h₁) = refuse_if-eq-ok (is_empty f) (invalid_selector empty_fragment) _ h in
    let (few, h₂) =
      refuse_if-eq-ok (ltb max_selector_items (length (split b',' f)))
        (invalid_selector too_many_items) _ h₁ in
    let (len, each) = parse_items-each (split b',' f) items h₂ in
    record {
      some_item = nonempty_of_length items (split b',' f) len (split-ne-nil b',' f);
      few = ground arith;
      each = each;
    }

all_indexed→all :
    (first later : ℕ → Bool)
    → ((c : ℕ) → first c ≡ true → later c ≡ true)
    → (s : Bytes) → all_indexed first later s ≡ true
    → all later s ≡ true
unfolding all_indexed
all_indexed→all first later f [] h = refl
all_indexed→all first later f (c ∷ s) h =
    let (hc, hs) = and_true (first c) (all later s) h in rw (f c hc) hs

-- The alphabet of a printed item.
abbrev pub is_item_byte : ℕ → Bool
is_item_byte c = is_id_byte c || c == b'='

id-bytes : (s : Bytes) → is_valid_resource_id s ≡ true → all is_id_byte s ≡ true
unfolding is_valid_resource_id
id-bytes s h = all_indexed→all is_alnum is_id_byte (λ c h. ground arith) s (ground arith)

role-bytes : (s : Bytes) → is_valid_role s ≡ true → all is_dash_byte s ≡ true
unfolding is_valid_role
role-bytes s h = all_indexed→all is_alnum is_dash_byte (λ c h. ground arith) s (ground arith)

tag-bytes : (s : Bytes) → is_valid_tag s ≡ true → all is_dash_byte s ≡ true
unfolding is_valid_tag
tag-bytes s h = ground arith

dash→item : (s : Bytes) → all is_dash_byte s ≡ true → all is_item_byte s ≡ true
dash→item = all_mono is_dash_byte is_item_byte (λ c h. ground arith)

pub show_item-bytes : (item : SelectorItem) → IsItem item → all is_item_byte (show_item item) ≡ true
unfolding show_item
show_item-bytes (id s) h = all_mono is_id_byte is_item_byte (λ c h. ground arith) s (id-bytes s h)
show_item-bytes (role s) h =
    all-append is_item_byte (codes "role=") s refl (dash→item s (role-bytes s h))
show_item-bytes (tag s) h =
    all-append is_item_byte (codes "tag=") s refl (dash→item s (tag-bytes s h))

-- A text without `=` has no prefix that holds one.
no_prefix : (p s : Bytes) → contains b'=' p ≡ true → Lacks b'=' s → strip_prefix p s ≡ none
unfolding contains strip_prefix
no_prefix [] s hp hs = cc
no_prefix (c ∷ p) [] hp hs = refl
no_prefix (c ∷ p) (d ∷ s) hp (hd, hs) = ground (arith, no_prefix p s)

parse_item-show_item : (item : SelectorItem) → IsItem item → parse_item (show_item item) ≡ ok item
unfolding parse_item show_item select_kind
parse_item-show_item (id s) h =
    let lacks = all→Lacks b'=' is_id_byte refl s (id-bytes s h) in
    rw (no_prefix (codes "role=") s (unfold contains in refl) lacks)
      (rw (no_prefix (codes "tag=") s (unfold contains in refl) lacks) (rw h))
parse_item-show_item (role s) h = rw (strip_prefix-append (codes "role=") s) (rw h)
parse_item-show_item (tag s) h =
    let other : strip_prefix (codes "role=") (codes "tag=" ++ s) ≡ none =
      unfold strip_prefix in refl in
    rw other (rw (strip_prefix-append (codes "tag=") s) (rw h))

parse_items-show :
    (items : List SelectorItem) → All IsItem items → parse_items (map show_item items) ≡ ok items
unfolding parse_items
parse_items-show [] h = refl
parse_items-show (item ∷ items) (hi, h) =
    rw (parse_item-show_item item hi) (rw (parse_items-show items h))

shown-bytes :
    (items : List SelectorItem)
    → All IsItem items
    → All (λ s. all is_item_byte s ≡ true) (map show_item items)
shown-bytes [] h = tt
shown-bytes (item ∷ items) (hi, h) = (show_item-bytes item hi, shown-bytes items h)

shown-Lacks :
    (items : List SelectorItem) → All IsItem items → All (Lacks b',') (map show_item items)
shown-Lacks [] h = tt
shown-Lacks (item ∷ items) (hi, h) = (
  all→Lacks b',' is_item_byte refl (show_item item) (show_item-bytes item hi),
  shown-Lacks items h,
)

show_item-nonempty : (item : SelectorItem) → IsItem item → is_empty (show_item item) ≡ false
unfolding show_item is_valid_resource_id
show_item-nonempty (id s) h = ground arith
show_item-nonempty (role s) h = refl
show_item-nonempty (tag s) h = refl

join-nonempty :
    (p : Bytes) (ps : List Bytes)
    → is_empty p ≡ false
    → is_empty (join (codes ",") (p ∷ ps)) ≡ false
unfolding join
join-nonempty [] ps h = cc
join-nonempty (c ∷ p) [] h = refl
join-nonempty (c ∷ p) (q ∷ ps) h = refl

-- The alphabet of a printed selector.
abbrev pub is_selector_byte : ℕ → Bool
is_selector_byte c = is_item_byte c || c == b','

pub show_selector-bytes :
    (items : List SelectorItem)
    → All IsItem items
    → all is_selector_byte (join (codes ",") (map show_item items)) ≡ true
show_selector-bytes items h =
    join-all is_selector_byte (codes ",") (map show_item items) refl
      (widen (map show_item items) (shown-bytes items h))
  where
    widen :
        (ps : List Bytes)
        → All (λ s. all is_item_byte s ≡ true) ps
        → All (λ s. all is_selector_byte s ≡ true) ps
    widen [] h = tt
    widen (p ∷ ps) (hp, h) =
        (all_mono is_item_byte is_selector_byte (λ c h. ground arith) p hp, widen ps h)

-- A printed selector parses to itself, if it is valid: one to eight items, each a valid id, role
-- or tag.
pub parse_selector-show :
    (items : List SelectorItem)
    → IsSelector items
    → parse_selector (join (codes ",") (map show_item items)) ≡ ok items
unfolding parse_selector
parse_selector-show [] v = absurd (v.some_item refl)
parse_selector-show (item ∷ items) v =
    let each = v.each in
    let few : ltb 8 (length (map show_item (item ∷ items))) ≡ false =
      let k = length-map show_item (item ∷ items) in let small = v.few in ground arith in
    rw (join-nonempty (show_item item) (map show_item items) (show_item-nonempty item each.0)) (
      rw (split-join b',' (show_item item) (map show_item items) (shown-Lacks (item ∷ items) each))
        (rw few (parse_items-show (item ∷ items) each)))
