-- ===== src/Grammar.antt =====
-- crates/murl-core/src/grammar.rs: the identifier classes that the mURL parser and the manifest
-- validator share.
use m_url.Base.{ℕ, Bool, true, not, ◌&&◌, ◌||◌, [], ◌∷◌, ◌==◌, leb, length, all}
use m_url.Base.Text.{Bytes, is_lower, is_digit, is_empty}

-- `s.bytes().enumerate().all(|(i, b)| if i == 0 { first(b) } else { later(b) })`
unfoldable pub all_indexed : (ℕ → Bool) → (ℕ → Bool) → Bytes → Bool
all_indexed first later [] = true
all_indexed first later (b ∷ s) = first b && all later s

abbrev pub is_alnum : ℕ → Bool
is_alnum b = is_lower b || is_digit b

abbrev pub is_id_byte : ℕ → Bool
is_id_byte b = is_alnum b || b == b'-' || b == b'_'

abbrev pub is_dash_byte : ℕ → Bool
is_dash_byte b = is_alnum b || b == b'-'

unfoldable pub is_valid_resource_id : Bytes → Bool
is_valid_resource_id s = not (is_empty s) && leb (length s) 64 && all_indexed is_alnum is_id_byte s

unfoldable pub is_valid_role : Bytes → Bool
is_valid_role s = not (is_empty s) && leb (length s) 32 && all_indexed is_alnum is_dash_byte s

unfoldable pub is_valid_tag : Bytes → Bool
is_valid_tag s = not (is_empty s) && leb (length s) 32 && all is_dash_byte s
