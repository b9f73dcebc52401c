-- ===== src/Manifest/Strict.antt =====
-- crates/murl-core/src/json.rs: the strict reader builds a value from what the JSON library reads, and
-- refuses an object that names a member twice.
use m_url.Base.{Bool, true, false, Option, none, some, Result, ok, err, ◌>>=◌, ◌>>◌, refuse_if}
use m_url.Base.Int.{ℤ}
use m_url.Base.Text.{Bytes}
use m_url.Manifest.Json.{
  Value, null, bool, integer, fraction, string, array, object, Items, nil, cons, Members, end,
}
use m_url.Trust.Verify.{get_member, insert_member}

-- What the library's deserializer offers to the visitor: the members stand in the order of the text,
-- as often as they occur. A float that is not finite has no text.
mutual
  pub data Syntax : Type 0 where
    unit : Syntax
    flag : Bool → Syntax
    int : ℤ → Syntax
    float : Option Bytes → Syntax
    text : Bytes → Syntax
    sequence : Elements → Syntax
    map : Entries → Syntax

  pub data Elements : Type 0 where
    last : Elements
    element : Syntax → Elements → Elements

  pub data Entries : Type 0 where
    done : Entries
    entry : Bytes → Syntax → Entries → Entries

pub data JsonFault : Type 0 where
  non_finite : JsonFault
  duplicate_member : Bytes → JsonFault

abbrev pub is_some : Option Value → Bool
is_some none = false
is_some (some v) = true

-- `visit_map` goes on with the map built so far.
unfoldable mutual
  pub visit : Syntax → Result JsonFault Value
  visit unit = ok null
  visit (flag b) = ok (bool b)
  visit (int n) = ok (integer n)
  visit (float none) = err non_finite
  visit (float (some t)) = ok (fraction t)
  visit (text s) = ok (string s)
  visit (sequence es) = do items ← visit_seq es; ok (array items)
  visit (map es) = do members ← visit_map end es; ok (object members)

  pub visit_seq : Elements → Result JsonFault Items
  visit_seq last = ok nil
  visit_seq (element x es) = do v ← visit x; rest ← visit_seq es; ok (cons v rest)

  pub visit_map : Members → Entries → Result JsonFault Members
  visit_map out done = ok out
  visit_map out (entry key x es) = do
    value ← visit x
    refuse_if (is_some (get_member key out)) (duplicate_member key)
    visit_map (insert_member key value out) es
