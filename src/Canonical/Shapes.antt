-- ===== src/Canonical/Shapes.antt =====
-- The first byte of a value's canonical form tells what kind of value it is.
use m_url.Base.{
  ℕ, ◌≡◌, refl, sym, ◌∙◌, ap, true, false, ◌||◌, [], ◌∷◌, ◌++◌, ok, >>=-eq-ok, ◌==◌, if◌then◌else◌,
  arith,
}
use m_url.Base.Int.{ℤ, pos, negsuc}
use m_url.Base.Text.{Bytes, codes, is_digit}
use m_url.Manifest.Json.{
  Value, null, bool, integer, fraction, string, array, object, Items, Members,
}
use m_url.Canonical.{write_string, write_integer, write_value, write_items, write_members}
use m_url.Canonical.Chars.{show-head}

pub data Shape : Type 0 where
  nulls trues falses numbers strings arrays objects others : Shape

abbrev pub shape_of_byte : ℕ → Shape
shape_of_byte c =
    if c == b'n'
    then nulls
    else if c == b't'
    then trues
    else if c == b'f'
    then falses
    else if c == b'"'
    then strings
    else if c == b'['
    then arrays
    else if c == b'{'
    then objects
    else if is_digit c || c == b'-'
    then numbers
    else others

abbrev pub shape_of_text : Bytes → Shape
shape_of_text [] = others
shape_of_text (c ∷ s) = shape_of_byte c

abbrev pub shape_of : Value → Shape
shape_of null = nulls
shape_of (bool true) = trues
shape_of (bool false) = falses
shape_of (integer n) = numbers
shape_of (fraction s) = others
shape_of (string s) = strings
shape_of (array items) = arrays
shape_of (object map) = objects

write_integer-shape : (n : ℤ) (x : Bytes) → shape_of_text (write_integer n ++ x) ≡ numbers
unfolding write_integer
write_integer-shape (pos n) x = let (c, s, e, digit) = show-head n in rw e (ground arith)
write_integer-shape (negsuc n) x = refl

pub write_value-shape :
    (v : Value) (a x : Bytes) → write_value v ≡ ok a → shape_of_text (a ++ x) ≡ shape_of v
unfolding write_value write_string
write_value-shape null a x h = let e : codes "null" ≡ a = cc in rw (sym e) refl
write_value-shape (bool true) a x h = let e : codes "true" ≡ a = cc in rw (sym e) refl
write_value-shape (bool false) a x h = let e : codes "false" ≡ a = cc in rw (sym e) refl
write_value-shape (integer n) a x h =
    let e : write_integer n ≡ a = cc in rw (sym e) (write_integer-shape n x)
write_value-shape (fraction text) a x h = absurd cc
write_value-shape (string s) a x h = let e : write_string s ≡ a = cc in rw (sym e) refl
write_value-shape (array items) a x h =
    let (body, hb, h') = >>=-eq-ok (write_items true items) _ h in
    let e : b'[' ∷ (body ++ b']' ∷ []) ≡ a = cc in rw (sym e) refl
write_value-shape (object map) a x h =
    let (body, hb, h') = >>=-eq-ok (write_members true map) _ h in
    let e : b'{' ∷ (body ++ b'}' ∷ []) ≡ a = cc in rw (sym e) refl

-- Two values with the same text have the same shape.
pub write_value-same_shape :
    (v w : Value) (a b x y : Bytes)
    → write_value v ≡ ok a
    → write_value w ≡ ok b
    → a ++ x ≡ b ++ y
    → shape_of v ≡ shape_of w
write_value-same_shape v w a b x y hv hw h =
    sym (write_value-shape v a x hv) ∙ (ap shape_of_text h ∙ write_value-shape w b y hw)

pub shape-nulls : (w : Value) → nulls ≡ shape_of w → w ≡ null
shape-nulls null h = refl
shape-nulls (bool true) h = absurd cc
shape-nulls (bool false) h = absurd cc
shape-nulls (integer n) h = absurd cc
shape-nulls (fraction s) h = absurd cc
shape-nulls (string s) h = absurd cc
shape-nulls (array items) h = absurd cc
shape-nulls (object map) h = absurd cc

pub shape-trues : (w : Value) → trues ≡ shape_of w → w ≡ bool true
shape-trues null h = absurd cc
shape-trues (bool true) h = refl
shape-trues (bool false) h = absurd cc
shape-trues (integer n) h = absurd cc
shape-trues (fraction s) h = absurd cc
shape-trues (string s) h = absurd cc
shape-trues (array items) h = absurd cc
shape-trues (object map) h = absurd cc

pub shape-falses : (w : Value) → falses ≡ shape_of w → w ≡ bool false
shape-falses null h = absurd cc
shape-falses (bool true) h = absurd cc
shape-falses (bool false) h = refl
shape-falses (integer n) h = absurd cc
shape-falses (fraction s) h = absurd cc
shape-falses (string s) h = absurd cc
shape-falses (array items) h = absurd cc
shape-falses (object map) h = absurd cc

pub shape-numbers : (w : Value) → numbers ≡ shape_of w → (n : ℤ) × (w ≡ integer n)
shape-numbers null h = absurd cc
shape-numbers (bool true) h = absurd cc
shape-numbers (bool false) h = absurd cc
shape-numbers (integer n) h = (n, refl)
shape-numbers (fraction s) h = absurd cc
shape-numbers (string s) h = absurd cc
shape-numbers (array items) h = absurd cc
shape-numbers (object map) h = absurd cc

pub shape-strings : (w : Value) → strings ≡ shape_of w → (s : Bytes) × (w ≡ string s)
shape-strings null h = absurd cc
shape-strings (bool true) h = absurd cc
shape-strings (bool false) h = absurd cc
shape-strings (integer n) h = absurd cc
shape-strings (fraction s) h = absurd cc
shape-strings (string s) h = (s, refl)
shape-strings (array items) h = absurd cc
shape-strings (object map) h = absurd cc

pub shape-arrays : (w : Value) → arrays ≡ shape_of w → (items : Items) × (w ≡ array items)
shape-arrays null h = absurd cc
shape-arrays (bool true) h = absurd cc
shape-arrays (bool false) h = absurd cc
shape-arrays (integer n) h = absurd cc
shape-arrays (fraction s) h = absurd cc
shape-arrays (string s) h = absurd cc
shape-arrays (array items) h = (items, refl)
shape-arrays (object map) h = absurd cc

pub shape-objects : (w : Value) → objects ≡ shape_of w → (map : Members) × (w ≡ object map)
shape-objects null h = absurd cc
shape-objects (bool true) h = absurd cc
shape-objects (bool false) h = absurd cc
shape-objects (integer n) h = absurd cc
shape-objects (fraction s) h = absurd cc
shape-objects (string s) h = absurd cc
shape-objects (array items) h = absurd cc
shape-objects (object map) h = (map, refl)
