-- ===== src/Canonical/Unique.antt =====
-- The canonical form of a JSON document tells the document.
use mathlib.Core.List.{append_cancel_left}
use m_url.Base.{
  ℕ, ◌≡◌, ◌≢◌, refl, sym, ◌∙◌, ap, Bool, true, false, [], ◌∷◌, ◌++◌, append_assoc, Result, ok,
  >>=-eq-ok,
}
use m_url.Base.Text.{Bytes}
use m_url.Base.Text.Cut.{Stops}
use m_url.Manifest.Json.{
  Value, null, bool, integer, fraction, string, array, object, Items, nil, cons, Members, end,
  member,
}
use m_url.Canonical.{
  CanonicalError, separator, write_string, write_value, write_items, write_members,
  canonical_json_bytes,
}
use m_url.Canonical.Chars.{is_stop, write_string_unique, write_integer_unique}
use m_url.Canonical.Shapes.{
  strings, others, shape_of_text, shape_of, write_value-shape, write_value-same_shape, shape-nulls,
  shape-trues, shape-falses, shape-numbers, shape-strings, shape-arrays, shape-objects,
}

-- What follows a value inside an array or an object is no digit.
write_items-Stops :
    (items : Items) (r x : Bytes) (c : ℕ)
    → is_stop c ≡ true
    → write_items false items ≡ ok r
    → Stops is_stop (r ++ c ∷ x)
unfolding write_items
write_items-Stops nil r x c hc h = let e : [] ≡ r = cc in rw (sym e) hc
write_items-Stops (cons v items) r x c hc h =
    let (here, hh, h₁) = >>=-eq-ok (write_value v) _ h in
    let (rest, hr, h₂) = >>=-eq-ok (write_items false items) _ h₁ in
    let e : b',' ∷ (here ++ rest) ≡ r = cc in rw (sym e) refl

write_members-Stops :
    (map : Members) (r x : Bytes) (c : ℕ)
    → is_stop c ≡ true
    → write_members false map ≡ ok r
    → Stops is_stop (r ++ c ∷ x)
unfolding write_members
write_members-Stops end r x c hc h = let e : [] ≡ r = cc in rw (sym e) hc
write_members-Stops (member k v map) r x c hc h =
    let (here, hh, h₁) = >>=-eq-ok (write_value v) _ h in
    let (rest, hr, h₂) = >>=-eq-ok (write_members false map) _ h₁ in
    let e : b',' ∷ (write_string k ++ (b':' ∷ (here ++ rest))) ≡ r = cc in rw (sym e) refl

-- The parts of what is written for an item and for a member.
write_items-cons :
    (first : Bool) (v : Value) (items : Items) (a x : Bytes)
    → write_items first (cons v items) ≡ ok a
    → (here rest : Bytes) × (write_value v ≡ ok here)
      × (write_items false items ≡ ok rest)
      × (a ++ x ≡ separator first ++ (here ++ (rest ++ x)))
unfolding write_items
write_items-cons first v items a x h =
    let (here, hh, h₁) = >>=-eq-ok (write_value v) _ h in
    let (rest, hr, h₂) = >>=-eq-ok (write_items false items) _ h₁ in
    let e : separator first ++ (here ++ rest) ≡ a = cc in
    (
      here,
      rest,
      hh,
      hr,
      rw (sym e) (
          append_assoc (separator first) (here ++ rest) x
          ∙ ap (λ s. separator first ++ s) (append_assoc here rest x)),
    )

write_members-member :
    (first : Bool) (k : Bytes) (v : Value) (map : Members) (a x : Bytes)
    → write_members first (member k v map) ≡ ok a
    → (here rest : Bytes) × (write_value v ≡ ok here)
      × (write_members false map ≡ ok rest)
      × (a ++ x ≡ separator first ++ (write_string k ++ b':' ∷ (here ++ (rest ++ x))))
unfolding write_members
write_members-member first k v map a x h =
    let (here, hh, h₁) = >>=-eq-ok (write_value v) _ h in
    let (rest, hr, h₂) = >>=-eq-ok (write_members false map) _ h₁ in
    let e : separator first ++ (write_string k ++ (b':' ∷ (here ++ rest))) ≡ a = cc in
    (
      here,
      rest,
      hh,
      hr,
      rw (sym e) (
          append_assoc (separator first) (write_string k ++ b':' ∷ (here ++ rest)) x
          ∙ ap (λ s. separator first ++ s)
              (append_assoc (write_string k) (b':' ∷ (here ++ rest)) x
                ∙ ap (λ s. write_string k ++ b':' ∷ s) (append_assoc here rest x))),
    )

-- A value that is written starts with a byte that starts a value.
written-others : (v : Value) (a : Bytes) → write_value v ≡ ok a → shape_of v ≢ others
unfolding write_value
written-others null a h e = cc
written-others (bool true) a h e = cc
written-others (bool false) a h e = cc
written-others (integer n) a h e = cc
written-others (fraction s) a h e = absurd (let h' = h in cc)
written-others (string s) a h e = cc
written-others (array items) a h e = cc
written-others (object map) a h e = cc

-- An end is no item and no member.
item-no_end :
    (first : Bool) (v : Value) (items : Items) (a x y : Bytes)
    → write_items first (cons v items) ≡ ok a
    → a ++ x ≢ b']' ∷ y
item-no_end true v items a x y h e =
    let (here, rest, hh, hr, parts) = write_items-cons true v items a x h in
    written-others v here hh
      (sym (write_value-shape v here (rest ++ x) hh) ∙ ap shape_of_text (sym parts ∙ e))
item-no_end false v items a x y h e =
    let (here, rest, hh, hr, parts) = write_items-cons false v items a x h in
    absurd (comma (sym parts ∙ e))
  where
    comma : {s t : Bytes} → b',' ∷ s ≢ b']' ∷ t
    comma e = cc

member_start : (first : Bool) (k s t : Bytes) → separator first ++ (write_string k ++ s) ≢ b'}' ∷ t
unfolding write_string
member_start true k s t e = let shapes : strings ≡ others = ap shape_of_text e in cc
member_start false k s t e = absurd (comma e)
  where
    comma : {s t : Bytes} → b',' ∷ s ≢ b'}' ∷ t
    comma e = cc

member-no_end :
    (first : Bool) (k : Bytes) (v : Value) (map : Members) (a x y : Bytes)
    → write_members first (member k v map) ≡ ok a
    → a ++ x ≢ b'}' ∷ y
member-no_end first k v map a x y h e =
    let (here, rest, hh, hr, parts) = write_members-member first k v map a x h in
    member_start first k (b':' ∷ (here ++ (rest ++ x))) y (sym parts ∙ e)

ok_eq : {a b : Bytes} → ◌≡◌ {A = Result CanonicalError Bytes} (ok a) (ok b) → a ≡ b
ok_eq e = cc

same_text : (a b x y : Bytes) → a ≡ b → a ++ x ≡ b ++ y → x ≡ y
same_text a b x y e h = append_cancel_left b x y (rw e at h)

strip : {c : ℕ} {s t : Bytes} → c ∷ s ≡ c ∷ t → s ≡ t
strip e = cc

-- Between the brackets.
inside :
    (l r : ℕ) (p q x y : Bytes) {a b : Bytes}
    → l ∷ (p ++ r ∷ []) ≡ a
    → l ∷ (q ++ r ∷ []) ≡ b
    → a ++ x ≡ b ++ y
    → p ++ r ∷ x ≡ q ++ r ∷ y
inside l r p q x y ea eb h =
    sym (append_assoc p (r ∷ []) x)
    ∙ (strip (ap (λ s. s ++ x) ea ∙ (h ∙ ap (λ s. s ++ y) (sym eb))) ∙ append_assoc q (r ∷ []) y)

mutual
  unfolding write_value write_items write_members

  value_unique :
      (v w : Value) (a b x y : Bytes)
      → write_value v ≡ ok a
      → write_value w ≡ ok b
      → Stops is_stop x
      → Stops is_stop y
      → a ++ x ≡ b ++ y
      → (v ≡ w) × (x ≡ y)
  value_unique null w a b x y hv hw hx hy h =
      let e = shape-nulls w (write_value-same_shape null w a b x y hv hw h) in
      (sym e, same_text a b x y (ok_eq (sym hv ∙ rw e at hw)) h)
  value_unique (bool true) w a b x y hv hw hx hy h =
      let e = shape-trues w (write_value-same_shape (bool true) w a b x y hv hw h) in
      (sym e, same_text a b x y (ok_eq (sym hv ∙ rw e at hw)) h)
  value_unique (bool false) w a b x y hv hw hx hy h =
      let e = shape-falses w (write_value-same_shape (bool false) w a b x y hv hw h) in
      (sym e, same_text a b x y (ok_eq (sym hv ∙ rw e at hw)) h)
  value_unique (integer m) w a b x y hv hw hx hy h =
      let (n, e) = shape-numbers w (write_value-same_shape (integer m) w a b x y hv hw h) in
      let hw' : write_value (integer n) ≡ ok b = rw e at hw in
      let (en, ex) = write_integer_unique m n x y hx hy (rw (ok_eq hv) (rw (ok_eq hw') h)) in
      (rw e (rw en refl), ex)
  value_unique (fraction s) w a b x y hv hw hx hy h = absurd cc
  value_unique (string s) w a b x y hv hw hx hy h =
      let (t, e) = shape-strings w (write_value-same_shape (string s) w a b x y hv hw h) in
      let hw' : write_value (string t) ≡ ok b = rw e at hw in
      let (et, ex) = write_string_unique s t x y (rw (ok_eq hv) (rw (ok_eq hw') h)) in
      (rw e (rw et refl), ex)
  value_unique (array items) w a b x y hv hw hx hy h =
      let (items', e) = shape-arrays w (write_value-same_shape (array items) w a b x y hv hw h) in
      let (p, hp, ha) = >>=-eq-ok (write_items true items) _ hv in
      let (q, hq, hb) = >>=-eq-ok (write_items true items') _ (rw e at hw) in
      let (es, ex) =
        items_unique true items items' p q x y hp hq
          (inside b'[' b']' p q x y (ok_eq ha) (ok_eq hb) h) in
      (rw e (rw es refl), ex)
  value_unique (object map) w a b x y hv hw hx hy h =
      let (map', e) = shape-objects w (write_value-same_shape (object map) w a b x y hv hw h) in
      let (p, hp, ha) = >>=-eq-ok (write_members true map) _ hv in
      let (q, hq, hb) = >>=-eq-ok (write_members true map') _ (rw e at hw) in
      let (es, ex) =
        members_unique true map map' p q x y hp hq
          (inside b'{' b'}' p q x y (ok_eq ha) (ok_eq hb) h) in
      (rw e (rw es refl), ex)

  items_unique :
      (first : Bool) (items items' : Items) (a b x y : Bytes)
      → write_items first items ≡ ok a
      → write_items first items' ≡ ok b
      → a ++ b']' ∷ x ≡ b ++ b']' ∷ y
      → (items ≡ items') × (x ≡ y)
  items_unique first nil nil a b x y hi ho h =
      (refl, strip (rw (sym (ok_eq hi)) at (rw (sym (ok_eq ho)) at h)))
  items_unique first nil (cons w items') a b x y hi ho h =
      absurd (item-no_end first w items' b (b']' ∷ y) x ho (sym (rw (sym (ok_eq hi)) at h)))
  items_unique first (cons v items) nil a b x y hi ho h =
      absurd (item-no_end first v items a (b']' ∷ x) y hi (rw (sym (ok_eq ho)) at h))
  items_unique first (cons v items) (cons w items') a b x y hi ho h =
      let (here, rest, hh, hr, parts) = write_items-cons first v items a (b']' ∷ x) hi in
      let (here', rest', hh', hr', parts') = write_items-cons first w items' b (b']' ∷ y) ho in
      let (e, ex) =
        value_unique v w here here' (rest ++ b']' ∷ x) (rest' ++ b']' ∷ y) hh hh'
          (write_items-Stops items rest x b']' refl hr)
          (write_items-Stops items' rest' y b']' refl hr')
          (append_cancel_left (separator first) _ _ (sym parts ∙ (h ∙ parts'))) in
      let (es, ey) = items_unique false items items' rest rest' x y hr hr' ex in
      (rw e (rw es refl), ey)

  members_unique :
      (first : Bool) (map map' : Members) (a b x y : Bytes)
      → write_members first map ≡ ok a
      → write_members first map' ≡ ok b
      → a ++ b'}' ∷ x ≡ b ++ b'}' ∷ y
      → (map ≡ map') × (x ≡ y)
  members_unique first end end a b x y hi ho h =
      (refl, strip (rw (sym (ok_eq hi)) at (rw (sym (ok_eq ho)) at h)))
  members_unique first end (member l w map') a b x y hi ho h =
      absurd (member-no_end first l w map' b (b'}' ∷ y) x ho (sym (rw (sym (ok_eq hi)) at h)))
  members_unique first (member k v map) end a b x y hi ho h =
      absurd (member-no_end first k v map a (b'}' ∷ x) y hi (rw (sym (ok_eq ho)) at h))
  members_unique first (member k v map) (member l w map') a b x y hi ho h =
      let (here, rest, hh, hr, parts) = write_members-member first k v map a (b'}' ∷ x) hi in
      let (here', rest', hh', hr', parts') = write_members-member first l w map' b (b'}' ∷ y) ho in
      let (ek, tail) =
        write_string_unique k l _ _
          (append_cancel_left (separator first) _ _ (sym parts ∙ (h ∙ parts'))) in
      let (e, ex) =
        value_unique v w here here' (rest ++ b'}' ∷ x) (rest' ++ b'}' ∷ y) hh hh'
          (write_members-Stops map rest x b'}' refl hr)
          (write_members-Stops map' rest' y b'}' refl hr') (strip tail) in
      let (es, ey) = members_unique false map map' rest rest' x y hr hr' ex in
      (rw ek (rw e (rw es refl)), ey)

-- Two documents with the same canonical bytes are the same document: what a signature covers
-- determines the manifest.
pub canonical_json_bytes-injective :
    (v w : Value) (bytes : Bytes)
    → canonical_json_bytes v ≡ ok bytes
    → canonical_json_bytes w ≡ ok bytes
    → v ≡ w
unfolding canonical_json_bytes
canonical_json_bytes-injective v w bytes hv hw =
    (value_unique v w bytes bytes [] [] hv hw tt tt refl).0
