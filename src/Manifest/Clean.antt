-- ===== src/Manifest/Clean.antt =====
-- Which documents the strict reader accepts.
use m_url.Base.{
  ◌≡◌, ◌↔◌, refl, inl, inr, false, ◌||◌, ok, >>=-eq-ok, refuse_if-eq-ok, none, some, Bool-cases,
  arith,
}
use m_url.Base.Text.{Bytes, bytes_eq}
use m_url.Base.Text.Equality.{bytes_eq→eq}
use m_url.Manifest.Json.{Value, array, object, Items, cons, Members, end, member}
use m_url.Trust.Store.{bytes_lt}
use m_url.Trust.Verify.{get_member, insert_member}
use m_url.Manifest.Strict.{
  Syntax, unit, flag, int, float, text, sequence, map, Elements, last, element, Entries, done,
  entry, duplicate_member, is_some, visit, visit_seq, visit_map,
}

-- No entry has the name.
abbrev pub LacksName : Bytes → Entries → Type 0
LacksName k done = Unit
LacksName k (entry l x es) = (bytes_eq k l ≡ false) × LacksName k es

-- Every float is finite, and no object has two members with one name, at any depth.
unfoldable mutual
  pub IsClean : Syntax → Type 0
  IsClean (float none) = ⊥
  IsClean (sequence es) = AreClean es
  IsClean (map es) = IsDistinct es
  IsClean _ = Unit

  pub AreClean : Elements → Type 0
  AreClean last = Unit
  AreClean (element x es) = IsClean x × AreClean es

  pub IsDistinct : Entries → Type 0
  IsDistinct done = Unit
  IsDistinct (entry k x es) = IsClean x × LacksName k es × IsDistinct es

-- No entry has the name of a member.
abbrev AreNew : Members → Entries → Type 0
AreNew out done = Unit
AreNew out (entry k x es) = (is_some (get_member k out) ≡ false) × AreNew out es

is_some-insert :
    (k l : Bytes) (v : Value) (out : Members)
    → is_some (get_member l (insert_member k v out)) ≡ (bytes_eq k l || is_some (get_member l out))
unfolding get_member insert_member
is_some-insert k l v end = ground arith
is_some-insert k l v (member n w out) = elim (Bool-cases (bytes_eq n k)) [
  | inl e ↦ rw e (rw (bytes_eq→eq n k e) (ground arith))
  | inr e ↦ elim (Bool-cases (bytes_lt k n)) [
    | inl c ↦ rw e (rw c (ground arith))
    | inr c ↦ rw e (rw c (let ih = is_some-insert k l v out in ground arith))
  ]
]

AreNew-insert :
    (k : Bytes) (v : Value) (out : Members) (es : Entries)
    → AreNew (insert_member k v out) es ↔ (LacksName k es × AreNew out es)
AreNew-insert k v out done = ((λ h. (tt, tt)), (λ h. tt))
AreNew-insert k v out (entry l x es) =
    let (to, from) = AreNew-insert k v out es in
    let e = is_some-insert k l v out in
    (
      (λ (h, hs). (let (a, b) = to hs in ((ground arith, a), (ground arith, b)))),
      (λ ((h, hs), (h', hs')). (ground arith, from (hs, hs'))),
    )

mutual
  unfolding visit IsClean

  visit-IsClean : (x : Syntax) (v : Value) → visit x ≡ ok v → IsClean x
  visit-IsClean unit v h = tt
  visit-IsClean (flag b) v h = tt
  visit-IsClean (int n) v h = tt
  visit-IsClean (float none) v h = absurd cc
  visit-IsClean (float (some t)) v h = tt
  visit-IsClean (text s) v h = tt
  visit-IsClean (sequence es) v h =
      let (items, hi, h') = >>=-eq-ok (visit_seq es) _ h in visit_seq-AreClean es items hi
  visit-IsClean (map es) v h =
      let (out, hm, h') = >>=-eq-ok (visit_map end es) _ h in (visit_map-IsDistinct end es out hm).0

  visit_seq-AreClean : (es : Elements) (items : Items) → visit_seq es ≡ ok items → AreClean es
  visit_seq-AreClean last items h = tt
  visit_seq-AreClean (element x es) items h =
      let (v, hv, h₁) = >>=-eq-ok (visit x) _ h in
      let (rest, hr, h₂) = >>=-eq-ok (visit_seq es) _ h₁ in
      (visit-IsClean x v hv, visit_seq-AreClean es rest hr)

  visit_map-IsDistinct :
      (out : Members) (es : Entries) (built : Members)
      → visit_map out es ≡ ok built
      → IsDistinct es × AreNew out es
  visit_map-IsDistinct out done built h = (tt, tt)
  visit_map-IsDistinct out (entry k x es) built h =
      let (v, hv, h₁) = >>=-eq-ok (visit x) _ h in
      let (new, h₂) = refuse_if-eq-ok (is_some (get_member k out)) (duplicate_member k) _ h₁ in
      let (distinct, news) = visit_map-IsDistinct (insert_member k v out) es built h₂ in
      let (lacks, old) = (AreNew-insert k v out es).0 news in
      ((visit-IsClean x v hv, lacks, distinct), (new, old))

AreNew-end : (es : Entries) → AreNew end es
unfolding get_member
AreNew-end done = tt
AreNew-end (entry k x es) = (refl, AreNew-end es)

mutual
  unfolding visit IsClean

  IsClean-visit : (x : Syntax) → IsClean x → (v : Value) × (visit x ≡ ok v)
  IsClean-visit unit c = (_, refl)
  IsClean-visit (flag b) c = (_, refl)
  IsClean-visit (int n) c = (_, refl)
  IsClean-visit (float none) c = absurd c
  IsClean-visit (float (some t)) c = (_, refl)
  IsClean-visit (text s) c = (_, refl)
  IsClean-visit (sequence es) c =
      let (items, e) = AreClean-visit_seq es c in (array items, rw e refl)
  IsClean-visit (map es) c =
      let (out, e) = IsDistinct-visit_map end es c (AreNew-end es) in (object out, rw e refl)

  AreClean-visit_seq : (es : Elements) → AreClean es → (items : Items) × (visit_seq es ≡ ok items)
  AreClean-visit_seq last c = (_, refl)
  AreClean-visit_seq (element x es) (c, cs) =
      let (v, e) = IsClean-visit x c in
      let (rest, es') = AreClean-visit_seq es cs in (cons v rest, rw e (rw es' refl))

  IsDistinct-visit_map :
      (out : Members) (es : Entries)
      → IsDistinct es
      → AreNew out es
      → (built : Members) × (visit_map out es ≡ ok built)
  IsDistinct-visit_map out done d n = (_, refl)
  IsDistinct-visit_map out (entry k x es) (c, lacks, d) (new, n) =
      let (v, e) = IsClean-visit x c in
      let (built, e') =
        IsDistinct-visit_map (insert_member k v out) es d
          ((AreNew-insert k v out es).1 (lacks, n)) in
      (built, rw e (rw new e'))

-- The strict reader accepts a document exactly if every number that is no integer is finite and no
-- object, at any depth, names a member twice.
pub visit-accepts : (x : Syntax) → ((v : Value) × (visit x ≡ ok v)) ↔ IsClean x
visit-accepts x = ((λ (v, h). visit-IsClean x v h), IsClean-visit x)
