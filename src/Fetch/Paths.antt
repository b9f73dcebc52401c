-- ===== src/Fetch/Paths.antt =====
-- The path of a manifest in the local store: its components are portable file names, and tell names apart.
use mathlib.Core.List.{append_cancel_right}
use m_url.Base.{
  ℕ, ◌⊎◌, ◌↔◌, ◌≤◌, ◌≡◌, ◌≢◌, refl, sym, ◌∙◌, ap, inl, inr, Bool, true, false, List, [], ◌∷◌, ◌++◌,
  append_assoc, Result, ok, Bool-cases, ◌==◌, ==_iff, All, All-append, All-mono, all, length,
  length-append, arith,
}
use m_url.Base.Text.{Bytes, codes, bytes_eq, is_empty}
use m_url.Base.Text.Cut.{Stops, Runs, cut}
use m_url.Murl.Types.{Murl, MurlParseError, VersionTag, latest, pinned}
use m_url.Murl.Percent.{percent_decode}
use m_url.Murl.Percent.Segments.{IsSegment}
use m_url.Murl.Version.{show_version, parse_version}
use m_url.Murl.Version.RoundTrip.{
  IsVersion, is_version_byte, show_version-bytes, parse_version-show_version,
}
use m_url.Murl.Parse.{parse, show_pin}
use m_url.Murl.Parse.Valid.{parse-IsMurl}
use m_url.Fetch.{
  manifest_suffix, sanitize_component, path_components, push_components, manifest_path,
}
use m_url.Fetch.Names.{
  is_file_byte, sanitize_component-injective, sanitize_component-bytes, sanitize_component-nonempty,
  sanitize_component-of,
}

abbrev is_mark : ℕ → ℕ → Bool
is_mark mark c = c == mark

file_byte→free :
    (mark : ℕ)
    → is_file_byte mark ≡ false
    → (s : Bytes) → All (λ c. is_file_byte c ≡ true) s
    → Runs (is_mark mark) s
file_byte→free mark h = All-mono (λ c. is_file_byte c ≡ true) (λ c. is_mark mark c ≡ false) not_mark
  where
    not_mark : (c : ℕ) → is_file_byte c ≡ true → is_mark mark c ≡ false
    not_mark c good = elim (Bool-cases (c == mark)) [
      | inl e ↦ absurd (let bad = rw ((==_iff c mark).0 e) at good in cc)
      | inr e ↦ e
    ]

-- The last component.
abbrev last_component : Bytes → VersionTag → Bytes
last_component seg version = sanitize_component seg ++ (show_pin version ++ manifest_suffix)

show_pin-Stops : (v : VersionTag) → Stops (is_mark b'@') (show_pin v)
unfolding show_pin
show_pin-Stops latest = tt
show_pin-Stops (pinned ns) = refl

show_pin-injective :
    (v w : VersionTag) → IsVersion v → IsVersion w → show_pin v ≡ show_pin w → v ≡ w
unfolding show_pin
show_pin-injective latest latest hv hw h = refl
show_pin-injective latest (pinned ns) hv hw h = absurd cc
show_pin-injective (pinned ms) latest hv hw h = absurd cc
show_pin-injective (pinned ms) (pinned ns) hv hw h =
    let t : show_version (pinned ms) ≡ show_version (pinned ns) = cc in
    let same : ◌≡◌ {A = Result MurlParseError VersionTag} (ok (pinned ms)) (ok (pinned ns)) =
      sym (parse_version-show_version (pinned ms) hv)
      ∙ (ap parse_version t ∙ parse_version-show_version (pinned ns) hw) in
    cc

last_component-injective :
    (s t : Bytes) (v w : VersionTag)
    → IsSegment s
    → IsSegment t
    → IsVersion v
    → IsVersion w
    → last_component s v ≡ last_component t w
    → (s ≡ t) × (v ≡ w)
last_component-injective s t v w hs ht hv hw h =
    let whole : sanitize_component s ++ show_pin v ≡ sanitize_component t ++ show_pin w =
      append_cancel_right (sanitize_component s ++ show_pin v) (sanitize_component t ++ show_pin w)
        manifest_suffix
        (append_assoc (sanitize_component s) (show_pin v) manifest_suffix
          ∙ (h ∙ sym (append_assoc (sanitize_component t) (show_pin w) manifest_suffix))) in
    let (e, pin) =
      cut (is_mark b'@') (sanitize_component s) (sanitize_component t) (show_pin v) (show_pin w)
        (file_byte→free b'@' refl (sanitize_component s) (sanitize_component-bytes s hs.bytes))
        (file_byte→free b'@' refl (sanitize_component t) (sanitize_component-bytes t ht.bytes))
        (show_pin-Stops v) (show_pin-Stops w) whole in
    (sanitize_component-injective s t hs.bytes ht.bytes e, show_pin-injective v w hv hw pin)

path_components-ne_nil :
    (v : VersionTag) (s : Bytes) (names : List Bytes) → path_components v (s ∷ names) ≢ []
unfolding path_components
path_components-ne_nil v s [] h = cc
path_components-ne_nil v s (t ∷ names) h = cc

path_components-injective :
    (v w : VersionTag) (names others : List Bytes)
    → names ≢ []
    → others ≢ []
    → All IsSegment names
    → All IsSegment others
    → IsVersion v
    → IsVersion w
    → path_components v names ≡ path_components w others
    → (names ≡ others) × (v ≡ w)
unfolding path_components
path_components-injective v w [] others n o hs ht hv hw h = absurd (n refl)
path_components-injective v w (s ∷ names) [] n o hs ht hv hw h = absurd (o refl)
path_components-injective v w (s ∷ []) (t ∷ []) n o (hs, _) (ht, _) hv hw h =
    let (e, ev) = last_component-injective s t v w hs ht hv hw cc in (rw e refl, ev)
path_components-injective v w (s ∷ []) (t ∷ t' ∷ others) n o hs ht hv hw h =
    let e : [] ≡ path_components w (t' ∷ others) = cc in
    absurd (path_components-ne_nil w t' others (sym e))
path_components-injective v w (s ∷ s' ∷ names) (t ∷ []) n o hs ht hv hw h =
    let e : path_components v (s' ∷ names) ≡ [] = cc in absurd (path_components-ne_nil v s' names e)
path_components-injective v w (s ∷ s' ∷ names) (t ∷ t' ∷ others) n o (hs, hss) (ht, hts) hv hw h =
    let first : sanitize_component s ≡ sanitize_component t = cc in
    let rest : path_components v (s' ∷ names) ≡ path_components w (t' ∷ others) = cc in
    let (e, ev) =
      path_components-injective v w (s' ∷ names) (t' ∷ others) (λ x. cc) (λ x. cc) hss hts hv hw
        rest in
    (rw (sanitize_component-injective s t hs.bytes ht.bytes first) (rw e refl), ev)

-- A digit, a letter of ASCII or one of `.`, `_`, `-`, `%` and `@`.
abbrev pub IsPortableByte : ℕ → Type 0
IsPortableByte b =
    ((0x30 ≤ b) × (b ≤ 0x39))
    ⊎ ((0x41 ≤ b) × (b ≤ 0x5a))
    ⊎ ((0x61 ≤ b) × (b ≤ 0x7a))
    ⊎ (b ≡ b'.')
    ⊎ (b ≡ b'_')
    ⊎ (b ≡ b'-')
    ⊎ (b ≡ b'%')
    ⊎ (b ≡ b'@')

-- A path component of such bytes, which is not empty and no dot segment.
pub record IsPortable (s : Bytes) : Type 0 where
  pub some_byte : s ≢ []
  pub not_dot : s ≢ codes "."
  pub not_dots : s ≢ codes ".."
  pub plain : All IsPortableByte s

-- What pushing the components in turn gives.
abbrev pub push_all : (Bytes → Bytes → Bytes) → List Bytes → Bytes → Bytes
push_all push [] path = path
push_all push (c ∷ cs) path = push_all push cs (push path c)

push_components-push_all :
    (push : Bytes → Bytes → Bytes) (root : Bytes) (cs : List Bytes)
    → push_components push root cs ≡ push_all push cs root
unfolding push_components
push_components-push_all push root [] = refl
push_components-push_all push root (c ∷ cs) = push_components-push_all push (push root c) cs

length-path_components :
    (v : VersionTag) (names : List Bytes) → length (path_components v names) ≡ length names
unfolding path_components
length-path_components v [] = refl
length-path_components v (s ∷ []) = refl
length-path_components v (s ∷ t ∷ names) = rw (length-path_components v (t ∷ names)) refl

file_byte→IsPortableByte : (c : ℕ) → is_file_byte c ≡ true → IsPortableByte c
file_byte→IsPortableByte c h = ground arith

pin_byte→IsPortableByte : (c : ℕ) → is_version_byte c ≡ true → IsPortableByte c
pin_byte→IsPortableByte c h = ground arith

all→All : (s : Bytes) → all is_version_byte s ≡ true → All IsPortableByte s
all→All [] h = tt
all→All (c ∷ s) h = (pin_byte→IsPortableByte c (ground arith), all→All s (ground arith))

show_pin-IsPortableByte : (v : VersionTag) → All IsPortableByte (show_pin v)
unfolding show_pin
show_pin-IsPortableByte latest = tt
show_pin-IsPortableByte (pinned ns) =
    (ground arith, all→All (show_version (pinned ns)) (show_version-bytes ns))

sanitize_component-IsPortableByte :
    (s : Bytes) → IsSegment s → All IsPortableByte (sanitize_component s)
sanitize_component-IsPortableByte s h =
    All-mono (λ c. is_file_byte c ≡ true) IsPortableByte file_byte→IsPortableByte
      (sanitize_component s) (sanitize_component-bytes s h.bytes)

suffix-IsPortableByte : All IsPortableByte manifest_suffix
suffix-IsPortableByte =
    All-mono (λ c. is_file_byte c ≡ true) IsPortableByte file_byte→IsPortableByte manifest_suffix
      (refl, (refl, (refl, (refl, (refl, (refl, (refl, (refl, (refl, (refl, tt))))))))))

nonempty→ne_nil : (s : Bytes) → is_empty s ≡ false → s ≢ []
nonempty→ne_nil s h e = absurd (let h' = rw e at h in cc)

sanitize_component-IsPortable : (s : Bytes) → IsSegment s → IsPortable (sanitize_component s)
unfolding bytes_eq percent_decode
sanitize_component-IsPortable s h = record {
  some_byte = nonempty→ne_nil (sanitize_component s) (sanitize_component-nonempty s h.nonempty);
  not_dot = λ e.
      (let not_dot = rw (sanitize_component-of s (codes ".") h.bytes refl e) at h.not_dot in cc);
  not_dots = λ e.
      (let not_dots = rw (sanitize_component-of s (codes "..") h.bytes refl e) at h.not_dots in cc);
  plain = sanitize_component-IsPortableByte s h;
}

long→IsPortable : (s : Bytes) → 3 ≤ length s → All IsPortableByte s → IsPortable s
long→IsPortable [] long h = absurd (omega arith)
long→IsPortable (a ∷ []) long h = absurd (omega arith)
long→IsPortable (a ∷ b ∷ []) long h = absurd (omega arith)
long→IsPortable (a ∷ b ∷ c ∷ s) long h = record {
  some_byte = λ e. cc;
  not_dot = λ e. cc;
  not_dots = λ e. cc;
  plain = h;
}

last_component-IsPortable :
    (s : Bytes) (v : VersionTag) → IsSegment s → IsPortable (last_component s v)
last_component-IsPortable s v h =
    long→IsPortable (last_component s v)
      (let whole = length-append (sanitize_component s) (show_pin v ++ manifest_suffix) in
        let end = length-append (show_pin v) manifest_suffix in omega arith)
      (All-append IsPortableByte (sanitize_component s) (show_pin v ++ manifest_suffix)
        (sanitize_component-IsPortableByte s h)
        (All-append IsPortableByte (show_pin v) manifest_suffix (show_pin-IsPortableByte v)
          suffix-IsPortableByte))

path_components-IsPortable :
    (v : VersionTag) (names : List Bytes)
    → All IsSegment names
    → All IsPortable (path_components v names)
unfolding path_components
path_components-IsPortable v [] h = tt
path_components-IsPortable v (s ∷ []) (hs, h) = (last_component-IsPortable s v hs, tt)
path_components-IsPortable v (s ∷ t ∷ names) (hs, h) =
    (sanitize_component-IsPortable s hs, path_components-IsPortable v (t ∷ names) h)

-- The path of a parsed name in the local store is the root with some components pushed to it one after
-- the other, one for each segment of the name; each component is made of ASCII letters, digits and
-- `.`, `_`, `-`, `%` and `@`, and is neither empty nor "." or "..", and there is at least one. Two
-- parsed names have the same components exactly if they have the same name and version. What pushing a
-- component to a path gives is any function.
pub manifest_path-ArePortable :
    (push : Bytes → Bytes → Bytes) (s t root : Bytes) (m n : Murl)
    → parse s ≡ ok m
    → parse t ≡ ok n
    → (cs ds : List Bytes) × (manifest_path push root m ≡ push_all push cs root)
      × (manifest_path push root n ≡ push_all push ds root)
      × (cs ≢ [])
      × (length cs ≡ length m.name)
      × All IsPortable cs
      × ((cs ≡ ds) ↔ ((m.name ≡ n.name) × (m.version ≡ n.version)))
unfolding manifest_path
manifest_path-ArePortable push s t root m n hm hn =
    let v = parse-IsMurl s m hm in
    let w = parse-IsMurl t n hn in
    (
      path_components m.version m.name,
      path_components n.version n.name,
      push_components-push_all push root (path_components m.version m.name),
      push_components-push_all push root (path_components n.version n.name),
      some_component m.name v.some_segment,
      length-path_components m.version m.name,
      path_components-IsPortable m.version m.name v.segments,
      (
        path_components-injective m.version n.version m.name n.name v.some_segment w.some_segment
            v.segments w.segments v.version w.version,
        λ (e, f). ap₂ path_components f e,
      ),
    )
  where
    some_component : (names : List Bytes) → names ≢ [] → path_components m.version names ≢ []
    some_component [] h = λ e. h refl
    some_component (x ∷ names) h = path_components-ne_nil m.version x names

    ap₂ :
        {v w : VersionTag} {names others : List Bytes} (f : VersionTag → List Bytes → List Bytes)
        → v ≡ w
        → names ≡ others
        → f v names ≡ f w others
    ap₂ f e e' = rw e (rw e' refl)
