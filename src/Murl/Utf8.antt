-- ===== src/Murl/Utf8.antt =====
-- `String::from_utf8` and `str::chars` of the standard library: the code points of a byte sequence,
-- where it is well-formed UTF-8.
use m_url.Base.{
  ℕ, zero, suc, ◌+◌, ◌-◌, ◌*◌, Bool, ◌&&◌, ◌||◌, List, [], ◌∷◌, Option, none, some, ltb, leb, ◌==◌,
  if◌then◌else◌,
}
use m_url.Base.Text.{Bytes}

-- `need` continuation bytes are missing; the next one lies in `lo ..= hi`.
pub record Pending : Type 0 where
  pub need : ℕ
  pub lo : ℕ
  pub hi : ℕ
  pub acc : ℕ

abbrev pub idle : Pending
idle = record { need = 0; lo = 0x80; hi = 0xbf; acc = 0 }

abbrev pub expect : ℕ → ℕ → ℕ → ℕ → Option (Pending × Option ℕ)
expect need lo hi acc = some (record { need = need; lo = lo; hi = hi; acc = acc }, none)

-- A byte that begins a character.
unfoldable pub lead : ℕ → Option (Pending × Option ℕ)
lead b =
    if ltb b 0x80
    then some (idle, some b)
    else if leb 0xc2 b && leb b 0xdf
    then expect 1 0x80 0xbf (b - 0xc0)
    else if b == 0xe0
    then expect 2 0xa0 0xbf 0
    else if b == 0xed
    then expect 2 0x80 0x9f 13
    else if leb 0xe1 b && leb b 0xef
    then expect 2 0x80 0xbf (b - 0xe0)
    else if b == 0xf0
    then expect 3 0x90 0xbf 0
    else if leb 0xf1 b && leb b 0xf3
    then expect 3 0x80 0xbf (b - 0xf0)
    else if b == 0xf4
    then expect 3 0x80 0x8f 4
    else none

-- A continuation byte.
unfoldable pub continue : ℕ → Pending → ℕ → Option (Pending × Option ℕ)
continue left p b =
    let acc = p.acc * 64 + (b - 0x80) in
    if leb p.lo b && leb b p.hi
    then (if left == 0 then some (idle, some acc) else expect left 0x80 0xbf acc)
    else none

unfoldable pub feed : ℕ → Pending → ℕ → Option (Pending × Option ℕ)
feed zero p b = lead b
feed (suc left) p b = continue left p b

abbrev pub emit : Option ℕ → List ℕ → List ℕ
emit none cs = cs
emit (some c) cs = c ∷ cs

unfoldable pub decode_from : Pending → Bytes → Option (List ℕ)
decode_from p [] = if p.need == 0 then some [] else none
decode_from p (b ∷ s) = elim (feed p.need p b) [
  | none ↦ none
  | some (q, c) ↦ elim (decode_from q s) [ none ↦ none | some cs ↦ some (emit c cs) ]
]

-- The characters of a text, or `none` if the bytes are not UTF-8.
unfoldable pub chars : Bytes → Option (List ℕ)
chars = decode_from idle

-- `char::is_control`: the general category Cc
abbrev pub is_control : ℕ → Bool
is_control c = ltb c 0x20 || (leb 0x7f c && leb c 0x9f)
