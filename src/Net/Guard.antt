-- ===== src/Net/Guard.antt =====
-- Which addresses the guard lets through.
use m_url.Base.{
  ℕ, ◌≡◌, ◌≤◌, ◌≢◌, ◌/◌, ◌%◌, ◌⊎◌, ◌↔◌, inl, inr, refl, sym, Bool, true, false, not, ◌&&◌, List, [],
  ◌∷◌, Result, ok, err, >>=-eq-ok, refuse_if-eq-ok, map_err, Bool-cases, retain, arith,
}
use m_url.Base.Text.{Bytes}
use m_url.Net.{
  Ip, v4, v6, unmapped, is_public, ip_allowed, NetFault, not_looked_up, only_blocked,
  some_addresses, guard_addresses, resolve_guarded,
}

-- An IPv4 address outside of 0/8, 10/8, 100.64/10, 127/8, 169.254/16, 172.16/12, 192.168/16 and 224/4
-- (224 to 239), and not 255.255.255.255.
abbrev pub IsPublic4 : ℕ → ℕ → ℕ → ℕ → Type 0
IsPublic4 a b c d =
    (a ≢ 0)
    × (a ≢ 10)
    × (a ≢ 127)
    × ¬ ((a ≡ 100) × (64 ≤ b) × (b ≤ 127))
    × ¬ ((a ≡ 169) × (b ≡ 254))
    × ¬ ((a ≡ 172) × (16 ≤ b) × (b ≤ 31))
    × ¬ ((a ≡ 192) × (b ≡ 168))
    × ¬ ((224 ≤ a) × (a ≤ 239))
    × ¬ ((a ≡ 255) × (b ≡ 255) × (c ≡ 255) × (d ≡ 255))

-- The first 96 bits are those of `::ffff:a.b.c.d`.
abbrev pub IsMapped : ℕ → ℕ → ℕ → ℕ → ℕ → ℕ → Type 0
IsMapped s₀ s₁ s₂ s₃ s₄ s₅ = (s₀ ≡ 0) × (s₁ ≡ 0) × (s₂ ≡ 0) × (s₃ ≡ 0) × (s₄ ≡ 0) × (s₅ ≡ 0xffff)

-- All segments but the last are zero.
abbrev pub IsLow : ℕ → ℕ → ℕ → ℕ → ℕ → ℕ → ℕ → Type 0
IsLow s₀ s₁ s₂ s₃ s₄ s₅ s₆ =
    (s₀ ≡ 0) × (s₁ ≡ 0) × (s₂ ≡ 0) × (s₃ ≡ 0) × (s₄ ≡ 0) × (s₅ ≡ 0) × (s₆ ≡ 0)

-- The addresses that a name of the kind may reach: for a loopback name 127/8, also mapped into IPv6, and
-- ::1; for another name every address outside of the ranges above, also mapped, of ::, ::1, fc00::/7,
-- fe80::/10 and ff00::/8.
abbrev pub IsReachable : Bool → Ip → Type 0
IsReachable true (v4 a b c d) = a ≡ 127
IsReachable false (v4 a b c d) = IsPublic4 a b c d
IsReachable true (v6 s₀ s₁ s₂ s₃ s₄ s₅ s₆ s₇) =
    (IsMapped s₀ s₁ s₂ s₃ s₄ s₅ × (s₆ / 256 ≡ 127)) ⊎ (IsLow s₀ s₁ s₂ s₃ s₄ s₅ s₆ × (s₇ ≡ 1))
IsReachable false (v6 s₀ s₁ s₂ s₃ s₄ s₅ s₆ s₇) =
    (IsMapped s₀ s₁ s₂ s₃ s₄ s₅ × IsPublic4 (s₆ / 256) (s₆ % 256) (s₇ / 256) (s₇ % 256))
    ⊎ ((¬ IsMapped s₀ s₁ s₂ s₃ s₄ s₅)
        × ¬ (IsLow s₀ s₁ s₂ s₃ s₄ s₅ s₆ × (s₇ ≤ 1))
        × ¬ ((0xfc00 ≤ s₀) × (s₀ ≤ 0xfdff))
        × ¬ ((0xfe80 ≤ s₀) × (s₀ ≤ 0xfebf))
        × ¬ ((0xff00 ≤ s₀) × (s₀ ≤ 0xffff)))

is_public-IsPublic4 : (a b c d : ℕ) → (is_public (v4 a b c d) ≡ true) ↔ IsPublic4 a b c d
unfolding is_public
is_public-IsPublic4 a b c d = ground arith

ip_allowed_iff :
    (loopback : Bool) (ip : Ip) → (ip_allowed ip loopback ≡ true) ↔ IsReachable loopback ip
unfolding ip_allowed unmapped is_public
ip_allowed_iff true (v4 a b c d) = ground arith
ip_allowed_iff false (v4 a b c d) = is_public-IsPublic4 a b c d
ip_allowed_iff true (v6 s₀ s₁ s₂ s₃ s₄ s₅ s₆ s₇) = ground arith
ip_allowed_iff false (v6 s₀ s₁ s₂ s₃ s₄ s₅ s₆ s₇) = ground arith

-- The second list is what the first one leaves when the elements without the property are taken out.
pub data IsFiltered (P : Ip → Type 0) : List Ip → List Ip → Type 0 where
  none_left : IsFiltered P [] []
  kept :
      {ip : Ip} {all left : List Ip}
      → P ip
      → IsFiltered P all left
      → IsFiltered P (ip ∷ all) (ip ∷ left)
  dropped :
      {ip : Ip} {all left : List Ip} → ¬ P ip → IsFiltered P all left → IsFiltered P (ip ∷ all) left

retain-IsFiltered :
    (loopback : Bool) (addrs : List Ip)
    → IsFiltered (IsReachable loopback) addrs (retain (λ a. ip_allowed a loopback) addrs)
retain-IsFiltered loopback [] = none_left
retain-IsFiltered loopback (a ∷ addrs) = elim (Bool-cases (ip_allowed a loopback)) [
  | inl e ↦
      rw (e, retain) (kept ((ip_allowed_iff loopback a).0 e) (retain-IsFiltered loopback addrs))
  | inr e ↦ rw (e, retain) (dropped (blocked e) (retain-IsFiltered loopback addrs))
]
  where
    blocked : ip_allowed a loopback ≡ false → ¬ IsReachable loopback a
    blocked e h = let e' = (ip_allowed_iff loopback a).1 h in cc

some_addresses-eq :
    (xs ys : List Ip)
    → (not (some_addresses xs) && some_addresses ys) ≡ false
    → (ys ≡ []) ⊎ (xs ≢ [])
some_addresses-eq xs [] h = inl refl
some_addresses-eq [] (y ∷ ys) h = absurd cc
some_addresses-eq (x ∷ xs) (y ∷ ys) h = inr (λ e. cc)

-- The addresses that the guard passes on for a name are those of the lookup that a name of its kind may
-- reach, in the order of the lookup, and there is one unless the lookup gave none. A loopback name may
-- reach 127.0.0.0/8, also as ::ffff:127.0.0.0/104, and ::1. Another name may reach an IPv4 address,
-- also as ::ffff:a.b.c.d, outside of 0/8, 10/8, 100.64/10, 127/8, 169.254/16, 172.16/12, 192.168/16
-- and 224/4 that is not 255.255.255.255, and another IPv6 address outside of
-- fc00::/7, fe80::/10 and ff00::/8 that is neither :: nor ::1.
pub resolve_guarded-IsFiltered :
    (lookup : Bytes → Result Bytes (List Ip)) (loopback : Bool) (netloc : Bytes) (addrs : List Ip)
    → resolve_guarded lookup loopback netloc ≡ ok addrs
    → (found : List Ip) × (lookup netloc ≡ ok found)
      × IsFiltered (IsReachable loopback) found addrs
      × ((found ≡ []) ⊎ (addrs ≢ []))
unfolding resolve_guarded guard_addresses
resolve_guarded-IsFiltered lookup loopback netloc addrs h =
    let (found, e, h₁) = >>=-eq-ok (map_err not_looked_up (lookup netloc)) _ h in
    let (some_left, h₂) =
      refuse_if-eq-ok
        (not (some_addresses (retain (λ a. ip_allowed a loopback) found)) && some_addresses found)
        (only_blocked loopback netloc) _ h₁ in
    let same : retain (λ a. ip_allowed a loopback) found ≡ addrs = cc in
    (
      found,
      map_err-eq-ok (lookup netloc) found e,
      rw (sym same) (retain-IsFiltered loopback found),
      rw (sym same) (some_addresses-eq (retain (λ a. ip_allowed a loopback) found) found some_left),
    )
  where
    map_err-eq-ok :
        (x : Result Bytes (List Ip)) (found : List Ip)
        → map_err {E = Bytes} {F = NetFault} not_looked_up x ≡ ok found
        → x ≡ ok found
    map_err-eq-ok (ok a) found e = cc
    map_err-eq-ok (err f) found e = absurd cc
