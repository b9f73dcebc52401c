-- ===== src/Trust/Pins.antt =====
-- What adding and removing a key change.
use m_url.Base.{
  ℕ, ◌≡◌, inl, inr, refl, sym, ap, ◌∙◌, Bool, true, false, not, ◌&&◌, ◌||◌, List, [], ◌∷◌, ◌++◌,
  Option, none, some, ok, Bool-cases, length, any, retain, ◌==◌, arith,
}
use m_url.Base.Text.{Bytes, bytes_eq}
use m_url.Base.Text.Equality.{bytes_eq→eq, bytes_eq_refl}
use m_url.Trust.Store.{
  PinnedKey, Authorities, TrustStore, Crypto, Disk, bytes_lt, find_keys, replace_keys, insert_keys,
  remove_keys, has_id, normalize_authority, push_key, pin, unpin, check_key, add_checked, add,
  remove_checked, remove, holds, is_trusted_name, is_trusted,
}

-- The keys of a name in the changed map, and those of every other name.
find_keys-replace :
    (n : Bytes) (new keys : List PinnedKey) (m : Authorities)
    → find_keys n m ≡ some keys
    → find_keys n (replace_keys n new m) ≡ some new
unfolding find_keys replace_keys
find_keys-replace n new keys [] h = cc
find_keys-replace n new keys ((k, ks) ∷ m) h = elim (Bool-cases (bytes_eq k n)) [
  | inl e ↦ rw (e, find_keys) (rw e refl)
  | inr e ↦ rw (e, find_keys) (rw e (find_keys-replace n new keys m (rw e at h)))
]

other_name : (k n n' : Bytes) → bytes_eq n n' ≡ false → bytes_eq k n ≡ true → bytes_eq k n' ≡ false
other_name k n n' d e = rw (bytes_eq→eq k n e) d

find_keys-replace_other :
    (n n' : Bytes) (new : List PinnedKey) (m : Authorities)
    → bytes_eq n n' ≡ false
    → find_keys n' (replace_keys n new m) ≡ find_keys n' m
unfolding find_keys replace_keys
find_keys-replace_other n n' new [] d = refl
find_keys-replace_other n n' new ((k, ks) ∷ m) d = elim (Bool-cases (bytes_eq k n)) [
  | inl e ↦ rw (e, find_keys) (rw (other_name k n n' d e) refl)
  | inr e ↦ rw (e, find_keys) (rw (find_keys-replace_other n n' new m d) refl)
]

find_keys-insert :
    (n : Bytes) (new : List PinnedKey) (m : Authorities)
    → find_keys n m ≡ none
    → find_keys n (insert_keys n new m) ≡ some new
unfolding find_keys insert_keys
find_keys-insert n new [] h = rw (bytes_eq_refl n) refl
find_keys-insert n new ((k, ks) ∷ m) h = elim (Bool-cases (bytes_lt n k)) [
  | inl e ↦ rw (e, find_keys) (rw (bytes_eq_refl n) refl)
  | inr e ↦ elim (Bool-cases (bytes_eq k n)) [
    | inl f ↦ absurd (let h' = rw f at h in cc)
    | inr f ↦ rw (e, find_keys) (rw f (find_keys-insert n new m (rw f at h)))
  ]
]

find_keys-insert_other :
    (n n' : Bytes) (new : List PinnedKey) (m : Authorities)
    → bytes_eq n n' ≡ false
    → find_keys n' (insert_keys n new m) ≡ find_keys n' m
unfolding find_keys insert_keys
find_keys-insert_other n n' new [] d = rw d refl
find_keys-insert_other n n' new ((k, ks) ∷ m) d = elim (Bool-cases (bytes_lt n k)) [
  | inl e ↦ rw (e, find_keys) (rw d refl)
  | inr e ↦ rw (e, find_keys) (rw (find_keys-insert_other n n' new m d) refl)
]

find_keys-remove : (n : Bytes) (m : Authorities) → find_keys n (remove_keys n m) ≡ none
unfolding find_keys remove_keys
find_keys-remove n [] = refl
find_keys-remove n ((k, ks) ∷ m) = elim (Bool-cases (bytes_eq k n)) [
  | inl e ↦ rw (e, find_keys) (find_keys-remove n m)
  | inr e ↦ rw (e, find_keys) (rw e (find_keys-remove n m))
]

find_keys-remove_other :
    (n n' : Bytes) (m : Authorities)
    → bytes_eq n n' ≡ false
    → find_keys n' (remove_keys n m) ≡ find_keys n' m
unfolding find_keys remove_keys
find_keys-remove_other n n' [] d = refl
find_keys-remove_other n n' ((k, ks) ∷ m) d = elim (Bool-cases (bytes_eq k n)) [
  | inl e ↦ rw (e, find_keys) (rw (other_name k n n' d e) (find_keys-remove_other n n' m d))
  | inr e ↦ rw (e, find_keys) (rw (find_keys-remove_other n n' m d) refl)
]

-- The ids after a key is pushed or dropped.
any-append :
    (i : Bytes) (xs ys : List PinnedKey)
    → any (has_id i) (xs ++ ys) ≡ (any (has_id i) xs || any (has_id i) ys)
any-append i [] ys = refl
any-append i (x ∷ xs) ys = let h = any-append i xs ys in ground arith

any-push_key :
    (i : Bytes) (k : PinnedKey) (keys : List PinnedKey)
    → any (has_id i) (push_key keys k) ≡ (any (has_id i) keys || bytes_eq k.key_id i)
any-push_key i k keys = elim (Bool-cases (any (has_id k.key_id) keys)) [
  | inr e ↦ rw e (
      any-append i keys (k ∷ [])
      ∙ ap (λ b. any (has_id i) keys || b) (or_false (bytes_eq k.key_id i)))
  | inl e ↦ rw e (elim (Bool-cases (bytes_eq k.key_id i)) [
    | inr f ↦ rw f (sym (or_false (any (has_id i) keys)))
    | inl f ↦ rw f (
        let same = bytes_eq→eq k.key_id i f in
        let there : any (has_id i) keys ≡ true = rw same at e in rw there refl)
  ])
]
  where
    or_false : (b : Bool) → (b || false) ≡ b
    or_false true = refl
    or_false false = refl

any-retain :
    (i id : Bytes) (keys : List PinnedKey)
    → any (has_id i) (retain (λ k. not (has_id id k)) keys)
      ≡ (any (has_id i) keys && not (bytes_eq id i))
any-retain i id [] = refl
any-retain i id (k ∷ keys) = elim (Bool-cases (bytes_eq k.key_id id)) [
  | inl e ↦ rw (e, retain) (any-retain i id keys ∙ dropped (bytes_eq→eq k.key_id id e))
  | inr e ↦ rw (e, retain) (rw (any-retain i id keys) (kept e))
]
  where
    dropped :
        k.key_id ≡ id
        → (any (has_id i) keys && not (bytes_eq id i))
          ≡ ((bytes_eq k.key_id i || any (has_id i) keys) && not (bytes_eq id i))
    dropped e = rw e (ground arith)

    kept :
        bytes_eq k.key_id id ≡ false
        → (bytes_eq k.key_id i || (any (has_id i) keys && not (bytes_eq id i)))
          ≡ ((bytes_eq k.key_id i || any (has_id i) keys) && not (bytes_eq id i))
    kept e = elim (Bool-cases (bytes_eq id i)) [
      | inr f ↦ rw f (ground arith)
      | inl f ↦
          let other : bytes_eq k.key_id i ≡ false = rw (bytes_eq→eq id i f) at e in
          rw f (rw other (ground arith))
    ]

or_false : (b : Bool) → (b || false) ≡ b
or_false true = refl
or_false false = refl

and_true_right : (b : Bool) → (b && true) ≡ b
and_true_right true = refl
and_true_right false = refl

module _ (name n i : Bytes) (m : Authorities) where
  -- One name of the map after a pin, and after its removal.
  holds-pin :
      (k : PinnedKey) (o : Option (List PinnedKey))
      → find_keys name m ≡ o
      → holds i (find_keys n (pin name k o m))
        ≡ (holds i (find_keys n m) || (bytes_eq name n && bytes_eq k.key_id i))
  unfolding pin
  holds-pin k o e = elim (Bool-cases (bytes_eq name n)) [
    | inl same ↦ rw same (here (bytes_eq→eq name n same) o e)
    | inr d ↦ rw d (there d o ∙ sym (or_false (holds i (find_keys n m))))
  ]
    where
      here :
          name ≡ n
          → (o : Option (List PinnedKey)) → find_keys name m ≡ o
          → holds i (find_keys n (pin name k o m))
            ≡ (holds i (find_keys n m) || bytes_eq k.key_id i)
      here same none e =
          rw (sym same)
            (rw (find_keys-insert name (push_key [] k) m e) (rw e (any-push_key i k [])))
      here same (some keys) e =
          rw (sym same)
            (rw (find_keys-replace name (push_key keys k) keys m e) (rw e (any-push_key i k keys)))

      there :
          bytes_eq name n ≡ false
          → (o : Option (List PinnedKey))
          → holds i (find_keys n (pin name k o m)) ≡ holds i (find_keys n m)
      there d none = rw (find_keys-insert_other name n (push_key [] k) m d) refl
      there d (some keys) = rw (find_keys-replace_other name n (push_key keys k) m d) refl

  holds-unpin :
      (id : Bytes) (o : Option (List PinnedKey))
      → find_keys name m ≡ o
      → holds i (find_keys n (unpin name id o m).0)
        ≡ (holds i (find_keys n m) && not (bytes_eq name n && bytes_eq id i))
  unfolding unpin
  holds-unpin id o e = elim (Bool-cases (bytes_eq name n)) [
    | inl same ↦ rw same (here (bytes_eq→eq name n same) o e)
    | inr d ↦ rw d (there d o ∙ sym (and_true_right (holds i (find_keys n m))))
  ]
    where
      emptied : (keys : List PinnedKey) → (length keys == 0) ≡ true → any (has_id i) keys ≡ false
      emptied [] h = refl
      emptied (k ∷ keys) h = absurd (ground arith)

      here :
          name ≡ n
          → (o : Option (List PinnedKey)) → find_keys name m ≡ o
          → holds i (find_keys n (unpin name id o m).0)
            ≡ (holds i (find_keys n m) && not (bytes_eq id i))
      here same none e = rw (sym same) (rw e refl)
      here same (some keys) e =
          let left = retain (λ k. not (has_id id k)) keys in
          let after : any (has_id i) left ≡ (any (has_id i) keys && not (bytes_eq id i)) =
            any-retain i id keys in
          elim (Bool-cases (length left == 0)) [
            | inl z ↦
                rw z (
                  rw (sym same)
                    (rw (find_keys-remove name m) (rw e (sym (emptied left z) ∙ after))))
            | inr z ↦ rw z (rw (sym same) (rw (find_keys-replace name left keys m e) (rw e after)))
          ]

      there :
          bytes_eq name n ≡ false
          → (o : Option (List PinnedKey))
          → holds i (find_keys n (unpin name id o m).0) ≡ holds i (find_keys n m)
      there d none = refl
      there d (some keys) =
          let left = retain (λ k. not (has_id id k)) keys in
          elim (Bool-cases (length left == 0)) [
            | inl z ↦ rw z (rw (find_keys-remove_other name n m d) refl)
            | inr z ↦ rw z (rw (find_keys-replace_other name n left m d) refl)
          ]

-- After a key that passes the checks is added, whether the file is written or not, the store trusts
-- what it trusted before and that key for that authority, under any spelling of the authority, and nothing else.
pub add-is_trusted :
    (crypto : Crypto) (disk : Disk) (store : TrustStore) (authority public_key name id : Bytes)
    (now : ℕ) (other n i : Bytes)
    → check_key crypto authority public_key ≡ ok (name, id)
    → normalize_authority other ≡ ok n
    → is_trusted (add crypto disk store authority public_key now).1 other i
      ≡ (is_trusted store other i || (bytes_eq name n && bytes_eq id i))
unfolding add add_checked is_trusted is_trusted_name
add-is_trusted crypto disk store authority public_key name id now other n i h e = rw h (
    rw e (
      holds-pin name n i store.authorities
        (record { key_id = id; public_key = public_key; added_at = some now }) _ refl))

-- After a key is removed, whether the file is written or not, the store trusts what it trusted before but
-- for that key of that authority.
pub remove-is_trusted :
    (disk : Disk) (store : TrustStore) (authority name id : Bytes) (other n i : Bytes)
    → normalize_authority authority ≡ ok name
    → normalize_authority other ≡ ok n
    → is_trusted (remove disk store authority id).1 other i
      ≡ (is_trusted store other i && not (bytes_eq name n && bytes_eq id i))
unfolding remove remove_checked is_trusted is_trusted_name
remove-is_trusted disk store authority name id other n i h e =
    rw h (rw e (holds-unpin name n i store.authorities id _ refl))
