-- ===== src/Graph.antt =====
-- crates/murl-core/src/graph.rs: the dispatch order of the resources of a manifest.
mod Tests
pub mod Pick
pub mod Schedule
pub mod Marks
pub mod Depends
pub mod Order
pub mod Turns
pub mod Cycle
use m_url.Base.{
  ℕ, zero, suc, Bool, true, false, not, ◌&&◌, ◌||◌, List, [], ◌∷◌, ◌++◌, map, Option, none, some,
  Result, ok, err, ltb, ◌==◌, if◌then◌else◌, length, get_elem?, get_or, set, replicate, all,
}
use m_url.Base.Int.{ℤ, pos, ltb_ℤ, eq_ℤ}
use m_url.Base.Text.{Bytes, bytes_eq}
use m_url.Manifest.Types.{ResourceDoc}

-- `resources.iter().position(|r| r.id == id)`, counted from `i`
unfoldable pub position : ℕ → Bytes → List ResourceDoc → Option ℕ
position i id [] = none
position i id (r ∷ rs) =
    let rest = position (suc i) id rs in if bytes_eq r.id id then some i else rest

-- `if let Some(j) = index_of(d) { if i != j { deps[i].push(j); } }`
abbrev pub push_edge : ℕ → Option ℕ → List ℕ → List ℕ
push_edge i none js = js
push_edge i (some j) js = if j == i then js else j ∷ js

unfoldable pub edges : List ResourceDoc → ℕ → List Bytes → List ℕ
edges resources i [] = []
edges resources i (d ∷ ds) = push_edge i (position 0 d resources) (edges resources i ds)

-- The `deps` table, from index `i` on.
unfoldable pub deps_from : List ResourceDoc → ℕ → List ResourceDoc → List (List ℕ)
deps_from resources i [] = []
deps_from resources i (r ∷ rs) = edges resources i r.depends_on ∷ deps_from resources (suc i) rs

unfoldable pub is_done : List Bool → ℕ → Bool
is_done done i = get_or done i false

-- Not dispatched yet, and all dependencies are.
unfoldable pub is_ready : List (List ℕ) → List Bool → ℕ → Bool
is_ready deps done i = not (is_done done i) && all (is_done done) (get_or deps i [])

unfoldable pub order_at : List ResourceDoc → ℕ → ℤ
order_at [] i = pos 0
order_at (r ∷ rs) zero = r.order
order_at (r ∷ rs) (suc i) = order_at rs i

-- `(resources[i].order, i) < (resources[p].order, p)`
unfoldable pub key_lt : List ResourceDoc → ℕ → ℕ → Bool
key_lt resources i p =
    let a = order_at resources i in let b = order_at resources p in ltb_ℤ a b || eq_ℤ a b && ltb i p

abbrev pub better : (ℕ → ℕ → Bool) → ℕ → Option ℕ → Option ℕ
better lt i none = some i
better lt i (some p) = if lt i p then some i else some p

-- The loop `for i in 0..n`: `left` rounds remain, and the next index is `i`.
unfoldable pub pick_from : (ℕ → Bool) → (ℕ → ℕ → Bool) → ℕ → ℕ → Option ℕ → Option ℕ
pick_from ready lt zero i pick = pick
pick_from ready lt (suc left) i pick =
    pick_from ready lt left (suc i) (if ready i then better lt i pick else pick)

-- The ids of the resources that are not done, from index `i` on.
unfoldable pub stuck_ids : List Bool → ℕ → List ResourceDoc → List Bytes
stuck_ids done i [] = []
stuck_ids done i (r ∷ rs) =
    let rest = stuck_ids done (suc i) rs in if is_done done i then rest else r.id ∷ rest

-- The `while out.len() < n` loop. Each round pushes one index, so `n - out.len()` rounds are left.
unfoldable pub rounds :
    List ResourceDoc → List (List ℕ) → ℕ → List Bool → List ℕ → Result (List Bytes) (List ℕ)
rounds resources deps zero done out = ok out
rounds resources deps (suc left) done out =
    elim (pick_from (is_ready deps done) (key_lt resources) (length resources) 0 none) [
      | some i ↦ rounds resources deps left (set done i true) (out ++ i ∷ [])
      | none ↦ err (stuck_ids done 0 resources)
    ]

-- The error carries the ids of the resources that no round could place.
unfoldable pub execution_order : List ResourceDoc → Result (List Bytes) (List ℕ)
execution_order resources =
    let n = length resources in
    rounds resources (deps_from resources 0 resources) n (replicate n false) []
