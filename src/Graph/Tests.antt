-- ===== src/Graph/Tests.antt =====
-- Runs of the scheduler, and its properties at such inputs.
use m_url.Base.{ℕ, ◌≡◌, ◌↔◌, refl, true, List, [], ◌∷◌, none, ok, err}
use m_url.Base.Int.{pos}
use m_url.Base.Text.{Bytes, codes, bytes_eq}
use m_url.Manifest.Types.{ResourceDoc}
use m_url.Graph.{
  position, edges, deps_from, is_done, is_ready, order_at, key_lt, pick_from, stuck_ids, rounds,
  execution_order,
}
use m_url.Graph.Order.{IsOrder, execution_order-IsOrder}
use m_url.Graph.Turns.{AreTurns, execution_order-AreTurns}
use m_url.Graph.Cycle.{StuckSet, execution_order-error_iff}

program : Unit {0}
unfolding bytes_eq position edges deps_from is_done is_ready order_at key_lt pick_from stuck_ids
    rounds execution_order
program = tt

-- A resource with an id, an order and dependencies.
abbrev res : Bytes → ℕ → List Bytes → ResourceDoc
res name n deps = record {
  id = name;
  kind = codes "https";
  target = codes "https://example.com";
  label = none;
  role = none;
  required = true;
  order = pos n;
  depends_on = deps;
  tags = [];
  integrity = none;
  meta = none;
}

abbrev three : List ResourceDoc
three = res (codes "a") 1 (codes "c" ∷ []) ∷ res (codes "b") 5 [] ∷ res (codes "c") 9 [] ∷ []

order_three : execution_order three ≡ ok (1 ∷ 2 ∷ 0 ∷ [])
unfolding program
order_three = refl

abbrev circle : List ResourceDoc
circle = res (codes "a") 1 (codes "b" ∷ []) ∷ res (codes "b") 5 (codes "a" ∷ []) ∷ []

order_circle : execution_order circle ≡ err (codes "a" ∷ codes "b" ∷ [])
unfolding program
order_circle = refl

execution_order-IsOrder_example : IsOrder three (1 ∷ 2 ∷ 0 ∷ [])
execution_order-IsOrder_example = execution_order-IsOrder three (1 ∷ 2 ∷ 0 ∷ []) order_three

execution_order-AreTurns_example : AreTurns three [] (1 ∷ 2 ∷ 0 ∷ [])
execution_order-AreTurns_example = execution_order-AreTurns three (1 ∷ 2 ∷ 0 ∷ []) order_three

-- A resource's own id in its `dependsOn` is passed over.
own_id : execution_order (res (codes "a") 1 (codes "a" ∷ []) ∷ []) ≡ ok (0 ∷ [])
unfolding program
own_id = refl

execution_order-error_iff_example :
    ((ids : List Bytes) × (execution_order circle ≡ err ids)) ↔ StuckSet circle
execution_order-error_iff_example = execution_order-error_iff circle
