-- ===== src/Primitive/Tests.antt =====
-- The nodes' theorem at a concrete input.
use vanus.Base.{arith, refl, ℕ, ◌≡◌}
use vanus.Primitive.Node.{logic_id, new_node, store_service, valid}
use vanus.Primitive.Node.Ranges.{logic_id_unique}

logic_id_unique_example : (store_service ≡ store_service) × (◌≡◌ {A = ℕ} 5 5)
unfolding valid logic_id new_node
logic_id_unique_example =
    logic_id_unique store_service store_service 5 5 (omega arith) (omega arith) refl refl refl
