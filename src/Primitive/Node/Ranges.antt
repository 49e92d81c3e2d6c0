-- ===== src/Primitive/Node/Ranges.antt =====
-- The ranges of the services.
use vanus.Base.{arith, refl, true, ℕ, ◌<◌, ◌^◌, ◌≡◌}
use vanus.Primitive.Node.{
  Service, controller_service, logic_id, new_node, store_service, unknown_service, valid,
}

-- Two valid nodes with the same logic id, whose ids are uint16 values, are nodes of the same
-- service with the same id: the ranges of the services do not meet, and no id wraps into another
-- range.
pub logic_id_unique :
    (s t : Service) (i j : ℕ)
    → i < 2 ^ 16
    → j < 2 ^ 16
    → valid (new_node s i) ≡ true
    → valid (new_node t j) ≡ true
    → logic_id (new_node s i) ≡ logic_id (new_node t j)
    → (s ≡ t) × (i ≡ j)
unfolding valid logic_id new_node
logic_id_unique controller_service controller_service i j h k v w e = (refl, ground arith)
logic_id_unique controller_service store_service i j h k v w e = absurd (ground arith)
logic_id_unique controller_service unknown_service i j h k v w e = absurd (ground arith)
logic_id_unique store_service controller_service i j h k v w e = absurd (ground arith)
logic_id_unique store_service store_service i j h k v w e = (refl, ground arith)
logic_id_unique store_service unknown_service i j h k v w e = absurd (ground arith)
logic_id_unique unknown_service controller_service i j h k v w e = absurd (ground arith)
logic_id_unique unknown_service store_service i j h k v w e = absurd (ground arith)
logic_id_unique unknown_service unknown_service i j h k v w e = absurd (ground arith)
