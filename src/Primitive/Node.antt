-- ===== src/Primitive/Node.antt =====
-- internal/primitive/vanus/id.go: the nodes that make identifiers. A node's logic id is a uint16.
pub mod Ranges
use vanus.Base.{Bool, leb, ltb, ℕ, ◌%◌, ◌&&◌, ◌+◌, ◌^◌}

pub data Service : Type 0 where
  controller_service store_service unknown_service : Service

-- `start` and `stop` bound the logic ids of the service.
pub record Node : Type 0 where
  pub start : ℕ
  pub stop : ℕ
  pub id : ℕ
  pub svc : Service

unfoldable pub new_node : Service → ℕ → Node
new_node controller_service id = record { start = 16; stop = 32; id = id; svc = controller_service }
new_node store_service id = record { start = 1024; stop = 8192; id = id; svc = store_service }
new_node unknown_service id = record { start = 8192; stop = 8192; id = id; svc = unknown_service }

unfoldable pub logic_id : Node → ℕ
logic_id n = (n.start + n.id) % 2 ^ 16

unfoldable pub valid : Node → Bool
valid n = ltb (logic_id n) n.stop && leb n.start (logic_id n)
