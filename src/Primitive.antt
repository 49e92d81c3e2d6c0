-- ===== src/Primitive.antt =====
-- internal/primitive: types that the services share.
pub mod Node
mod Tests
