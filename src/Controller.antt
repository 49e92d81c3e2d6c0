-- ===== src/Controller.antt =====
-- internal/controller: the control plane.
pub mod Offset
pub mod Segment
mod Tests
