-- ===== src/Trigger.antt =====
-- internal/trigger: the worker that delivers events to subscribers.
pub mod Offset
pub mod Filter
pub mod Keys
mod Tests
