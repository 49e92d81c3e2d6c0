-- ===== src/Client.antt =====
-- client: the library that producers and consumers use.
pub mod Policy
mod Tests
