-- ===== src/Discovery.antt =====
-- The discovery engine (src/orbita_discovery): candidates are judged and attacked, and each finding
-- goes to a hash-chained ledger.
pub mod Core
pub mod Chain
mod Tests
