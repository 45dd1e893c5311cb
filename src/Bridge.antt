-- ===== src/Bridge.antt =====
-- The bridge between the two sides (src/bridge).
pub mod Media
pub mod Config
pub mod Ipc
pub mod Management
