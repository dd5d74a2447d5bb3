-- ===== src/Sync.antt =====
-- Waiting and semaphores: kern/sync/.
pub mod Defs
pub mod Up
mod Tests
