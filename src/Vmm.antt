-- ===== src/Vmm.antt =====
-- Virtual memory areas: kern/mm/vmm.c.
pub mod Defs
pub mod Fault
pub mod Areas
pub mod Find
pub mod Insert
pub mod Map
pub mod Check
mod Tests
