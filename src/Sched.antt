-- ===== src/Sched.antt =====
-- The scheduler: kern/schedule/.
pub mod Defs
pub mod RoundRobin
pub mod Stride
pub mod Core
pub mod Conserve
pub mod Wakeup
pub mod Timers
mod Tests
pub mod Laws
