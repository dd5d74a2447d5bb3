-- ===== src/Pmm.antt =====
-- The allocator of physical pages, kern/mm/default_pmm.c, and the page tables of kern/mm/pmm.c.
pub mod Defs
pub mod Blocks
pub mod Fit
pub mod Alloc
pub mod Members
pub mod Place
pub mod Join
pub mod Merge
pub mod Free
pub mod Init
pub mod Paging
pub mod Kept
pub mod Walk
pub mod Entry
pub mod Release
pub mod Rewrite
pub mod Displace
pub mod Insert
pub mod Remove
pub mod Fresh
mod Tests
mod PagingTests
