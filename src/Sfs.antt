-- ===== src/Sfs.antt =====
-- kern/fs/sfs: the simple file system.
pub mod Defs
pub mod Io
pub mod Bmap
pub mod Block
pub mod Map
pub mod Entry
pub mod Grown
pub mod Sub
pub mod Get
pub mod Load
pub mod Shrunk
pub mod Truncate
pub mod File
pub mod Rw
pub mod Dir
mod Tests
