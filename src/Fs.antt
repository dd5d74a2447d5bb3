-- ===== src/Fs.antt =====
-- The file system above the disk: kern/fs/.
pub mod Defs
pub mod Inode
pub mod Table
pub mod Vfs
pub mod File
pub mod Counts
pub mod Find
pub mod Alloc
pub mod Dup
mod Tests
pub mod Transfer
pub mod Close
pub mod Lend
pub mod Open
pub mod Install
pub mod Held
pub mod FileOpen
pub mod Bitmap
