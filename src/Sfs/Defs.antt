-- ===== src/Sfs/Defs.antt =====
-- kern/fs/sfs/sfs.h: the structures of the simple file system, and the device below it.
use lcore.Base.{
  ℕ, ◌+◌, ◌-◌, ◌*◌, ◌/◌, ◌%◌, ◌^◌, ◌<◌, ◌≡◌, ◌≢◌, Bool, true, false, ◌&&◌, ltb, leb, ◌==◌,
  if◌then◌else◌,
}
use lcore.Fs.Defs.{Ret, done, err}
use lcore.Fs.Bitmap.{Bitmap}

abbrev pub sfs_blksize : ℕ
sfs_blksize = 4096

abbrev pub sfs_ndirect : ℕ
sfs_ndirect = 12

abbrev pub sfs_blk_nentry : ℕ
sfs_blk_nentry = 1024

abbrev pub sfs_max_file_size : ℕ
sfs_max_file_size = 1024 * 1024 * 128

abbrev pub sfs_type_file : ℕ
sfs_type_file = 1

abbrev pub sfs_type_dir : ℕ
sfs_type_dir = 2

abbrev pub sfs_type_link : ℕ
sfs_type_link = 3

-- Memory from an address on.
abbrev pub Bytes : Type 0
Bytes = ℕ → ℕ

-- `memcpy(dst + pos, src, len)`
abbrev pub copy_to : (pos len : ℕ) (src dst : Bytes) → Bytes
copy_to pos len src dst k = if leb pos k && ltb k (pos + len) then src (k - pos) else dst k

-- The `uint32_t` at an address, and the bytes of one.
abbrev pub get_word : Bytes → ℕ → ℕ
get_word m pos = m pos + 256 * m (pos + 1) + 65536 * m (pos + 2) + 16777216 * m (pos + 3)

abbrev pub word_bytes : ℕ → Bytes
word_bytes n k =
    if k == 0
    then n % 256
    else if k == 1
    then n / 256 % 256
    else if k == 2
    then n / 65536 % 256
    else n / 16777216 % 256

-- `struct sfs_disk_inode`
pub record DiskInode : Type 0 where
  pub size : ℕ
  pub type : ℕ
  pub nlinks : ℕ
  pub blocks : ℕ
  pub direct : ℕ → ℕ
  pub indirect : ℕ

-- `struct sfs_inode`; its links are the lists' (below), its semaphore is held by the caller.
pub record SfsInode : Type 0 where
  pub din : DiskInode
  pub ino : ℕ
  pub dirty : Bool
  pub reclaim_count : ℕ

-- `dop_io(dev, iob, write)`: the transfer of `len` bytes at `offset` to or from memory; the
-- answer, what the memory holds afterwards, and the device.
pub record DeviceOps (W : Type 0) : Type 0 where
  pub dop_io : (offset len : ℕ) (bytes : Bytes) (write : Bool) → W → Ret (Unit {0}) × Bytes × W

-- `struct sfs_fs` with its `struct sfs_super`, less the semaphores and the lists of inodes.
pub record Sfs (W : Type 0) : Type 0 where
  pub magic : ℕ
  pub blocks : ℕ
  pub unused_blocks : ℕ
  pub info : Bytes
  pub freemap : Bitmap
  pub super_dirty : Bool
  pub sfs_buffer : Bytes
  pub dev : W

-- What the file system relies on: the device is `size` blocks whose contents a transfer of one
-- block reads or replaces; a transfer that is refused leaves every block as it was.
module _ {W : Type 0} (content : W → ℕ → Bytes) where
  abbrev pub HasRead : (b : ℕ) (w : W) → Ret (Unit {0}) × Bytes × W → Type 0
  HasRead b w (done _, bytes, v) =
      ((c k : ℕ) → content v c k ≡ content w c k)
      × ((k : ℕ) → k < sfs_blksize → bytes k ≡ content w b k)
  HasRead b w (err e, bytes, v) = (c k : ℕ) → content v c k ≡ content w c k

  abbrev pub HasWritten : (b : ℕ) (bytes : Bytes) (w : W) → Ret (Unit {0}) × Bytes × W → Type 0
  HasWritten b bytes w (done _, left, v) =
      ((k : ℕ) → left k ≡ bytes k)
      × ((c k : ℕ) → c ≢ b → content v c k ≡ content w c k)
      × ((k : ℕ) → k < sfs_blksize → content v b k ≡ bytes k)
  HasWritten b bytes w (err e, left, v) =
      ((k : ℕ) → left k ≡ bytes k) × ((c k : ℕ) → content v c k ≡ content w c k)

pub record IsDevice {W : Type 0} (ops : DeviceOps W) (content : W → ℕ → Bytes) : Type 0 where
  pub read :
      (b : ℕ) (bytes : Bytes) (w : W)
      → b * sfs_blksize < 2 ^ 31
      → HasRead content b w (ops.dop_io (b * sfs_blksize) sfs_blksize bytes false w)
  pub write :
      (b : ℕ) (bytes : Bytes) (w : W)
      → b * sfs_blksize < 2 ^ 31
      → HasWritten content b bytes w (ops.dop_io (b * sfs_blksize) sfs_blksize bytes true w)
