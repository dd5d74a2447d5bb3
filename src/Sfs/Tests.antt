-- ===== src/Sfs/Tests.antt =====
-- kern/fs/sfs at work: a small disk with one file.
use lcore.Base.{
  ℕ, ◌*◌, ◌/◌, ◌≡◌, ◌≢◌, refl, true, false, Bool, ◌&&◌, ltb, leb, ◌==◌, if◌then◌else◌, arith,
  update, Returns,
}
use lcore.Fs.Defs.{Ret, done}
use lcore.Fs.Bitmap.{Bitmap}
use lcore.Sfs.Defs.{Bytes, DiskInode, SfsInode, DeviceOps, Sfs, IsDevice}
use lcore.Sfs.Bmap.{sfs_block_alloc, sfs_bmap_load_nolock, sfs_bmap_truncate_nolock}
use lcore.Sfs.Block.{count_free, IsSfs, BlockAlloc}
use lcore.Sfs.Block.Alloc.{sfs_block_alloc-BlockAlloc}
use lcore.Sfs.Map.{IsFile, IsSound}
use lcore.Sfs.Load.{Loaded, sfs_bmap_load_nolock-Loaded}
use lcore.Sfs.Truncate.{Truncated, sfs_bmap_truncate_nolock-Truncated}
use lcore.Sfs.File.{sfs_truncfile, sfs_tryseek}
use lcore.Sfs.File.Seek.{Sought, sfs_tryseek-Sought}
use lcore.Sfs.File.Trunc.{TruncatedTo, sfs_truncfile-TruncatedTo}
use lcore.Sfs.Rw.{sfs_io_nolock}
use lcore.Sfs.Rw.Read.{ReadBytes, sfs_io_nolock-ReadBytes}
use lcore.Sfs.Rw.Write.{Written, sfs_io_nolock-Written}

-- A disk that never refuses.
abbrev Disk : Type 0
Disk = ℕ → Bytes

abbrev disk_io :
    (offset len : ℕ) (bytes : Bytes) (write : Bool) → Disk → Ret (Unit {0}) × Bytes × Disk
disk_io offset len bytes true w = (done tt, bytes, update w (offset / 4096) bytes)
disk_io offset len bytes false w = (done tt, w (offset / 4096), w)

abbrev disk_ops : DeviceOps Disk
disk_ops = record { dop_io = disk_io }

abbrev cells : Disk → ℕ → Bytes
cells w = w

disk_ops-IsDevice : IsDevice disk_ops cells
disk_ops-IsDevice = record {
  read = λ b bytes w h.
      let same : b * 4096 / 4096 ≡ b = omega arith in rw same ((λ c k. refl), (λ k l. refl));
  write = λ b bytes w h.
      let same : b * 4096 / 4096 ≡ b = omega arith in
      rw same ((λ k. refl), (λ c k ne. ground (arith, ne)), (λ k l. ground arith));
}

-- Eight blocks, of which those from 4 on are free; block 3 is the file's.
abbrev small_map : Bitmap
small_map = record {
  nbits = 32;
  nwords = 1;
  map = λ ix offset. (ix == 0) && (leb 4 offset && ltb offset 8);
}

abbrev small_fs : Sfs Disk
small_fs = record {
  magic = 0x2f8dbe2a;
  blocks = 8;
  unused_blocks = 4;
  info = λ k. 0;
  freemap = small_map;
  super_dirty = false;
  sfs_buffer = λ k. 0;
  dev = λ b k. if b == 3 then 7 else 0;
}

abbrev small_din : DiskInode
small_din = record {
  size = 100;
  type = 1;
  nlinks = 1;
  blocks = 1;
  direct = λ i. if i == 0 then 3 else 0;
  indirect = 0;
}

abbrev small_file : SfsInode
small_file = record { din = small_din; ino = 2; dirty = false; reclaim_count = 1 }

small_fs-IsSfs : IsSfs small_fs
unfolding count_free
small_fs-IsSfs = record {
  bits = record { enough = omega arith; needed = omega arith; end_used = λ i h k. ground arith };
  covers = omega arith;
  few = omega arith;
  small = omega arith;
  beyond = λ i h k. ground arith;
  first = refl;
  counted = refl;
}

small_din-IsFile : IsFile cells small_din small_fs
small_din-IsFile = record {
  bounded = omega arith;
  entries = λ n. absurd (n refl);
  mapped = λ i h. ground arith;
  unmapped = λ i h k. ground arith;
  apart = λ i h. ground arith;
  distinct = λ i j h k q. omega arith;
}

small_file-IsSound : IsSound cells small_din small_fs
small_file-IsSound = (small_fs-IsSfs, small_din-IsFile)

-- A block is taken.
sfs_block_alloc_example : Returns (BlockAlloc cells small_fs) (sfs_block_alloc disk_ops small_fs)
sfs_block_alloc_example = sfs_block_alloc-BlockAlloc disk_ops-IsDevice small_fs small_fs-IsSfs

-- The file's second block is made.
sfs_bmap_load_nolock_example :
    Returns
      (Loaded disk_ops-IsDevice small_file small_fs small_file-IsSound 1)
      (sfs_bmap_load_nolock disk_ops 1 small_file small_fs)
sfs_bmap_load_nolock_example =
    sfs_bmap_load_nolock-Loaded disk_ops-IsDevice small_file small_fs small_file-IsSound 1
      (omega arith) (omega arith)

some_blocks : small_din.blocks ≢ 0
some_blocks = omega arith

-- The file's only block is freed.
sfs_bmap_truncate_nolock_example :
    Returns
      (Truncated disk_ops-IsDevice small_file small_fs small_file-IsSound some_blocks)
      (sfs_bmap_truncate_nolock disk_ops small_file small_fs)
sfs_bmap_truncate_nolock_example =
    sfs_bmap_truncate_nolock-Truncated disk_ops-IsDevice small_file small_fs small_file-IsSound
      some_blocks

-- The file becomes ten thousand bytes long.
sfs_truncfile_example :
    Returns
      (TruncatedTo cells 10000 small_file small_fs)
      (sfs_truncfile disk_ops 10000 small_file small_fs)
sfs_truncfile_example =
    sfs_truncfile-TruncatedTo disk_ops-IsDevice 10000 small_file small_fs small_file-IsSound
      (omega arith) refl

-- Five thousand bytes are written at the end.
sfs_io_nolock_example :
    Returns
      (Written disk_ops-IsDevice 100 (λ k. 1) small_file small_fs 5000)
      (sfs_io_nolock disk_ops true (λ k. 1) 100 5000 small_file small_fs)
sfs_io_nolock_example =
    sfs_io_nolock-Written disk_ops-IsDevice 100 (λ k. 1) small_file small_fs 5000 small_file-IsSound
      (omega arith) refl (omega arith) (omega arith)

-- All of the file is read.
sfs_io_nolock_read :
    Returns
      (ReadBytes disk_ops-IsDevice 0 small_file small_fs 4096)
      (sfs_io_nolock disk_ops false (λ k. 0) 0 4096 small_file small_fs)
sfs_io_nolock_read =
    sfs_io_nolock-ReadBytes disk_ops-IsDevice 0 small_file small_fs (λ k. 0) 4096 small_file-IsSound
      (omega arith) refl (omega arith) (omega arith)

-- A position past the end of the file.
sfs_tryseek_example :
    Returns
      (Sought disk_ops-IsDevice 9000 small_file small_fs)
      (sfs_tryseek disk_ops 9000 small_file small_fs)
sfs_tryseek_example =
    sfs_tryseek-Sought disk_ops-IsDevice 9000 small_file small_fs small_file-IsSound refl
      (omega arith)
