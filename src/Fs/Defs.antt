-- ===== src/Fs/Defs.antt =====
-- kern/fs/file.h, libs/error.h, libs/unistd.h and the counters of kern/fs/vfs/inode.h: what the
-- file descriptor table works on.
use lcore.Base.{ℕ, ◌-◌, ◌/◌, ◌^◌, Bool, true, false, List}

-- What a function returns: a value, or `-E`.
pub data Ret {ℓ} (A : Type ℓ) : Type ℓ where
  done : A → Ret A
  err : ℕ → Ret A

abbrev pub e_inval : ℕ
e_inval = 3

abbrev pub e_no_mem : ℕ
e_no_mem = 4

abbrev pub e_busy : ℕ
e_busy = 15

abbrev pub e_noent : ℕ
e_noent = 16

abbrev pub e_max_open : ℕ
e_max_open = 22

abbrev pub e_exists : ℕ
e_exists = 23

-- A file descriptor is an `int`, given by its 32 bits; a negative one is not below 2 ^ 31.
abbrev pub no_fd : ℕ
no_fd = 2 ^ 32 - 0x9527

-- `FILES_STRUCT_NENTRY`: a page less the 24 bytes of `files_struct`, in `struct file`s of 28 bytes.
abbrev pub files_struct_nentry : ℕ
files_struct_nentry = (4096 - 24) / 28

pub data FileStatus : Type 0 where
  fd_none fd_init fd_opened fd_closed : FileStatus

-- `struct file`. `pos` is an `off_t`, given by its 32 bits; `node` is an address, 0 for NULL.
-- `open_count` is an `int` that is decremented only while positive.
pub record File : Type 0 where
  pub status : FileStatus
  pub readable : Bool
  pub writable : Bool
  pub fd : ℕ
  pub pos : ℕ
  pub node : ℕ
  pub open_count : ℕ

-- The counters of `struct inode`, `int`s that are decremented only while positive.
pub record Inode : Type 0 where
  pub ref_count : ℕ
  pub open_count : ℕ

-- `struct iobuf`. `io_base` is an address; `io_offset` is an `off_t`, given by its 32 bits.
pub record Iobuf : Type 0 where
  pub io_base : ℕ
  pub io_offset : ℕ
  pub io_len : ℕ
  pub io_resid : ℕ

-- The members of `struct inode_ops` that the model calls.
pub data Vop : Type 0 where
  op_open op_close op_reclaim op_read op_write op_fstat op_fsync : Vop
  op_tryseek op_truncate op_getdirentry op_create : Vop

-- What lies behind an inode's operations (`struct inode_ops`): the state `W` of disks and devices,
-- and the functions that sfs and the devices supply for `vop_*`. `supplies` is whether the table of
-- the inode has the function, `in_ops->vop_ != NULL`; what is not supplied is never called.
pub record NodeOps (W : Type 0) : Type 0 where
  pub supplies : Vop → ℕ → W → Bool
  pub vop_open : ℕ → ℕ → W → Ret (Unit {0}) × W
  pub vop_close : ℕ → W → W
  pub vop_reclaim : ℕ → W → W
  pub vop_read : ℕ → Iobuf → W → Ret (Unit {0}) × Iobuf × W
  pub vop_write : ℕ → Iobuf → W → Ret (Unit {0}) × Iobuf × W
  pub vop_fstat : ℕ → W → Ret ℕ × W
  pub vop_fsync : ℕ → W → Ret (Unit {0}) × W
  pub vop_tryseek : ℕ → ℕ → W → Ret (Unit {0}) × W
  pub vop_truncate : ℕ → ℕ → W → Ret (Unit {0}) × W
  pub vop_getdirentry : ℕ → Iobuf → W → Ret (Unit {0}) × Iobuf × W

-- The state of one process's files: its descriptor table, the inodes' counters, and the rest.
pub record Fs (W : Type 0) : Type 0 where
  pub fd_array : List File
  pub nodes : ℕ → Inode
  pub world : W

-- Path lookup (kern/fs/vfs/vfslookup.c) and `vop_create`, which change inode counters too. A path
-- and a name are their bytes.
pub record PathOps (W : Type 0) : Type 0 where
  pub vfs_lookup : List ℕ → Fs W → Ret ℕ × Fs W
  pub vfs_lookup_parent : List ℕ → Fs W → Ret (ℕ × List ℕ) × Fs W
  pub vop_create : ℕ → List ℕ → Bool → Fs W → Ret ℕ × Fs W

abbrev pub is_none : FileStatus → Bool
is_none fd_none = true
is_none _ = false

abbrev pub is_init : FileStatus → Bool
is_init fd_init = true
is_init _ = false

abbrev pub is_opened : FileStatus → Bool
is_opened fd_opened = true
is_opened _ = false

abbrev pub is_closed : FileStatus → Bool
is_closed fd_closed = true
is_closed _ = false

-- `fd_array_init` of one entry; the fields that it leaves are what `kmalloc` gave, here zeros.
abbrev pub blank : ℕ → File
blank i = record {
  status = fd_none;
  readable = false;
  writable = false;
  fd = i;
  pos = 0;
  node = 0;
  open_count = 0;
}
