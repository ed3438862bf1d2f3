-- ===== src/Vfs/Handle.antt =====
-- drivers/filesystem/vfs.h: what the kernel keeps of an open file.
use nyxis_os.Base.{ℕ, Option, none}

-- `handle_t`, less its lock. A pointer is the number of the object that it points to.
pub record FileHandle : Type 0 where
  pub vnode : Option ℕ
  pub offset : ℕ
  pub flags : ℕ
  pub fs_private : Option ℕ
  pub refcnt : ℕ

-- What memset leaves.
abbrev pub blank_file : FileHandle
blank_file = record { vnode = none; offset = 0; flags = 0; fs_private = none; refcnt = 0 }

-- `vfs_stat_t`; the kind is 1 for a file and 2 for a directory.
pub record VfsStat : Type 0 where
  pub size : ℕ
  pub kind : ℕ
