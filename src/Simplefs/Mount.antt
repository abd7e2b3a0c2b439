-- ===== src/Simplefs/Mount.antt =====
-- simplefs/simple.c: the mount of a device.
use lkm.Prelude.{ℕ, ◌+◌, ◌*◌}
use lkm.Prelude.Bytes.{Mem}
use lkm.Simplefs.Layout.{simplefs_magic, block_size, rootdir_inode_number}
use lkm.Simplefs.State.{
  branch, fail, Fs, null_pointer, none_held, M, pure, ◌>>=◌, ◌>>◌, mount_bread, mount_new_inode,
  Env, bread_or_bug,
}
use lkm.Simplefs.Inodes.{get_inode}
use lkm.Simplefs.Directories.{VfsInode, dir_operations}

-- The fields of `struct super_block` that the mount sets; the root may have a NULL `i_private`.
pub record Super : Type 0 where
  pub s_magic : ℕ
  pub s_maxbytes : ℕ
  pub s_root : VfsInode

abbrev pub s_ifdir : ℕ
s_ifdir = 0o40000

-- The magic number on the device is not looked at.
unfoldable pub fill_super : Env → M Super
fill_super env = do
  bread_or_bug env mount_bread
  branch (env.fails mount_new_inode) (fail null_pointer) (do
    root ← get_inode env rootdir_inode_number
    pure (record {
      s_magic = simplefs_magic;
      s_maxbytes = block_size;
      s_root = record {
        i_ino = rootdir_inode_number;
        i_mode = s_ifdir;
        i_fop = dir_operations;
        i_private = root;
      };
    }))

-- A device by its bytes, before anything of it is in the cache: the first `sb_bread` of a block
-- gives what the device holds.
abbrev pub block_of : Mem → ℕ → Mem
block_of dev b a = dev (block_size * b + a)

abbrev pub attach : Mem → Fs
attach dev = record { cache = block_of dev; disk = block_of dev; locks = none_held }
