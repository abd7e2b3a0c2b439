-- ===== src/Simplefs/Layout.antt =====
-- simplefs/simple.h: the constants of the file system and its structs as they lie in a block, on
-- x86-64 (`mode_t` has 4 bytes, `uint64_t` 8, a pointer is an offset into its buffer).
use lkm.Prelude.{ℕ, ◌+◌, ◌*◌, ◌/◌, ◌%◌, Bool, ◌==◌}
use lkm.Prelude.Bytes.{Mem, store, load, load64, store64, to_le, from_le}
pub mod Laws

abbrev pub simplefs_magic : ℕ
simplefs_magic = 0x1003_2013

abbrev pub block_size : ℕ
block_size = 4096

abbrev pub filename_maxlen : ℕ
filename_maxlen = 248

abbrev pub start_ino : ℕ
start_ino = 10

abbrev pub reserved_inodes : ℕ
reserved_inodes = 3

abbrev pub superblock_block_number : ℕ
superblock_block_number = 0

abbrev pub inodestore_block_number : ℕ
inodestore_block_number = 1

abbrev pub rootdir_inode_number : ℕ
rootdir_inode_number = 1

abbrev pub max_objects : ℕ
max_objects = 64

-- `struct simplefs_inode`. The union of `file_size` and `dir_children_count` is one word.
pub record Inode : Type 0 where
  pub mode : ℕ
  pub inode_no : ℕ
  pub data_block_number : ℕ
  pub file_size : ℕ

abbrev pub dir_children_count : Inode → ℕ
dir_children_count i = i.file_size

-- `sizeof(struct simplefs_inode)` and `sizeof(struct simplefs_dir_record)`
abbrev pub inode_bytes : ℕ
inode_bytes = 32

abbrev pub record_bytes : ℕ
record_bytes = 256

-- The struct that a `struct simplefs_inode *` points to.
unfoldable pub read_inode : Mem → ℕ → Inode
read_inode m p = record {
  mode = from_le (load m p 4);
  inode_no = load64 m (p + 8);
  data_block_number = load64 m (p + 16);
  file_size = load64 m (p + 24);
}

-- `memcpy` of the struct. Its 4 bytes of padding, which nothing reads, are left as they were.
unfoldable pub write_inode : Mem → ℕ → Inode → Mem
write_inode m p i =
    store64
      (store64 (store64 (store m p (to_le 4 i.mode)) (p + 8) i.inode_no) (p + 16)
        i.data_block_number)
      (p + 24) i.file_size

-- `S_ISDIR` and `S_ISREG` of a mode, by its four bits of file type.
abbrev pub s_isdir : ℕ → Bool
s_isdir mode = mode / 4096 % 16 == 4

abbrev pub s_isreg : ℕ → Bool
s_isreg mode = mode / 4096 % 16 == 8
