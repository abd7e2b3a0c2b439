-- ===== src/Simplefs/Directories/Contract.antt =====
-- simplefs/simple.c: what `simplefs_create_fs_object` needs, and what it promises.
use lkm.Prelude.{
  ℕ, ◌+◌, ◌*◌, ◌^◌, ◌<◌, ◌≡◌, ◌≢◌, true, none, some, List, [], ◌∷◌, ◌++◌, ◌||◌, length,
}
use lkm.Simplefs.Layout.{Inode, s_isdir, s_isreg}
use lkm.Simplefs.Layout.Laws.{Fits}
use lkm.Simplefs.State.{Fs, done, ok, Env, none_held, inodes_count, free_blocks}
use lkm.Simplefs.Super.{scan, found, unmasked}
use lkm.Simplefs.Inodes.Table.{table, find_inode, replace_inode}
use lkm.Simplefs.Directories.{Created, find_record, lookup}
use lkm.Simplefs.Directories.Records.{with_record}
use lkm.Simplefs.Directories.Creation.{vfs_of}

-- When a creation in a directory goes through: no mutex is held, an inode slot and a block are free,
-- the directory is in the store, its block has room for a record, its number of children and the mode
-- fit, the name is new and leaves room for its NUL, and the number that the new inode gets is not in use.
pub record CanCreate (s : Fs) (parent : Inode) (name : List ℕ) (mode k : ℕ) : Type 0 where
  pub unlocked : s.locks ≡ none_held
  pub room : inodes_count s < 64
  pub kind : (s_isdir mode || s_isreg mode) ≡ true
  pub mode_fits : mode < 2 ^ 32
  pub block_free : scan (free_blocks s) ≡ found k
  pub word_fits : free_blocks s < 2 ^ 64
  pub parent_fits : Fits parent
  pub child_fits : parent.file_size + 1 < 2 ^ 64
  pub on_block : parent.file_size < 16
  pub data_block : 1 < parent.data_block_number
  pub listed : find_inode parent.inode_no (table s) ≢ none
  pub number_free : find_inode (inodes_count s + 8) (table s) ≡ none
  pub name_short : length name < 248
  pub name_new : find_record (s.cache parent.data_block_number) 0 name parent.file_size ≡ none

abbrev pub file_inode : Fs → ℕ → ℕ → Inode
file_inode s mode k = record {
  mode = mode;
  inode_no = inodes_count s + 8;
  data_block_number = k;
  file_size = 0;
}

-- What a creation has done that went through: the directory has one more child, the inode store has
-- the new inode behind the others, and the name is found in the directory, with that inode; its block
-- is marked, no other block of a file or a directory changes, and a device that held what the cache
-- holds does so again.
pub record CreateEnds (env : Env) (s : Fs) (parent : Inode) (name : List ℕ) (mode k : ℕ)
    (r : Created) (s' : Fs) : Type 0 where
  pub returned : r.ret ≡ ok tt
  pub grown : r.parent ≡ record parent { file_size = parent.file_size + 1 }
  pub dentry : r.dentry ≡ some (vfs_of (file_inode s mode k))
  pub stored : table s' ≡ replace_inode r.parent (table s ++ (file_inode s mode k ∷ []))
  pub looked_up : lookup env r.parent name s' ≡ done (some (vfs_of (file_inode s mode k))) s'
  pub named :
      s'.cache parent.data_block_number
      ≡ with_record
          (s.cache parent.data_block_number)
          (256 * parent.file_size)
          (inodes_count s + 8)
          name
  pub marks : free_blocks s' ≡ unmasked (free_blocks s) k
  pub blocks : (b : ℕ) → 1 < b → b ≢ parent.data_block_number → s'.cache b ≡ s.cache b
  pub synced : ((b : ℕ) → s.disk b ≡ s.cache b) → (b : ℕ) → s'.disk b ≡ s'.cache b
  pub locks : s'.locks ≡ none_held
