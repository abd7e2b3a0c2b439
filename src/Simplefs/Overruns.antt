-- ===== src/Simplefs/Overruns.antt =====
-- simplefs/simple.c: what runs over the end of a block, since the code tests no bound.
use lkm.Prelude.{ℕ, ◌<◌, ◌≤◌, ◌≡◌, refl, true, List, ◌||◌, arith}
use lkm.Simplefs.Layout.{Inode, s_isdir, s_isreg}
use lkm.Simplefs.State.{
  Fs, out_of_block, fault, Env, none_held, inodes_count, free_blocks, create_lock, create_new_inode,
  create_alloc, create_bread, count_lock, freeblock_lock, sync_bread, add_mgmt_lock, add_bread,
  add_sb_lock,
}
use lkm.Simplefs.Super.{get_objects_count, scan, found}
use lkm.Simplefs.Super.Blocks.{taken}
use lkm.Simplefs.Inodes.Effects.{inode_add-done}
use lkm.Simplefs.Directories.{link_inode, make_inode, create_fs_object}
use lkm.Simplefs.Directories.Creation.{Quiet, with_locks, new_inode, block_state}

module _ (env : Env) (quiet : Quiet env) (parent : Inode) (name : List ℕ)
    (full : 16 ≤ parent.file_size) where
  link_inode_overruns :
      (i : Inode) (s : Fs)
      → s.locks ≡ record none_held { holds_children = true }
      → link_inode env parent name i s ≡ fault out_of_block
  unfolding link_inode
  link_inode_overruns i s l = ground (
    arith,
    quiet create_bread,
    inode_add-done env s i (quiet add_mgmt_lock) (quiet add_bread) (quiet add_sb_lock)
        (quiet sync_bread),
  )

  -- An undisturbed creation in a directory of 16 or more children, with room for an inode and a free
  -- block, writes its record behind the directory's block.
  pub create_fs_object_overruns :
      (s : Fs) (mode k : ℕ)
      → s.locks ≡ none_held
      → inodes_count s < 64
      → (s_isdir mode || s_isreg mode) ≡ true
      → scan (free_blocks s) ≡ found k
      → create_fs_object env parent name mode s ≡ fault out_of_block
  unfolding create_fs_object make_inode get_objects_count
  create_fs_object_overruns s mode k l room kind free = ground (
    arith,
    quiet create_lock,
    quiet count_lock,
    quiet create_new_inode,
    quiet create_alloc,
    taken env (with_locks s (record none_held { holds_children = true })) k (quiet freeblock_lock)
        (quiet sync_bread) refl free,
    link_inode_overruns (new_inode mode (inodes_count s) k) (block_state s k) refl,
  )
