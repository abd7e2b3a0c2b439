-- ===== src/Simplefs/Directories/Creation.antt =====
-- simplefs/simple.c, `simplefs_create_fs_object`: the states that a creation goes through.
use lkm.Prelude.{ℕ, ◌+◌, ◌-◌, ◌*◌, ◌%◌, ◌^◌, ◌<◌, ◌≡◌, refl, true, false, some, List, ◌||◌, arith}
use lkm.Simplefs.Layout.{Inode, s_isdir, s_isreg}
use lkm.Simplefs.State.{
  Fs, Locks, done, ok, Env, none_held, update, inodes_count, free_blocks, Call, create_lock,
  create_new_inode, create_alloc, create_bread, create_mgmt_lock, count_lock, freeblock_lock,
  sync_bread, add_mgmt_lock, add_bread, add_sb_lock,
}
use lkm.Simplefs.Super.{get_objects_count, scan, found}
use lkm.Simplefs.Super.Blocks.{taken, marked_state}
use lkm.Simplefs.Inodes.{inode_save}
use lkm.Simplefs.Inodes.Effects.{added_state, inode_add-done}
use lkm.Simplefs.Directories.{VfsInode, fops_of_mode, link_inode, make_inode, create_fs_object}
use lkm.Simplefs.Directories.Records.{with_record}

-- No call of the kernel fails.
abbrev pub Quiet : Env → Type 0
Quiet env = (c : Call) → env.fails c ≡ false

abbrev pub with_locks : Fs → Locks → Fs
with_locks s l = record s { locks = l }

-- A directory with one more child.
abbrev pub one_more : Inode → Inode
one_more i = record i { file_size = (i.file_size + 1) % 2 ^ 64 }

abbrev pub vfs_of : Inode → VfsInode
vfs_of i = record {
  i_ino = i.inode_no;
  i_mode = i.mode;
  i_fop = fops_of_mode i.mode;
  i_private = some i;
}

-- The directory's block with the new record, in the cache and on the device.
abbrev pub named_state : Fs → Inode → List ℕ → ℕ → Fs
named_state s parent name ino =
    let b = parent.data_block_number in
    let m = with_record (s.cache b) (256 * parent.file_size) ino name in
    record s {
      cache = update s.cache b m;
      disk = update s.disk b m;
      locks = record (s.locks) { holds_inodes_mgmt = true };
    }

-- The struct of the new inode, in block `k`.
abbrev pub new_inode : ℕ → ℕ → ℕ → Inode
new_inode mode count k = record {
  mode = mode;
  inode_no = (count + 10 - 3 + 1) % 2 ^ 64;
  data_block_number = k;
  file_size = 0;
}

-- The state in which the new inode is added to the store.
abbrev pub block_state : Fs → ℕ → Fs
block_state s k = marked_state (with_locks s (record none_held { holds_children = true })) k

module _ (env : Env) (quiet : Quiet env) (parent : Inode) (name : List ℕ)
    (room_left : parent.file_size < 16) where
  pub link_inode-done :
      (i : Inode) (s s₂ : Fs)
      → s.locks ≡ record none_held { holds_children = true }
      → inode_save env (one_more parent) (named_state (added_state s i) parent name i.inode_no)
        ≡ done (ok tt) s₂
      → s₂.locks ≡ record none_held { holds_children = true; holds_inodes_mgmt = true }
      → link_inode env parent name i s
        ≡ done
            (record { ret = ok tt; parent = one_more parent; dentry = some (vfs_of i) })
            (with_locks s₂ none_held)
  unfolding link_inode
  link_inode-done i s s₂ l e l₂ = ground (
    arith,
    quiet create_bread,
    quiet create_mgmt_lock,
    inode_add-done env s i (quiet add_mgmt_lock) (quiet add_bread) (quiet add_sb_lock)
        (quiet sync_bread),
  )

  pub create_fs_object-done :
      (s s₂ : Fs) (mode k : ℕ)
      → s.locks ≡ none_held
      → inodes_count s < 64
      → (s_isdir mode || s_isreg mode) ≡ true
      → scan (free_blocks s) ≡ found k
      → let i = new_inode mode (inodes_count s) k in
        inode_save env
            (one_more parent)
            (named_state (added_state (block_state s k) i) parent name i.inode_no)
          ≡ done (ok tt) s₂
        → s₂.locks ≡ record none_held { holds_children = true; holds_inodes_mgmt = true }
        → create_fs_object env parent name mode s
          ≡ done
              (record { ret = ok tt; parent = one_more parent; dentry = some (vfs_of i) })
              (with_locks s₂ none_held)
  unfolding create_fs_object make_inode get_objects_count
  create_fs_object-done s s₂ mode k l room kind free e l₂ = ground (
    arith,
    quiet create_lock,
    quiet count_lock,
    quiet create_new_inode,
    quiet create_alloc,
    taken env (with_locks s (record none_held { holds_children = true })) k (quiet freeblock_lock)
        (quiet sync_bread) refl free,
    link_inode-done (new_inode mode (inodes_count s) k) (block_state s k) s₂ refl e l₂,
  )
