-- ===== src/Simplefs/Inodes.antt =====
-- simplefs/simple.c: the inode store, block 1, as an array of `struct simplefs_inode`.
pub mod Table
pub mod Effects
use lkm.Prelude.{ℕ, zero, suc, ◌+◌, ◌*◌, ◌%◌, ◌^◌, Option, none, some, ◌==◌, if◌then◌else◌}
use lkm.Prelude.Bytes.{Mem, load64}
use lkm.Simplefs.Layout.{Inode, inode_bytes, inodestore_block_number, read_inode, write_inode}
use lkm.Simplefs.State.{
  branch, fail, Fs, M, pure, null_pointer, ◌>>=◌, ◌>>◌, eintr, eio, Result, ok, err, add_mgmt_lock,
  add_bread, add_sb_lock, get_bread, get_alloc, save_bread, save_lock, Env, sb_lock, inodes_mgmt,
  lock_interruptible, unlock, bread_or_bug, modify_block, sync_block, gets, inodes_count,
  set_inodes_count,
}
use lkm.Simplefs.Super.{sb_sync}

abbrev pub inode_store : Fs → Mem
inode_store s = s.cache inodestore_block_number

-- The `while` loop of the search at `start`, with `n` rounds before `count` reaches the number of
-- inodes. The slot behind the last inode is compared too.
unfoldable pub search_from : Mem → ℕ → ℕ → ℕ → Option ℕ
search_from m start ino zero = if load64 m (start + 8) == ino then some start else none
search_from m start ino (suc n) =
    let rest = search_from m (start + inode_bytes) ino n in
    if load64 m (start + 8) == ino then some start else rest

-- The place of the inode with the number of `search`; the pointers go into the inode store.
unfoldable pub inode_search : Fs → Inode → Option ℕ
inode_search s search = search_from (inode_store s) 0 search.inode_no (inodes_count s)

-- Adds the inode behind the last one. Either interrupted lock returns at once.
unfoldable pub inode_add : Env → Inode → M (Unit {0})
unfolding sb_sync
inode_add env inode = do
  interrupted ← lock_interruptible env add_mgmt_lock inodes_mgmt
  branch interrupted (pure tt) (do
    bread_or_bug env add_bread
    interrupted' ← lock_interruptible env add_sb_lock sb_lock
    branch interrupted' (pure tt) (do
      count ← gets inodes_count
      modify_block inodestore_block_number (λ m. write_inode m (inode_bytes * count) inode)
      count' ← gets inodes_count
      set_inodes_count ((count' + 1) % 2 ^ 64)
      sb_sync env
      unlock sb_lock
      unlock inodes_mgmt))

-- The loop of `simplefs_get_inode` at `p`, with `n` rounds left.
unfoldable pub get_from : Mem → ℕ → ℕ → ℕ → Option Inode
get_from m p ino zero = none
get_from m p ino (suc n) =
    let rest = get_from m (p + inode_bytes) ino n in
    if load64 m (p + 8) == ino then some (read_inode m p) else rest

-- The allocation of the copy is not checked.
abbrev copy_inode : Env → Option Inode → M (Option Inode)
copy_inode env none = pure none
copy_inode env (some i) = branch (env.fails get_alloc) (fail null_pointer) (pure (some i))

unfoldable pub get_inode : Env → ℕ → M (Option Inode)
get_inode env ino = do
  bread_or_bug env get_bread
  copy_inode env (← gets (λ s. get_from (inode_store s) 0 ino (inodes_count s)))

abbrev save_at : Inode → Option ℕ → M (Result (Unit {0}))
save_at inode (some p) = do
  modify_block inodestore_block_number (λ m. write_inode m p inode)
  sync_block inodestore_block_number
  unlock sb_lock
  pure (ok tt)
save_at inode none = do unlock sb_lock; pure (err eio)

-- Writes an inode back into its slot.
unfoldable pub inode_save : Env → Inode → M (Result (Unit {0}))
inode_save env inode = do
  bread_or_bug env save_bread
  interrupted ← lock_interruptible env save_lock sb_lock
  branch interrupted (pure (err eintr)) (do save_at inode (← gets (λ s. inode_search s inode)))
