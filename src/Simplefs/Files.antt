-- ===== src/Simplefs/Files.antt =====
-- simplefs/simple.c: reading and writing a regular file, which is one block. The VFS caps a length
-- below 2 ^ 31, so the `int nbytes` of the read does not wrap.
pub mod Contents
pub mod Reads
use lkm.Prelude.{◌||◌, ℕ, ◌+◌, List, [], length, take, min, leb}
use lkm.Prelude.Bytes.{load, store}
use lkm.Simplefs.Layout.{Inode}
use lkm.Simplefs.State.{
  branch, M, pure, ◌>>=◌, ◌>>◌, eintr, efault, Result, ok, err, read_bread, read_copy, write_bread,
  write_copy, write_lock, Env, inodes_mgmt, gets, lock_interruptible, unlock, modify_block,
  within_block, sync_block,
}
use lkm.Simplefs.Inodes.{inode_save}

-- What `read` leaves behind: its return value, the bytes put at `buf`, and `*ppos`.
pub record Read : Type 0 where
  pub ret : Result ℕ
  pub bytes : List ℕ
  pub pos : ℕ

-- The copy starts at the head of the block, whatever `*ppos` is.
unfoldable pub read : Env → Inode → ℕ → ℕ → M Read
read env inode len ppos =
    let nbytes = min inode.file_size len in
    let nothing : Read = record { ret = ok 0; bytes = []; pos = ppos } in
    branch (leb inode.file_size ppos || env.fails read_bread) (pure nothing) (do
      buffer ← gets (λ s. s.cache inode.data_block_number)
      branch (env.fails read_copy)
          (within_block (min env.copied nbytes) (
            pure (record {
              ret = err efault;
              bytes = load buffer 0 (min env.copied nbytes);
              pos = ppos;
            })))
          (within_block nbytes
            (pure (record { ret = ok nbytes; bytes = load buffer 0 nbytes; pos = ppos + nbytes }))))

-- What `write` leaves behind: its return value, the inode in memory, and `*ppos`.
pub record Wrote : Type 0 where
  pub ret : Result ℕ
  pub inode : Inode
  pub pos : ℕ

abbrev written : Result (Unit {0}) → ℕ → Result ℕ
written (ok _) len = ok len
written (err e) len = err e

-- The size is set to the new position; a failed save leaves it set in memory.
abbrev update_size : Env → Inode → ℕ → ℕ → M Wrote
update_size env inode len pos = do
  interrupted ← lock_interruptible env write_lock inodes_mgmt
  branch interrupted (pure (record { ret = err eintr; inode = inode; pos = pos })) (do
    let inode' = record inode { file_size = pos }
    r ← inode_save env inode'
    unlock inodes_mgmt
    pure (record { ret = written r len; inode = inode'; pos = pos }))

-- `buf` are the `len` bytes at user space. Nothing bounds `*ppos + len` by the block: a copy that
-- runs over its end is out of the buffer.
unfoldable pub write : Env → Inode → List ℕ → ℕ → M Wrote
write env inode buf ppos =
    let block = inode.data_block_number in
    branch (env.fails write_bread) (pure (record { ret = ok 0; inode = inode; pos = ppos })) (
      branch (env.fails write_copy)
        (within_block (ppos + min env.copied (length buf)) (do
          modify_block block (λ m. store m ppos (take env.copied buf))
          pure (record { ret = err efault; inode = inode; pos = ppos })))
        (within_block (ppos + length buf) (do
          modify_block block (λ m. store m ppos buf)
          sync_block block
          update_size env inode (length buf) (ppos + length buf))))
