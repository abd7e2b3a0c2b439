-- ===== src/Simplefs/Directories.antt =====
-- simplefs/simple.c: directories. A directory is a block of `struct simplefs_dir_record`, each a name
-- of 248 bytes and an inode number.
pub mod Names
pub mod Records
pub mod Entries
pub mod Creation
pub mod Contract
pub mod Lookup
use lkm.Prelude.{
  ℕ, zero, suc, ◌+◌, ◌-◌, ◌*◌, ◌%◌, ◌^◌, Bool, not, ◌&&◌, Option, none, some, List, [], ◌∷◌, ◌++◌,
  leb, ltb, min, ◌==◌, if◌then◌else◌,
}
use lkm.Prelude.Bits.{test_bit}
use lkm.Prelude.Bytes.{Mem, load, store, load64, store64}
use lkm.Simplefs.Layout.{
  Inode, dir_children_count, record_bytes, filename_maxlen, max_objects, start_ino, reserved_inodes,
  s_isdir, s_isreg,
}
use lkm.Simplefs.State.{
  branch, fail, null_pointer, M, pure, ◌>>=◌, ◌>>◌, Errno, eintr, enospc, enotdir, einval, enomem,
  Result, ok, err, iterate_bread, create_lock, create_new_inode, create_alloc, create_bread,
  create_mgmt_lock, iget_new_inode, lookup_bread, Env, children, inodes_mgmt, lock_interruptible,
  unlock, within_block, bread_or_bug, modify_block, sync_block, gets,
}
use lkm.Simplefs.Super.{get_a_freeblock, get_objects_count}
use lkm.Simplefs.Inodes.{inode_add, inode_save, get_inode}

-- The table of file operations that an inode gets.
pub data Fops : Type 0 where
  file_operations dir_operations no_operations : Fops

-- The fields of `struct inode` that the module sets; `i_private` is none where it is NULL.
pub record VfsInode : Type 0 where
  pub i_ino : ℕ
  pub i_mode : ℕ
  pub i_fop : Fops
  pub i_private : Option Inode

-- `S_IFDIR | mode`
abbrev pub or_ifdir : ℕ → ℕ
or_ifdir mode = if test_bit mode 14 then mode else mode + 2 ^ 14

-- What `iterate` leaves behind: its return value, the entries emitted, and `ctx->pos`.
pub record Listing : Type 0 where
  pub ret : Result (Unit {0})
  pub entries : List (List ℕ × ℕ)
  pub pos : ℕ

-- The loop over the records at `p`, with `n` left.
unfoldable pub emit_from : Mem → ℕ → ℕ → List (List ℕ × ℕ)
emit_from m p zero = []
emit_from m p (suc n) =
    (load m p filename_maxlen, load64 m (p + 248)) ∷ emit_from m (p + record_bytes) n

unfoldable pub iterate : Env → Inode → ℕ → M Listing
iterate env dir pos =
    let nothing : Result (Unit {0}) → Listing = λ r. record { ret = r; entries = []; pos = pos } in
    branch (not (pos == 0)) (pure (nothing (ok tt))) (
      branch (not (s_isdir dir.mode)) (pure (nothing (err enotdir))) (do
        bread_or_bug env iterate_bread
        m ← gets (λ s. s.cache dir.data_block_number)
        let n = dir_children_count dir
        within_block (record_bytes * n) (
            pure
              (record { ret = ok tt; entries = emit_from m 0 n; pos = pos + record_bytes * n }))))

-- `!strcmp(m + p, name)`; `name` has no NUL in it, and ends in one.
unfoldable pub str_eq : Mem → ℕ → List ℕ → Bool
str_eq m p [] = m p == 0
str_eq m p (c ∷ cs) = m p == c && str_eq m (p + 1) cs

-- `strcpy(m + p, name)`, with the NUL behind it and no bound.
abbrev pub strcpy : Mem → ℕ → List ℕ → Mem
strcpy m p name = store m p (name ++ 0 ∷ [])

abbrev pub fops_of_mode : ℕ → Fops
fops_of_mode mode =
    if s_isdir mode
    then dir_operations
    else (if s_isreg mode then file_operations else no_operations)

-- What a creation leaves behind: its return value, the directory's inode in memory, and the inode
-- that the name's dentry was given.
pub record Created : Type 0 where
  pub ret : Result (Unit {0})
  pub parent : Inode
  pub dentry : Option VfsInode

abbrev refuse : Inode → Errno → M Created
refuse parent e = do unlock children; pure (record { ret = err e; parent = parent; dentry = none })

-- The record behind the last one: the number first, then the name, of at most 255 bytes. Nothing
-- bounds the number of records by the block.
abbrev pub add_record : Inode → ℕ → List ℕ → M (Unit {0})
add_record parent ino name =
    let p = record_bytes * dir_children_count parent in
    within_block (p + record_bytes)
      (modify_block parent.data_block_number (λ m. strcpy (store64 m (p + 248) ino) p name))

abbrev saved : Inode → VfsInode → Result (Unit {0}) → M Created
saved parent inode (err e) = do
  unlock inodes_mgmt
  unlock children
  pure (record { ret = err e; parent = parent; dentry = none })
saved parent inode (ok _) = do
  unlock inodes_mgmt
  unlock children
  pure (record { ret = ok tt; parent = parent; dentry = some inode })

-- From the label where the new inode has its block: it is stored, and named in its directory.
unfoldable pub link_inode : Env → Inode → List ℕ → Inode → M Created
link_inode env parent name sfs_inode = do
  inode_add env sfs_inode
  bread_or_bug env create_bread
  add_record parent sfs_inode.inode_no name
  sync_block parent.data_block_number
  interrupted ← lock_interruptible env create_mgmt_lock inodes_mgmt
  branch interrupted (refuse parent eintr) (do
    let parent' = record parent { file_size = (dir_children_count parent + 1) % 2 ^ 64 }
    let inode : VfsInode = record {
      i_ino = sfs_inode.inode_no;
      i_mode = sfs_inode.mode;
      i_fop = fops_of_mode sfs_inode.mode;
      i_private = some sfs_inode;
    }
    saved parent' inode (← inode_save env parent'))

abbrev with_block : Env → Inode → List ℕ → ℕ → ℕ → Result ℕ → M Created
with_block env parent name mode count (err e) = refuse parent e
with_block env parent name mode count (ok block) = link_inode env parent name (record {
  mode = mode;
  inode_no = (count + start_ino - reserved_inodes + 1) % 2 ^ 64;
  data_block_number = block;
  file_size = 0;
})

-- The checks and allocations once the number of inodes is known.
unfoldable pub make_inode : Env → Inode → List ℕ → ℕ → Result ℕ → M Created
make_inode env parent name mode (err e) = refuse parent e
make_inode env parent name mode (ok count) = branch (leb max_objects count) (refuse parent enospc) (
    branch (not (s_isdir mode) && not (s_isreg mode)) (refuse parent einval) (
      branch (env.fails create_new_inode) (refuse parent enomem) (
        branch (env.fails create_alloc) (fail null_pointer)
          (do with_block env parent name mode count (← get_a_freeblock env)))))

unfoldable pub create_fs_object : Env → Inode → List ℕ → ℕ → M Created
create_fs_object env parent name mode = do
  interrupted ← lock_interruptible env create_lock children
  branch interrupted (pure (record { ret = err eintr; parent = parent; dentry = none }))
      (do make_inode env parent name mode (← get_objects_count env))

unfoldable pub mkdir : Env → Inode → List ℕ → ℕ → M Created
mkdir env dir name mode = create_fs_object env dir name (or_ifdir mode)

unfoldable pub create : Env → Inode → List ℕ → ℕ → M Created
create env dir name mode = create_fs_object env dir name mode

-- An inode that is not there is read through NULL.
abbrev new_vfs_inode : Env → ℕ → Option Inode → M VfsInode
new_vfs_inode env ino none = fail null_pointer
new_vfs_inode env ino (some i) = branch (env.fails iget_new_inode) (fail null_pointer) (
    pure (record { i_ino = ino; i_mode = i.mode; i_fop = fops_of_mode i.mode; i_private = some i }))

-- A number of 64 bits that is passed as an `int` and then made one of 64 bits again.
unfoldable pub as_int : ℕ → ℕ
as_int n = let w = n % 2 ^ 32 in if ltb w (2 ^ 31) then w else w + (2 ^ 64 - 2 ^ 32)

-- With the mode that `inode_init_owner` sets right behind it. The parameter is an `int`.
unfoldable pub iget : Env → ℕ → M VfsInode
iget env ino = do new_vfs_inode env (as_int ino) (← get_inode env (as_int ino))

-- The number in the first of the `n` records at `p` that has the name.
unfoldable pub find_record : Mem → ℕ → List ℕ → ℕ → Option ℕ
find_record m p name zero = none
find_record m p name (suc n) =
    let rest = find_record m (p + record_bytes) name n in
    if str_eq m p name then some (load64 m (p + 248)) else rest

-- How many records a block has room for.
abbrev pub block_records : ℕ
block_records = 16

-- With no such name among the records of the block, the loop goes on behind the block when there are more.
abbrev found_record : Env → ℕ → Option ℕ → M (Option VfsInode)
found_record env n none = within_block (record_bytes * n) (pure none)
found_record env n (some ino) = do pure (some (← iget env ino))

-- The inode that the dentry is given, if any. The function returns NULL either way.
unfoldable pub lookup : Env → Inode → List ℕ → M (Option VfsInode)
lookup env parent name =
    let n = dir_children_count parent in
    branch (env.fails lookup_bread) (fail null_pointer) (do
      found_record env n
          (← gets
            (λ s. find_record (s.cache parent.data_block_number) 0 name (min n block_records))))
