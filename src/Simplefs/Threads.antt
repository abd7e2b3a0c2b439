-- ===== src/Simplefs/Threads.antt =====
-- simplefs/simple.c: creations and writes of any number of threads at once, under the three mutexes. No
-- signal comes and no call of the kernel fails. What a thread does between two calls of a mutex is one
-- step; copies to a file's block, which no mutex guards, may come between any two steps of others.
pub mod Mutexes
pub mod Owners
pub mod Progress
pub mod Ends
pub mod Store
pub mod Keeps
pub mod Saves
pub mod Sections
pub mod Safety
mod Tests
use lkm.Prelude.{
  ℕ, ◌+◌, ◌*◌, ◌%◌, ◌^◌, ◌<◌, ◌≡◌, ◌≢◌, Bool, true, false, not, ◌&&◌, ◌||◌, Option, none, some,
  List, length, leb, ltb, ◌==◌, put, if◌then◌else◌,
}
use lkm.Prelude.Bytes.{store}
use lkm.Simplefs.Layout.{Inode, max_objects, record_bytes, s_isdir, s_isreg}
use lkm.Simplefs.State.{Fs, Lock, children, inodes_mgmt, sb_lock, inodes_count, free_blocks, update}
use lkm.Simplefs.Super.{Scan, found, exhausted, wide, scan}
use lkm.Simplefs.Super.Blocks.{marked_state}
use lkm.Simplefs.Inodes.{inode_search}
use lkm.Simplefs.Inodes.Table.{table, find_inode}
use lkm.Simplefs.Inodes.Effects.{added_state, saved_state}
use lkm.Simplefs.Directories.Records.{with_record}
use lkm.Simplefs.Directories.Creation.{new_inode, one_more}

-- `dir->i_ino`, the dentry's name and `mode`
pub record Creation : Type 0 where
  pub dir : ℕ
  pub name : List ℕ
  pub mode : ℕ

-- The file's number, `buf` and `*ppos`
pub record Writing : Type 0 where
  pub file : ℕ
  pub buf : List ℕ
  pub ppos : ℕ

-- Where a thread is: outside of every call, at the calls of `simplefs_create_fs_object` in their order, or
-- at those of `simplefs_write`. Both save an inode by its number; the flag tells that it is a creation.
pub data Pc : Type 0 where
  idle : Pc
  enter count counting : Creation → Pc
  counted check search searching : Creation → ℕ → Pc
  searched : Creation → ℕ → Option ℕ → Pc
  add add_super adding added added_super name_it : Creation → Inode → Pc
  grow growing : Creation → Pc
  save saving saved : Bool → ℕ → Pc
  leave_mgmt : Bool → Pc
  leave : Pc
  fill size sizing : Writing → Pc

-- What the threads share: the cached blocks, and the inodes in memory by their numbers, each the
-- `i_private` of one `struct inode`.
pub record Shared : Type 0 where
  pub fs : Fs
  pub inodes : ℕ → Inode

-- What a thread does next.
pub data Act : Type 0 where
  rest : Act
  undefined : Act
  acquire : Lock → Pc → Act
  release : Lock → Pc → Act
  compute : Shared → Pc → Act

-- The loop over the bits, and the mark.
abbrev mark : Shared → Creation → ℕ → Scan → Act
mark m c n (found k) = compute (record m { fs = marked_state m.fs k }) (searched c n (some k))
mark m c n exhausted = compute m (searched c n none)
mark m c n wide = undefined

-- The record behind the last one, and the block to the device.
abbrev pub record_named : Fs → Inode → List ℕ → ℕ → Fs
record_named s parent name ino =
    let b = parent.data_block_number in
    let block = with_record (s.cache b) (record_bytes * parent.file_size) ino name in
    record s { cache = update s.cache b block; disk = update s.disk b block }

-- The bytes of the user, and the block to the device.
abbrev pub filled : Fs → Inode → List ℕ → ℕ → Fs
filled s i buf ppos =
    let b = i.data_block_number in
    let block = store (s.cache b) ppos buf in
    record s { cache = update s.cache b block; disk = update s.disk b block }

-- The search of the inode store, and the copy into the slot.
abbrev pub save_in : Fs → Inode → Option ℕ → Fs
save_in s i none = s
save_in s i (some p) = saved_state s i p

unfoldable pub act : Shared → Pc → Act
act m idle = rest
act m (enter c) = acquire children (count c)
act m (count c) = acquire inodes_mgmt (counting c)
act m (counting c) = compute m (counted c (inodes_count m.fs))
act m (counted c n) = release inodes_mgmt (check c n)
act m (check c n) = compute m (
    if leb max_objects n || (not (s_isdir c.mode) && not (s_isreg c.mode))
    then leave
    else search c n)
act m (search c n) = acquire sb_lock (searching c n)
act m (searching c n) = mark m c n (scan (free_blocks m.fs))
act m (searched c n none) = release sb_lock leave
act m (searched c n (some k)) = release sb_lock (add c (new_inode c.mode n k))
act m (add c i) = acquire inodes_mgmt (add_super c i)
act m (add_super c i) = acquire sb_lock (adding c i)
act m (adding c i) =
    compute (record { fs = added_state m.fs i; inodes = put m.inodes i.inode_no i }) (added c i)
act m (added c i) = release sb_lock (added_super c i)
act m (added_super c i) = release inodes_mgmt (name_it c i)
act m (name_it c i) =
    let parent = m.inodes c.dir in
    if ltb 4096 (record_bytes * parent.file_size + record_bytes)
    then undefined
    else compute (record m { fs = record_named m.fs parent c.name i.inode_no }) (grow c)
act m (grow c) = acquire inodes_mgmt (growing c)
act m (growing c) =
    compute (record m { inodes = put m.inodes c.dir (one_more (m.inodes c.dir)) }) (save true c.dir)
act m (save b d) = acquire sb_lock (saving b d)
act m (saving b d) =
    let i = m.inodes d in
    compute (record m { fs = save_in m.fs i (inode_search m.fs i) }) (saved b d)
act m (saved b d) = release sb_lock (leave_mgmt b)
act m (leave_mgmt true) = release inodes_mgmt leave
act m (leave_mgmt false) = release inodes_mgmt idle
act m leave = release children idle
act m (fill w) =
    if ltb 4096 (w.ppos + length w.buf)
    then undefined
    else compute (record m { fs = filled m.fs (m.inodes w.file) w.buf w.ppos }) (size w)
act m (size w) = acquire inodes_mgmt (sizing w)
act m (sizing w) =
    compute
      (record m {
        inodes =
            put m.inodes w.file (record (m.inodes w.file) { file_size = w.ppos + length w.buf });
      })
      (save false w.file)

-- The owners of the mutexes, by thread, and the threads.
pub record State : Type 0 where
  pub mem : Shared
  pub owner : Lock → Option ℕ
  pub pc : ℕ → Pc

abbrev pub same_lock : Lock → Lock → Bool
same_lock children children = true
same_lock children _ = false
same_lock inodes_mgmt inodes_mgmt = true
same_lock inodes_mgmt _ = false
same_lock sb_lock sb_lock = true
same_lock sb_lock _ = false

abbrev pub set_owner : (Lock → Option ℕ) → Lock → Option ℕ → Lock → Option ℕ
set_owner o l x l' = if same_lock l l' then x else o l'

-- A step of thread `j` within its call. A mutex that is not free keeps it waiting.
pub data Go (s : State) (j : ℕ) : State → Type 0 where
  acquires :
      (l : Lock) (p : Pc)
      → act s.mem (s.pc j) ≡ acquire l p
      → s.owner l ≡ none
      → Go s j (record s { owner = set_owner s.owner l (some j); pc = put s.pc j p })
  releases :
      (l : Lock) (p : Pc)
      → act s.mem (s.pc j) ≡ release l p
      → Go s j (record s { owner = set_owner s.owner l none; pc = put s.pc j p })
  computes :
      (m : Shared) (p : Pc)
      → act s.mem (s.pc j) ≡ compute m p
      → Go s j (record s { mem = m; pc = put s.pc j p })

-- A thread may begin a creation in a directory of the store, or a write to an inode of it.
pub data Step (s : State) : State → Type 0 where
  goes : {t : State} (j : ℕ) → Go s j t → Step s t
  begins_creation :
      (j : ℕ) (c : Creation)
      → s.pc j ≡ idle
      → find_inode c.dir (table s.mem.fs) ≢ none
      → c.mode < 2 ^ 32
      → Step s (record s { pc = put s.pc j (enter c) })
  begins_write :
      (j : ℕ) (w : Writing)
      → s.pc j ≡ idle
      → find_inode w.file (table s.mem.fs) ≢ none
      → Step s (record s { pc = put s.pc j (fill w) })

-- A mounted file system with no thread in a call.
abbrev pub start : Shared → State
start m = record { mem = m; owner = λ l. none; pc = λ j. idle }

pub data Reachable (m : Shared) : State → Type 0 where
  at_start : Reachable m (start m)
  after : {s t : State} → Reachable m s → Step s t → Reachable m t
