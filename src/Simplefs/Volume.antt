-- ===== src/Simplefs/Volume.antt =====
-- simplefs/simple.c: a file system in use. Its operations come one after the other, through the tables
-- of operations of simple.c; between two of them it may be mounted again.
pub mod Blocks
pub mod Invariant
pub mod Persistence
pub mod Clash
pub mod Names
pub mod Tree
pub mod Refinement
pub mod Sample
mod Tests
use lkm.Prelude.{NoNul, ℕ, ◌+◌, ◌^◌, ◌≤◌, ◌<◌, ◌≡◌, Bool, true, false, some, List, [], ◌∷◌, length}
use lkm.Simplefs.Layout.{Inode, s_isdir, s_isreg}
use lkm.Simplefs.Layout.Laws.{Fits}
use lkm.Simplefs.State.{Fs, done, Env, none_held, free_blocks}
use lkm.Simplefs.Super.{masked}
use lkm.Simplefs.Inodes.Table.{table, find_inode}
use lkm.Simplefs.Directories.{Created, create_fs_object}
use lkm.Simplefs.Directories.Creation.{Quiet}
use lkm.Simplefs.Directories.Contract.{CanCreate}
use lkm.Simplefs.Files.{Wrote, write}
use lkm.Simplefs.Numbers.{Numbered, Unique}

-- A creation or a write with no signal and no failure, at the inode of number `n`: the creation in this
-- directory, or the write to this regular file, as the tables of operations have them. The inode is the one
-- that the store has.
pub data Step (s : Fs) (n : ℕ) : Fs → Type 0 where
  creates :
      (env : Env) (parent : Inode) (name : List ℕ) (mode k : ℕ) (r : Created) (t : Fs)
      → Quiet env
      → find_inode n (table s) ≡ some parent
      → s_isdir parent.mode ≡ true
      → NoNul name
      → CanCreate s parent name mode k
      → create_fs_object env parent name mode s ≡ done r t
      → Step s n t
  writes :
      (env : Env) (inode : Inode) (buf : List ℕ) (ppos : ℕ) (w : Wrote) (t : Fs)
      → Quiet env
      → find_inode n (table s) ≡ some inode
      → s_isreg inode.mode ≡ true
      → Fits inode
      → ppos + length buf ≤ 4096
      → write env inode buf ppos s ≡ done w t
      → Step s n t

-- A loss of power and a mount: the device is all that is left. Without one, the unmounting writes the
-- cached blocks to the device first, which changes nothing where the device holds them.
abbrev pub remount : Fs → Fs
remount s = record { cache = s.disk; disk = s.disk; locks = none_held }

-- Any number of steps at inodes that are allowed, and of mounts.
pub data Runs (Allowed : ℕ → Type 0) (s : Fs) : Fs → Type 0 where
  begins : Runs Allowed s s
  steps : {t u : Fs} {n : ℕ} → Runs Allowed s t → Allowed n → Step t n u → Runs Allowed s u
  mounts : {t : Fs} → Runs Allowed s t → Runs Allowed s (remount t)

unfoldable pub blocks_of : List Inode → List ℕ
blocks_of [] = []
blocks_of (i ∷ is) = i.data_block_number ∷ blocks_of is

-- Every block is one of those that the search for a free block goes through, and is marked.
unfoldable pub Taken : ℕ → List ℕ → Type 0
Taken w [] = Unit {0}
Taken w (b ∷ bs) = (2 ≤ b) × (b ≤ 31) × (masked w b ≡ false) × Taken w bs

-- No two inodes have the same number or the same block, the next number is free, the blocks are
-- marked, the device holds what the cache holds, and no mutex is held.
pub record Sound (s : Fs) : Type 0 where
  pub numbered : Numbered s
  pub apart : Unique (blocks_of (table s))
  pub taken : Taken (free_blocks s) (blocks_of (table s))
  pub word_fits : free_blocks s < 2 ^ 64
  pub synced : (b : ℕ) → s.disk b ≡ s.cache b
  pub unlocked : s.locks ≡ none_held
