-- ===== src/Simplefs/Volume/Refinement.antt =====
-- simplefs/simple.c: a file system in use, against the tree that it stands for.
pub mod Nodes
pub mod Creations
pub mod Writes
pub mod Reads
pub mod Lookups
use lkm.Prelude.{ℕ, ◌≡◌, sym, subst}
use lkm.Simplefs.State.{Fs}
use lkm.Simplefs.Volume.{Step, creates, writes, Runs, begins, steps, mounts, Sound}
use lkm.Simplefs.Volume.Invariant.{created_ends, written_ends, Runs-Sound, remount-eq}
use lkm.Simplefs.Volume.Tree.{TreeStep, TreeRuns, same, then_step, call_of, calls_of, tree}
use lkm.Simplefs.Volume.Refinement.Creations.{created-TreeStep}
use lkm.Simplefs.Volume.Refinement.Writes.{written-TreeStep}

Step-TreeStep :
    {s t : Fs} {n : ℕ} (st : Step s n t) → Sound s → TreeStep (tree s) (call_of st) (tree t)
unfolding call_of
Step-TreeStep {s} {n = n} (creates env parent name mode k r t quiet known d nul can e) h =
    created-TreeStep s t env n parent name mode k r known d nul can h
      (created_ends env s parent name mode k r t quiet can e)
Step-TreeStep {s} {n = n} (writes env inode buf ppos w t quiet known file f small e) h =
    written-TreeStep s t n inode buf ppos w known file h
      (written_ends env s n inode buf ppos w t h quiet known f small e)

-- When a file system is such that no two inodes have the same number or the same block, every
-- block of an inode is marked as taken, the next number is free, the device holds what the cache
-- holds, and no mutex is held (no image of mkfs.c is such, since its word of free blocks has the
-- blocks in use as free), it refines a tree of files and directories: through any creations and
-- writes, and any mounts between them, what its blocks stand for goes from the first state to the
-- last by the same creations and writes, in the same order. There a creation makes an empty file
-- or directory under a number that had none and puts its name behind the others of the directory,
-- a write keeps the bytes before its position and ends the file with its own, either leaves every
-- other node, and a mount leaves everything. Creations are with names of fewer than 248 bytes
-- that are new in their directory, in directories of the store with room for a record, with an
-- inode and a block free; writes are to regular files, within the block; no signal comes and no
-- call fails.
pub Runs-TreeRuns :
    {Allowed : ℕ → Type 0} {s t : Fs} (run : Runs Allowed s t)
    → Sound s
    → TreeRuns (tree s) (calls_of run) (tree t)
unfolding calls_of
Runs-TreeRuns begins h = same
Runs-TreeRuns (steps run a st) h =
    then_step (Runs-TreeRuns run h) (Step-TreeStep st (Runs-Sound run h))
Runs-TreeRuns {s} (mounts {t} run) h =
    subst (λ u. TreeRuns (tree s) (calls_of run) (tree u)) (sym (remount-eq t (Runs-Sound run h)))
      (Runs-TreeRuns run h)
