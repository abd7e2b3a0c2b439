-- ===== src/Simplefs/Interrupts.antt =====
-- simplefs/simple.c: the three mutexes under signals. A signal makes `mutex_lock_interruptible` fail.
use lkm.Prelude.{◌≤◌, length, ◌+◌, ℕ, ◌≡◌, refl, false, List, arith}
use lkm.Simplefs.Layout.{Inode}
use lkm.Simplefs.State.{Fs, Fault, bug_on, Run, done, fault, Result, Env, none_held}
use lkm.Simplefs.Inodes.{inode_search, inode_save}
use lkm.Simplefs.Files.{Wrote, write}

module _ (env : Env) (s : Fs) (i : Inode) (unheld : s.locks.holds_sb ≡ false) where
  -- However it ends, a save keeps the mutexes as they were.
  pub inode_save_locks :
      (r : Result (Unit {0})) (s' : Fs) → inode_save env i s ≡ done r s' → s'.locks ≡ s.locks
  unfolding inode_save inode_search
  inode_save_locks r s' e = ground arith

  pub inode_save_faults : (x : Fault) → inode_save env i s ≡ fault x → x ≡ bug_on
  unfolding inode_save inode_search
  inode_save_faults x e = ground arith

module _ (env : Env) (s : Fs) (i : Inode) (buf : List ℕ) (ppos : ℕ)
    (fits : ppos + length buf ≤ 4096) (unheld : s.locks ≡ none_held) where
  -- However it ends, a write releases what it took, and its only fault is a failed read.
  pub write_locks :
      (w : Wrote) (s' : Fs) → write env i buf ppos s ≡ done w s' → s'.locks ≡ none_held
  unfolding write
  write_locks w s' e = grind (arith, inode_save_locks)

  write_faults : (x : Fault) → write env i buf ppos s ≡ fault x → x ≡ bug_on
  unfolding write
  write_faults x e = grind (arith, inode_save_faults, inode_save_locks)

-- How a write may end: with no mutex held, or in the failed read of the inode store.
unfoldable pub Released : Run Wrote → Type 0
Released (done w s) = s.locks ≡ none_held
Released (fault x) = x ≡ bug_on

-- However a write within the block that starts with no mutex held ends, whatever fails and whatever signals come: it
-- holds no mutex afterwards, and its only fault is the failed read of the inode store.
pub write-keeps-locks :
    (env : Env) (s : Fs) (i : Inode) (buf : List ℕ) (ppos : ℕ)
    → ppos + length buf ≤ 4096
    → s.locks ≡ none_held
    → Released (write env i buf ppos s)
unfolding Released
write-keeps-locks env s i buf ppos fits unheld = by_run (write env i buf ppos s) refl
  where
    by_run : (r : Run Wrote) → write env i buf ppos s ≡ r → Released r
    by_run (done w s') e = write_locks env s i buf ppos fits unheld w s' e
    by_run (fault x) e = write_faults env s i buf ppos fits unheld x e
