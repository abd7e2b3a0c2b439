-- ===== src/Simplefs/Volume/Invariant.antt =====
-- simplefs/simple.c: what holds in every state of a file system in use.
use lkm.Prelude.{
  ℕ, ◌+◌, ◌≤◌, ◌≡◌, ◌≢◌, ap, ap₂, sym, ◌∙◌, ◌⊎◌, inl, inr, true, false, some, List, [], ◌∷◌, ◌++◌,
  length, ◌==◌, ==→eq, Bool-cases, subst, fun_ext, arith,
}
use lkm.Prelude.Bytes.{load64}
use lkm.Simplefs.Layout.{Inode}
use lkm.Simplefs.Layout.Laws.{Fits}
use lkm.Simplefs.State.{
  Fs, done, Env, free_blocks, inodes_count, write_bread, write_copy, write_lock, save_bread,
  save_lock,
}
use lkm.Simplefs.Super.{masked, unmasked}
use lkm.Simplefs.Super.Blocks.{Scanned, scan-Scanned, masked-unmasked, unmasked-le}
use lkm.Simplefs.Inodes.Table.{table, find_inode, find_inode-append_old}
use lkm.Simplefs.Directories.{Created, create_fs_object}
use lkm.Simplefs.Directories.Creation.{Quiet}
use lkm.Simplefs.Directories.Contract.{CanCreate, CreateEnds, file_inode}
use lkm.Simplefs.Directories.Lookup.{create_fs_object-CreateEnds}
use lkm.Simplefs.Files.{Wrote, write}
use lkm.Simplefs.Files.Contents.{WriteEnds, write-WriteEnds}
use lkm.Simplefs.Numbers.{
  Unique, AllBelow, numbers, numbers-replace_inode, created_numbers, grown-Numbered,
}
use lkm.Simplefs.Volume.{
  Step, creates, writes, Runs, begins, steps, mounts, Sound, Taken, blocks_of, remount,
}
use lkm.Simplefs.Volume.Blocks.{
  find_inode-number, blocks_of-append, blocks_of-replace_inode, Unique-append, Taken-NotIn,
  Taken-unmasked, Taken-append, Taken-find_inode,
}

-- What a creation that returned has done.
pub created_ends :
    (env : Env) (s : Fs) (parent : Inode) (name : List ℕ) (mode k : ℕ) (r : Created) (t : Fs)
    → Quiet env
    → CanCreate s parent name mode k
    → create_fs_object env parent name mode s ≡ done r t
    → CreateEnds env s parent name mode k r t
created_ends env s parent name mode k r t quiet can e =
    let (r', t', run, ends) = create_fs_object-CreateEnds env s parent name mode k quiet can in
    let p : r' ≡ r = cc (run, e) in
    let q : t' ≡ t = cc (run, e) in
    subst (λ r. CreateEnds env s parent name mode k r t) p
      (subst (λ t. CreateEnds env s parent name mode k r' t) q ends)

module _ (s : Fs) (parent : Inode) (name : List ℕ) (mode k : ℕ)
    (can : CanCreate s parent name mode k) where
  pub free_block : (2 ≤ k) × (k ≤ 31) × (masked (free_blocks s) k ≡ true)
  free_block =
      let h = subst (Scanned (free_blocks s) 2) can.block_free (scan-Scanned (free_blocks s)) in
      (h.0, h.1, h.2)

  pub parent-ne-new : parent.inode_no ≢ (file_inode s mode k).inode_no
  parent-ne-new e = can.listed (ap (λ ino. find_inode ino (table s)) e ∙ can.number_free)

  module _ (env : Env) (r : Created) (t : Fs) (ends : CreateEnds env s parent name mode k r t)
      (known : find_inode parent.inode_no (table s) ≡ some parent) where
    created_blocks : blocks_of (table t) ≡ blocks_of (table s) ++ (k ∷ [])
    created_blocks =
        ap blocks_of ends.stored
        ∙ blocks_of-replace_inode r.parent parent (table s ++ (file_inode s mode k ∷ []))
            (ap (λ p. find_inode p.inode_no (table s ++ (file_inode s mode k ∷ []))) ends.grown
              ∙ find_inode-append_old (table s) (file_inode s mode k) parent.inode_no parent-ne-new
              ∙ known)
            (ap (λ p. p.data_block_number) ends.grown)
        ∙ blocks_of-append (table s) (file_inode s mode k)

    pub created-Sound : Sound s → Sound t
    created-Sound h = record {
      numbered = grown-Numbered s t (created_numbers env s parent name mode k r t ends) h.numbered;
      apart =
          subst Unique (sym created_blocks)
            (Unique-append k _ (Taken-NotIn (free_blocks s) k _ free_block.2 h.taken) h.apart);
      taken = subst (Taken (free_blocks t)) (sym created_blocks) (
          subst (λ w. Taken w (blocks_of (table s) ++ (k ∷ []))) (sym ends.marks)
            (Taken-append (unmasked (free_blocks s) k) k _ free_block.0 free_block.1
              (masked-unmasked (free_blocks s) k) (Taken-unmasked (free_blocks s) k _ h.taken)));
      word_fits = omega (arith, ends.marks, unmasked-le (free_blocks s) k, h.word_fits);
      synced = ends.synced h.synced;
      unlocked = ends.locks;
    }

-- What a write that returned has done.
pub written_ends :
    (env : Env) (s : Fs) (n : ℕ) (inode : Inode) (buf : List ℕ) (ppos : ℕ) (w : Wrote) (t : Fs)
    → Sound s
    → Quiet env
    → find_inode n (table s) ≡ some inode
    → Fits inode
    → ppos + length buf ≤ 4096
    → write env inode buf ppos s ≡ done w t
    → WriteEnds s inode buf ppos w t
written_ends env s n inode buf ppos w t h quiet known f small e =
    let number = find_inode-number n (table s) inode known in
    let (w', t', run, ends) =
      write-WriteEnds env s inode buf ppos f small
        (omega (arith, Taken-find_inode (free_blocks s) n (table s) inode h.taken known))
        (ap (λ n. find_inode n (table s)) number ∙ known) (quiet write_bread) (quiet write_copy)
        (quiet write_lock) (quiet save_bread) (quiet save_lock)
        (ap (λ l. l.holds_inodes_mgmt) h.unlocked) (ap (λ l. l.holds_sb) h.unlocked) in
    let p : w' ≡ w = cc (run, e) in
    let q : t' ≡ t = cc (run, e) in
    subst (λ w. WriteEnds s inode buf ppos w t) p
      (subst (λ t. WriteEnds s inode buf ppos w' t) q ends)

module _ (s : Fs) (n : ℕ) (inode : Inode) (buf : List ℕ) (ppos : ℕ) (w : Wrote) (t : Fs)
    (known : find_inode n (table s) ≡ some inode) (above : 2 ≤ inode.data_block_number)
    (ends : WriteEnds s inode buf ppos w t) where
  -- The superblock stays as it is.
  pub superblock_kept : t.cache 0 ≡ s.cache 0
  superblock_kept = (ends.blocks 0 (omega arith) (omega arith)).0

  written_numbers : numbers (table t) ≡ numbers (table s)
  written_numbers = ap numbers ends.stored ∙ numbers-replace_inode w.inode (table s)

  written_blocks : blocks_of (table t) ≡ blocks_of (table s)
  written_blocks =
      ap blocks_of ends.stored
      ∙ blocks_of-replace_inode w.inode inode (table s)
          (ap (λ i. find_inode i.inode_no (table s)) ends.resized
            ∙ ap (λ n. find_inode n (table s)) (find_inode-number n (table s) inode known)
            ∙ known)
          (ap (λ i. i.data_block_number) ends.resized)

  written_synced : ((b : ℕ) → s.disk b ≡ s.cache b) → (b : ℕ) → t.disk b ≡ t.cache b
  written_synced h b = go (Bool-cases (b == 1)) (Bool-cases (b == inode.data_block_number))
    where
      go :
          (b == 1 ≡ true) ⊎ (b == 1 ≡ false)
          → (b == inode.data_block_number ≡ true) ⊎ (b == inode.data_block_number ≡ false)
          → t.disk b ≡ t.cache b
      go (inl store) y = subst (λ b. t.disk b ≡ t.cache b) (sym (==→eq b 1 store)) ends.store_synced
      go (inr x) (inl file) = subst (λ b. t.disk b ≡ t.cache b) (sym (==→eq b _ file)) ends.synced
      go (inr x) (inr y) =
          let (c, d) = ends.blocks b (λ e. ground arith) (λ e. ground arith) in d ∙ h b ∙ sym c

  pub written-Sound : Sound s → Sound t
  written-Sound h = record {
    numbered = (
      subst Unique (sym written_numbers) h.numbered.0,
      subst (λ m. AllBelow (load64 m 16 + 8) (numbers (table t))) (sym superblock_kept)
          (subst (AllBelow (inodes_count s + 8)) (sym written_numbers) h.numbered.1),
    );
    apart = subst Unique (sym written_blocks) h.apart;
    taken =
        subst (λ m. Taken (load64 m 24) (blocks_of (table t))) (sym superblock_kept)
          (subst (Taken (free_blocks s)) (sym written_blocks) h.taken);
    word_fits = omega (arith, ap (λ m. load64 m 24) superblock_kept, h.word_fits);
    synced = written_synced h.synced;
    unlocked = ends.locks ∙ h.unlocked;
  }

pub Step-Sound : {s t : Fs} {n : ℕ} → Step s n t → Sound s → Sound t
Step-Sound {s} {n = n} (creates env parent name mode k r t quiet known dir nul can e) h =
    let number = find_inode-number n (table s) parent known in
    created-Sound s parent name mode k can env r t
      (created_ends env s parent name mode k r t quiet can e)
      (ap (λ n. find_inode n (table s)) number ∙ known) h
Step-Sound {s} {n = n} (writes env inode buf ppos w t quiet known file f small e) h =
    written-Sound s n inode buf ppos w t known
      (Taken-find_inode (free_blocks s) n (table s) inode h.taken known)
      (written_ends env s n inode buf ppos w t h quiet known f small e) h

-- A mount changes nothing that the cache holds.
pub remount-eq : (s : Fs) → Sound s → remount s ≡ s
remount-eq s h =
    ap₂ (λ c l. record { cache = c; disk = s.disk; locks = l }) (fun_ext h.synced) (sym h.unlocked)

-- On a file system in use, whatever its creations and writes, with no signal and no failure, and
-- whatever the mounts between them, all of this holds in every state when it held in the first: no two
-- inodes have the same number or the same block, every block of an inode is marked as taken, the next
-- number is free, the device holds what the cache holds, and no mutex is held.
pub Runs-Sound : {Allowed : ℕ → Type 0} {s t : Fs} → Runs Allowed s t → Sound s → Sound t
Runs-Sound begins h = h
Runs-Sound (steps run a st) h = Step-Sound st (Runs-Sound run h)
Runs-Sound (mounts {t} run) h = let k = Runs-Sound run h in subst Sound (sym (remount-eq t k)) k
