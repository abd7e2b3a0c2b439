-- ===== src/Simplefs/Volume/Persistence.antt =====
-- simplefs/simple.c: what the operations on other inodes leave of a file or a directory.
use lkm.Prelude.{
  true, ℕ, ◌≤◌, ◌<◌, ◌≡◌, ◌≢◌, refl, ap, sym, ◌∙◌, some, List, length, false, subst, arith,
}
use lkm.Simplefs.Layout.{Inode, s_isreg}
use lkm.Simplefs.Layout.Laws.{Fits}
use lkm.Simplefs.State.{Fs, done, Env, free_blocks, ok, get_bread, get_alloc, read_bread, read_copy}
use lkm.Simplefs.Inodes.{get_inode}
use lkm.Simplefs.Inodes.Table.{
  table, find_inode, find_inode-append_old, find_inode-replace, find_inode-replace_ne,
}
use lkm.Simplefs.Inodes.Effects.{get_inode-eq-find}
use lkm.Simplefs.Directories.{Listing, iterate}
use lkm.Simplefs.Directories.Creation.{Quiet}
use lkm.Simplefs.Directories.Contract.{file_inode}
use lkm.Simplefs.Files.{Read, read, Wrote, write}
use lkm.Simplefs.Files.Contents.{WriteEnds}
use lkm.Simplefs.Files.Reads.{read_written}
use lkm.Simplefs.Volume.{Step, creates, writes, Runs, begins, steps, mounts, Sound}
use lkm.Simplefs.Volume.Blocks.{find_inode-number, Taken-find_inode, Unique-blocks}
use lkm.Simplefs.Volume.Invariant.{created_ends, written_ends, Step-Sound, Runs-Sound, remount-eq}

-- The inode of number `j` is in the store as before, and its block is as before.
pub record Keeps (j : ℕ) (i : Inode) (s t : Fs) : Type 0 where
  pub listed : find_inode j (table t) ≡ some i
  pub block : t.cache i.data_block_number ≡ s.cache i.data_block_number

pub Step-Keeps :
    {s t : Fs} {n : ℕ} (j : ℕ) (i : Inode)
    → Step s n t
    → n ≢ j
    → Sound s
    → find_inode j (table s) ≡ some i
    → Keeps j i s t
Step-Keeps {s} {n = n} j i (creates env parent name mode k r t quiet known dir nul can e) ne h e_j =
    let ends = created_ends env s parent name mode k r t quiet can e in
    let number = find_inode-number n (table s) parent known in
    let at_parent : r.parent.inode_no ≡ n = ap (λ p. p.inode_no) ends.grown ∙ number in
    record {
      listed =
          ap (find_inode j) ends.stored
          ∙ find_inode-replace_ne _ r.parent j (λ q. ne (sym (q ∙ at_parent)))
          ∙ find_inode-append_old (table s) (file_inode s mode k) j
              (λ q. cc (e_j, can.number_free, ap (λ m. find_inode m (table s)) q))
          ∙ e_j;
      block =
          ends.blocks i.data_block_number
            (omega (arith, Taken-find_inode (free_blocks s) j (table s) i h.taken e_j))
            (λ q. Unique-blocks n j (table s) parent i h.apart ne known e_j (sym q));
    }
Step-Keeps {s} {n = n} j i (writes env inode buf ppos w t quiet known file f small e) ne h e_j =
    let ends = written_ends env s n inode buf ppos w t h quiet known f small e in
    let number = find_inode-number n (table s) inode known in
    let at_file : w.inode.inode_no ≡ n = ap (λ p. p.inode_no) ends.resized ∙ number in
    let above = Taken-find_inode (free_blocks s) j (table s) i h.taken e_j in
    record {
      listed =
          ap (find_inode j) ends.stored
          ∙ find_inode-replace_ne _ w.inode j (λ q. ne (sym (q ∙ at_file)))
          ∙ e_j;
      block =
          (ends.blocks i.data_block_number (omega arith)
            (λ q. Unique-blocks n j (table s) inode i h.apart ne known e_j (sym q))).0;
    }

pub Runs-Keeps :
    {s : Fs} (j : ℕ) (i : Inode) {t : Fs}
    → Runs (λ n. n ≢ j) s t
    → Sound s
    → find_inode j (table s) ≡ some i
    → Keeps j i s t
Runs-Keeps j i begins h e = record { listed = e; block = refl }
Runs-Keeps j i (steps {t} {u} run ne st) h e =
    let k = Runs-Keeps j i run h e in
    let l = Step-Keeps j i st ne (Runs-Sound run h) k.listed in
    record { listed = l.listed; block = l.block ∙ k.block }
Runs-Keeps {s} j i (mounts {t} run) h e =
    subst (Keeps j i s) (sym (remount-eq t (Runs-Sound run h))) (Runs-Keeps j i run h e)

read_congr :
    (env : Env) (s t : Fs) (i : Inode) (len p : ℕ) (r : Read)
    → t.cache i.data_block_number ≡ s.cache i.data_block_number
    → read env i len p s ≡ done r s
    → read env i len p t ≡ done r t
unfolding read
read_congr env s t i len p r c e = ground arith

iterate_congr :
    (env : Env) (s t : Fs) (i : Inode) (p : ℕ) (l : Listing)
    → t.cache i.data_block_number ≡ s.cache i.data_block_number
    → iterate env i p s ≡ done l s
    → iterate env i p t ≡ done l t
unfolding iterate
iterate_congr env s t i p l c e = ground arith

-- When a file system is such that no two inodes have the same number or the same block, every
-- block of an inode is marked as taken, the next number is free, the device holds what the cache
-- holds, and no mutex is held (no image of mkfs.c is such, since its word of free blocks has the
-- blocks in use as free): after any creations in other directories, writes to other files and
-- mounts, an inode of the store is found as it was, and a read of it and a listing that went
-- through before give what they gave, at every position and with every failure of the reading.
-- Creations are with names of fewer than 248 bytes that are new in their directory, in
-- directories of the store with room for a record, with an inode and a block free; writes are to
-- regular files, within the block; no signal comes and no call fails.
pub Runs-same :
    (s t : Fs) (j : ℕ) (i : Inode) (env any : Env) (len p q : ℕ) (r : Read) (l : Listing)
    → Runs (λ n. n ≢ j) s t
    → Sound s
    → find_inode j (table s) ≡ some i
    → env.fails get_bread ≡ false
    → env.fails get_alloc ≡ false
    → read any i len p s ≡ done r s
    → iterate any i q s ≡ done l s
    → (get_inode env j t ≡ done (some i) t)
      × (read any i len p t ≡ done r t)
      × (iterate any i q t ≡ done l t)
Runs-same s t j i env any len p q r l run h e q₁ q₂ reads lists =
    let k = Runs-Keeps j i run h e in
    (
      get_inode-eq-find env t j q₁ q₂ ∙ ap (λ f. done f t) k.listed,
      read_congr any s t i len p r k.block reads,
      iterate_congr any s t i q l k.block lists,
    )

-- A file that has been written is in the store with its new size.
pub written_listed :
    (s t : Fs) (n : ℕ) (i : Inode) (buf : List ℕ) (ppos : ℕ) (w : Wrote)
    → find_inode n (table s) ≡ some i
    → WriteEnds s i buf ppos w t
    → find_inode n (table t) ≡ some w.inode
written_listed s t n i buf ppos w e ends =
    let same : w.inode.inode_no ≡ n =
      ap (λ i. i.inode_no) ends.resized ∙ find_inode-number n (table s) i e in
    ap (λ m. find_inode m (table t)) (sym same)
    ∙ ap (find_inode w.inode.inode_no) ends.stored
    ∙ find_inode-replace (table s) w.inode (ap (λ m. find_inode m (table s)) same ∙ e)

-- When a file system is such that no two inodes have the same number or the same block, every
-- block of an inode is marked as taken, the next number is free, the device holds what the cache
-- holds, and no mutex is held (no image of mkfs.c is such, since its word of free blocks has the
-- blocks in use as free), a write of 1 to 4096 bytes at the head of a regular file is followed by
-- any creations, writes to other files and mounts: after them an inode of this number is found,
-- and a read of as many bytes gives them. Creations are with names of fewer than 248 bytes that
-- are new in their directory, in directories of the store with room for a record, with an inode
-- and a block free; writes are to regular files, within the block; no signal comes and no call
-- fails.
pub read-write-Runs :
    (env : Env) (s t u : Fs) (n : ℕ) (i : Inode) (buf : List ℕ) (w : Wrote)
    → Quiet env
    → Sound s
    → find_inode n (table s) ≡ some i
    → s_isreg i.mode ≡ true
    → Fits i
    → 0 < length buf
    → length buf ≤ 4096
    → write env i buf 0 s ≡ done w t
    → Runs (λ m. m ≢ n) t u
    → (get_inode env n u ≡ done (some w.inode) u)
      × (read env w.inode (length buf) 0 u
          ≡ done (record { ret = ok (length buf); bytes = buf; pos = length buf }) u)
read-write-Runs env s t u n i buf w quiet h e file f some_bytes small wrote others =
    let ends = written_ends env s n i buf 0 w t h quiet e f (omega arith) wrote in
    let sound = Step-Sound (writes env i buf 0 w t quiet e file f (omega arith) wrote) h in
    let k = Runs-Keeps n w.inode others sound (written_listed s t n i buf 0 w e ends) in
    (
      get_inode-eq-find env u n (quiet get_bread) (quiet get_alloc) ∙ ap (λ f. done f u) k.listed,
      read_congr env t u w.inode (length buf) 0 _ k.block
          (read_written env s t i buf w ends some_bytes small (quiet read_bread) (quiet read_copy)),
    )
