-- ===== src/Simplefs/Volume/Names.antt =====
-- simplefs/simple.c: the names of a file system in use.
use lkm.Prelude.{
  ◌≤◌, ◌^◌, ℕ, suc, ◌+◌, ◌<◌, ◌≡◌, refl, ap, ap₂, sym, ◌∙◌, subst, inl, inr, true, some, List, [],
  ◌∷◌, ◌++◌, length, ◌==◌, ==→eq, Bool-cases, arith,
}
use lkm.Simplefs.Layout.{Inode, s_isdir, s_isreg}
use lkm.Simplefs.State.{Fs, done, Env, inodes_count}
use lkm.Simplefs.Inodes.Table.{
  table, find_inode, replace_inode, find_inode-append_old, find_inode-replace,
  find_inode-replace_ne,
}
use lkm.Simplefs.Directories.{Created, find_record, lookup}
use lkm.Simplefs.Directories.Records.{find_record-with_record_old}
use lkm.Simplefs.Directories.Creation.{Quiet, vfs_of}
use lkm.Simplefs.Directories.Contract.{CanCreate, CreateEnds, file_inode}
use lkm.Simplefs.Directories.Lookup.{lookup-found}
use lkm.Simplefs.Volume.{Step, creates, writes, Runs, begins, steps, mounts, Sound}
use lkm.Simplefs.Volume.Blocks.{find_inode-number}
use lkm.Simplefs.Volume.Invariant.{created_ends, written_ends, Runs-Sound, remount-eq}
use lkm.Simplefs.Volume.Persistence.{Keeps, Step-Keeps}

-- The same file or directory, maybe of another size.
pub record Same (i j : Inode) : Type 0 where
  pub number : j.inode_no ≡ i.inode_no
  pub mode : j.mode ≡ i.mode
  pub block : j.data_block_number ≡ i.data_block_number

Same-refl : (i : Inode) → Same i i
Same-refl i = record { number = refl; mode = refl; block = refl }

Same-trans : {i j k : Inode} → Same i j → Same j k → Same i k
Same-trans a b = record {
  number = b.number ∙ a.number;
  mode = b.mode ∙ a.mode;
  block = b.block ∙ a.block;
}

-- An inode is in the store.
pub record Stored (i : Inode) (s : Fs) : Type 0 where
  pub now : Inode
  pub same : Same i now
  pub at : find_inode i.inode_no (table s) ≡ some now

replaced :
    (k : Inode) (is : List Inode) (n : ℕ) (i : Inode) {old : Inode}
    → find_inode n is ≡ some i
    → find_inode k.inode_no is ≡ some old
    → Same old k
    → (j : Inode) × (find_inode n (replace_inode k is) ≡ some j) × Same i j
replaced k is n i {old} e f same = elim (Bool-cases (n == k.inode_no)) [
  | inl here ↦
      let q = ==→eq n k.inode_no here in
      let p : i ≡ old = cc (e, f, ap (λ m. find_inode m is) q) in
      (
        k,
        ap (λ m. find_inode m (replace_inode k is)) q ∙ find_inode-replace is k f,
        subst (λ o. Same o k) (sym p) same,
      )
  | inr there ↦ (i, find_inode-replace_ne is k n (λ q. ground arith) ∙ e, Same-refl i)
]

-- No step takes an inode out of the store.
Step-Stored : {s t : Fs} {n : ℕ} (i : Inode) → Step s n t → Sound s → Stored i s → Stored i t
Step-Stored {s} {n = n} i (creates env parent name mode k r t quiet known dir nul can e) h st =
    let ends = created_ends env s parent name mode k r t quiet can e in
    let more = table s ++ (file_inode s mode k ∷ []) in
    let kept : (m : ℕ) (j : Inode) → find_inode m (table s) ≡ some j → find_inode m more ≡ some j =
      λ m j q.
        find_inode-append_old (table s) (file_inode s mode k) m
          (λ z. cc (q, can.number_free, ap (λ m. find_inode m (table s)) z))
        ∙ q in
    let at_parent : r.parent.inode_no ≡ n =
      ap (λ p. p.inode_no) ends.grown ∙ find_inode-number n (table s) parent known in
    let (j, listed, same) =
      replaced r.parent more i.inode_no st.now (kept i.inode_no st.now st.at)
        (ap (λ m. find_inode m more) at_parent ∙ kept n parent known)
        (record {
          number = ap (λ p. p.inode_no) ends.grown;
          mode = ap (λ p. p.mode) ends.grown;
          block = ap (λ p. p.data_block_number) ends.grown;
        }) in
    record {
      now = j;
      same = Same-trans st.same same;
      at = ap (find_inode i.inode_no) ends.stored ∙ listed;
    }
Step-Stored {s} {n = n} i (writes env inode buf ppos w t quiet known file f small e) h st =
    let ends = written_ends env s n inode buf ppos w t h quiet known f small e in
    let at_file : w.inode.inode_no ≡ n =
      ap (λ p. p.inode_no) ends.resized ∙ find_inode-number n (table s) inode known in
    let (j, listed, same) =
      replaced w.inode (table s) i.inode_no st.now st.at
        (ap (λ m. find_inode m (table s)) at_file ∙ known)
        (record {
          number = ap (λ p. p.inode_no) ends.resized;
          mode = ap (λ p. p.mode) ends.resized;
          block = ap (λ p. p.data_block_number) ends.resized;
        }) in
    record {
      now = j;
      same = Same-trans st.same same;
      at = ap (find_inode i.inode_no) ends.stored ∙ listed;
    }

-- A directory of number `d` has the name, with the number `ino`.
pub record Named (d : ℕ) (name : List ℕ) (ino : ℕ) (s : Fs) : Type 0 where
  pub dir : Inode
  pub listed : find_inode d (table s) ≡ some dir
  pub is_dir : s_isdir dir.mode ≡ true
  pub small : dir.file_size ≤ 16
  pub found : find_record (s.cache dir.data_block_number) 0 name dir.file_size ≡ some ino

Keeps-Named :
    {s t : Fs} {d ino : ℕ} {name : List ℕ} (x : Named d name ino s)
    → Keeps d x.dir s t
    → Named d name ino t
Keeps-Named {name = name} x k = record {
  dir = x.dir;
  listed = k.listed;
  is_dir = x.is_dir;
  small = x.small;
  found = ap (λ m. find_record m 0 name x.dir.file_size) k.block ∙ x.found;
}

not_both : (mode : ℕ) → s_isreg mode ≡ true → s_isdir mode ≡ true → ⊥
not_both mode f d = ground arith

-- A creation in the directory itself.
created_here :
    (s t : Fs) (env : Env) (parent : Inode) (new : List ℕ) (mode k : ℕ) (r : Created)
    → Quiet env
    → CanCreate s parent new mode k
    → (d ino : ℕ) (name : List ℕ) → length name < 256
    → CreateEnds env s parent new mode k r t
    → find_inode d (table s) ≡ some parent
    → s_isdir parent.mode ≡ true
    → find_record (s.cache parent.data_block_number) 0 name parent.file_size ≡ some ino
    → Named d name ino t
created_here s t env parent new mode k r quiet can d ino name short ends known dir found =
    let number = find_inode-number d (table s) parent known in
    let grown : r.parent.inode_no ≡ d = ap (λ p. p.inode_no) ends.grown ∙ number in
    let more = table s ++ (file_inode s mode k ∷ []) in
    let still : find_inode r.parent.inode_no more ≡ some parent =
      ap (λ m. find_inode m more) grown
      ∙ find_inode-append_old (table s) (file_inode s mode k) d
          (λ z. cc (known, can.number_free, ap (λ m. find_inode m (table s)) z))
      ∙ known in
    let one : parent.file_size + 1 ≡ suc parent.file_size = omega arith in
    record {
      dir = r.parent;
      listed =
          ap (λ m. find_inode m (table t)) (sym grown)
          ∙ ap (find_inode r.parent.inode_no) ends.stored
          ∙ find_inode-replace more r.parent still;
      is_dir = ap (λ p. s_isdir p.mode) ends.grown ∙ dir;
      small = omega (arith, ap (λ p. p.file_size) ends.grown, can.on_block);
      found =
          ap (λ p. find_record (t.cache p.data_block_number) 0 name p.file_size) ends.grown
          ∙ ap₂ (λ m n. find_record m 0 name n) ends.named one
          ∙ find_record-with_record_old (s.cache parent.data_block_number) new name parent.file_size
              (inodes_count s + 8) short found;
    }

-- No step takes a name out of a directory, or gives it another number.
Step-Named :
    {s t : Fs} {n : ℕ} (d ino : ℕ) (name : List ℕ)
    → length name < 256
    → Step s n t
    → Sound s
    → Named d name ino s
    → Named d name ino t
Step-Named {s} {n = n} d ino name short
      (creates env parent new mode k r t quiet known dir nul can e) h x =
    elim (Bool-cases (n == d)) [
      | inl here ↦
          let q = ==→eq n d here in
          let p : parent ≡ x.dir = cc (known, x.listed, ap (λ m. find_inode m (table s)) q) in
          created_here s t env parent new mode k r quiet can d ino name short
            (created_ends env s parent new mode k r t quiet can e)
            (ap (λ m. find_inode m (table s)) (sym q) ∙ known) dir
            (subst (λ y. find_record (s.cache y.data_block_number) 0 name y.file_size ≡ some ino)
              (sym p) x.found)
      | inr there ↦ Keeps-Named x (
          Step-Keeps d x.dir (creates env parent new mode k r t quiet known dir nul can e)
            (λ q. ground arith) h x.listed)
    ]
Step-Named {s} {n = n} d ino name short (writes env inode buf ppos w t quiet known file f small e) h
      x =
    elim (Bool-cases (n == d)) [
      | inl here ↦
          let q = ==→eq n d here in
          let p : inode ≡ x.dir = cc (known, x.listed, ap (λ m. find_inode m (table s)) q) in
          absurd (not_both inode.mode file (ap (λ y. s_isdir y.mode) p ∙ x.is_dir))
      | inr there ↦ Keeps-Named x (
          Step-Keeps d x.dir (writes env inode buf ppos w t quiet known file f small e)
            (λ q. ground arith) h x.listed)
    ]

Runs-Stored :
    {Allowed : ℕ → Type 0} {s : Fs} (i : Inode) {t : Fs}
    → Runs Allowed s t
    → Sound s
    → Stored i s
    → Stored i t
Runs-Stored i begins h x = x
Runs-Stored i (steps run a st) h x = Step-Stored i st (Runs-Sound run h) (Runs-Stored i run h x)
Runs-Stored i (mounts {t} run) h x =
    subst (Stored i) (sym (remount-eq t (Runs-Sound run h))) (Runs-Stored i run h x)

Runs-Named :
    {Allowed : ℕ → Type 0} {s : Fs} (d ino : ℕ) (name : List ℕ) {t : Fs}
    → length name < 256
    → Runs Allowed s t
    → Sound s
    → Named d name ino s
    → Named d name ino t
Runs-Named d ino name short begins h x = x
Runs-Named d ino name short (steps run a st) h x =
    Step-Named d ino name short st (Runs-Sound run h) (Runs-Named d ino name short run h x)
Runs-Named d ino name short (mounts {t} run) h x =
    subst (Named d name ino) (sym (remount-eq t (Runs-Sound run h)))
      (Runs-Named d ino name short run h x)

-- No name is lost: when a file system is such that no two inodes have the same number or the same
-- block, every block of an inode is marked as taken, the next number is free, the device holds
-- what the cache holds, and no mutex is held (no image of mkfs.c is such, since its word of free
-- blocks has the blocks in use as free), and a directory of at most 16 children has a name of
-- fewer than 256 bytes with the number, below 2^31, of an inode of the store: after any
-- creations, in this directory too, any writes and mounts, a directory is found under its number,
-- and a lookup of the name in it gives an inode of the same number, mode and block. Creations are
-- with names of fewer than 248 bytes that are new in their directory, in directories of the store
-- with room for a record, with an inode and a block free; writes are to regular files, within the
-- block; no signal comes and no call fails.
pub lookup-Runs :
    {Allowed : ℕ → Type 0} (env : Env) (s t : Fs) (d : ℕ) (dir i : Inode) (name : List ℕ)
    → Quiet env
    → Runs Allowed s t
    → Sound s
    → length name < 256
    → find_inode d (table s) ≡ some dir
    → s_isdir dir.mode ≡ true
    → dir.file_size ≤ 16
    → i.inode_no < 2 ^ 31
    → find_record (s.cache dir.data_block_number) 0 name dir.file_size ≡ some i.inode_no
    → find_inode i.inode_no (table s) ≡ some i
    → (dir' i' : Inode) × (find_inode d (table t) ≡ some dir')
      × (lookup env dir' name t ≡ done (some (vfs_of i')) t)
      × Same i i'
lookup-Runs env s t d dir i name quiet run h short listed is_dir small int found stored =
    let x =
      Runs-Named d i.inode_no name short run h
        (record { dir = dir; listed = listed; is_dir = is_dir; small = small; found = found }) in
    let y = Runs-Stored i run h (record { now = i; same = Same-refl i; at = stored }) in
    (
      x.dir,
      y.now,
      x.listed,
      lookup-found env quiet t x.dir name i.inode_no y.now x.small int x.found y.at y.same.number,
      y.same,
    )
