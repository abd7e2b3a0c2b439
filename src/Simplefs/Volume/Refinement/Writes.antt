-- ===== src/Simplefs/Volume/Refinement/Writes.antt =====
-- simplefs/simple.c: a write, against the tree.
use lkm.Prelude.{
  ℕ, ◌+◌, ◌-◌, ◌≤◌, ◌≡◌, ◌≢◌, refl, ap, sym, ◌∙◌, subst, fun_ext, inl, inr, true, some, List, ◌++◌,
  take, length, put, ◌==◌, ==→eq, leb, Bool-cases, arith,
}
use lkm.Prelude.Bytes.{load, load-append, length-load}
use mathlib.Core.List.{append_assoc}
use lkm.Simplefs.Layout.{Inode, s_isreg}
use lkm.Simplefs.State.{Fs, free_blocks}
use lkm.Simplefs.Inodes.Table.{table, find_inode, find_inode-replace_ne}
use lkm.Simplefs.Files.{Wrote}
use lkm.Simplefs.Files.Contents.{WriteEnds, resize}
use lkm.Simplefs.Volume.{Sound}
use lkm.Simplefs.Volume.Blocks.{find_inode-number, Unique-blocks, Taken-find_inode}
use lkm.Simplefs.Volume.Persistence.{written_listed}
use lkm.Simplefs.Volume.Tree.{file, writing, TreeStep, overwrites, extends, node_of, node_at, tree}
use lkm.Simplefs.Volume.Refinement.Nodes.{take-load, node_of-store, not_dir, node_kept}

module _ (s t : Fs) (n : ℕ) (i : Inode) (buf : List ℕ) (pos : ℕ) (w : Wrote)
    (known : find_inode n (table s) ≡ some i) (is_file : s_isreg i.mode ≡ true) (h : Sound s)
    (ends : WriteEnds s i buf pos w t) where
  abbrev bytes : List ℕ
  bytes = load (s.cache i.data_block_number) 0 i.file_size

  abbrev before : List ℕ
  before = load (s.cache i.data_block_number) 0 pos

  tree_file : tree s n ≡ some (file bytes)
  tree_file = ap (node_at s) known ∙ (unfold node_of in rw (not_dir i.mode is_file) refl)

  tree_written : tree t n ≡ some (file (before ++ buf))
  tree_written =
      ap (node_at t) (written_listed s t n i buf pos w known ends)
      ∙ ap (λ j. some (node_of (t.cache j.data_block_number) j)) ends.resized
      ∙ ap (λ m. some (node_of m (resize i (pos + length buf)))) ends.contents
      ∙ ap some (node_of-store (s.cache i.data_block_number) i pos buf (not_dir i.mode is_file))

  at_file : w.inode.inode_no ≡ n
  at_file = ap (λ p. p.inode_no) ends.resized ∙ find_inode-number n (table s) i known

  tree_rest : (m : ℕ) → m ≢ n → tree t m ≡ tree s m
  tree_rest m ne =
      node_kept s t m
        (ap (find_inode m) ends.stored
          ∙ find_inode-replace_ne (table s) w.inode m (λ q. ne (q ∙ at_file)))
        (λ j e.
          let above = Taken-find_inode (free_blocks s) m (table s) j h.taken e in
          (ends.blocks j.data_block_number (omega arith)
            (λ q. Unique-blocks n m (table s) i j h.apart (λ z. ne (sym z)) known e (sym q))).0)

  node_put : (x : List ℕ) → before ++ buf ≡ x → tree t ≡ put (tree s) n (some (file x))
  node_put x e = fun_ext λ m. elim (Bool-cases (m == n)) [
    | inl here ↦ rw here (ap (tree t) (==→eq m n here) ∙ tree_written ∙ ap (λ y. some (file y)) e)
    | inr there ↦ rw there (tree_rest m (λ q. ground arith))
  ]

  pub written-TreeStep : TreeStep (tree s) (writing n pos buf) (tree t)
  written-TreeStep = elim (Bool-cases (leb pos i.file_size)) [
    | inl within ↦
        let le : pos ≤ i.file_size = ground arith in
        subst (TreeStep (tree s) (writing n pos buf))
          (sym (
            node_put (take pos bytes ++ buf) (
              ap (λ l. l ++ buf)
                (sym (take-load (s.cache i.data_block_number) 0 i.file_size pos le)))))
          (overwrites n pos bytes buf tree_file
            (omega (arith, length-load (s.cache i.data_block_number) 0 i.file_size)))
    | inr beyond ↦
        let m = s.cache i.data_block_number in
        let split : i.file_size + (pos - i.file_size) ≡ pos = ground arith in
        let gap = load m (0 + i.file_size) (pos - i.file_size) in
        subst (TreeStep (tree s) (writing n pos buf))
          (sym (
            node_put (bytes ++ (gap ++ buf)) (
              ap (λ l. l ++ buf)
                (ap (load m 0) (sym split) ∙ load-append m 0 i.file_size (pos - i.file_size))
              ∙ append_assoc bytes gap buf)))
          (extends n pos bytes gap buf tree_file (
            omega (
              arith,
              length-load m 0 i.file_size,
              length-load m (0 + i.file_size) (pos - i.file_size),
              split,
            )))
  ]
