-- ===== src/Simplefs/Volume/Refinement/Creations.antt =====
-- simplefs/simple.c: a creation, against the tree.
use lkm.Prelude.{
  NoNul, ℕ, ◌+◌, ◌≡◌, ◌≢◌, refl, ap, sym, ◌∙◌, subst, fun_ext, inl, inr, true, some, List, [], ◌∷◌,
  ◌++◌, put, ◌==◌, ==→eq, Bool-cases, arith,
}
use lkm.Prelude.Bytes.{load}
use lkm.Simplefs.Layout.{Inode, s_isdir}
use lkm.Simplefs.State.{Fs, Env, inodes_count, free_blocks}
use lkm.Simplefs.Inodes.Table.{
  table, find_inode, replace_inode, find_inode-append_old, find_inode-append_new,
  find_inode-replace, find_inode-replace_ne,
}
use lkm.Simplefs.Directories.Contract.{CanCreate, CreateEnds, file_inode}
use lkm.Simplefs.Directories.{Created}
use lkm.Simplefs.Volume.{Sound}
use lkm.Simplefs.Volume.Blocks.{find_inode-number, Unique-blocks, Taken-find_inode}
use lkm.Simplefs.Volume.Tree.{
  dir, empty, creation, TreeStep, makes, entries, node_of, node_at, tree,
}
use lkm.Simplefs.Volume.Refinement.Nodes.{node_of-with_record, node_kept}

module _ (s t : Fs) (env : Env) (d : ℕ) (parent : Inode) (name : List ℕ) (mode k : ℕ) (r : Created)
    (known : find_inode d (table s) ≡ some parent) (is_dir : s_isdir parent.mode ≡ true)
    (nul : NoNul name) (can : CanCreate s parent name mode k) (h : Sound s)
    (ends : CreateEnds env s parent name mode k r t) where
  abbrev new : ℕ
  new = inodes_count s + 8

  abbrev more : List Inode
  more = table s ++ (file_inode s mode k ∷ [])

  at_parent : r.parent.inode_no ≡ d
  at_parent = ap (λ p. p.inode_no) ends.grown ∙ find_inode-number d (table s) parent known

  d-ne-new : d ≢ new
  d-ne-new q = cc (known, can.number_free, ap (λ m. find_inode m (table s)) q)

  found_parent : find_inode d (table t) ≡ some r.parent
  found_parent =
      ap (find_inode d) ends.stored
      ∙ ap (λ m. find_inode m (replace_inode r.parent more)) (sym at_parent)
      ∙ find_inode-replace more r.parent (
          ap (λ m. find_inode m more) at_parent
          ∙ find_inode-append_old (table s) (file_inode s mode k) d d-ne-new
          ∙ known)

  tree_parent :
      tree t d
      ≡ some (
          dir (entries (s.cache parent.data_block_number) 0 parent.file_size ++ ((name, new) ∷ [])))
  tree_parent =
      ap (node_at t) found_parent
      ∙ ap (λ p. some (node_of (t.cache p.data_block_number) p)) ends.grown
      ∙ ap (λ m. some (node_of m (record parent { file_size = parent.file_size + 1 }))) ends.named
      ∙ ap some (
          node_of-with_record (s.cache parent.data_block_number) parent new name is_dir nul
            can.name_short (omega (arith, can.room)))

  node_of_new : tree t new ≡ some (empty (s_isdir mode))
  unfolding node_of entries load
  node_of_new = ap (node_at t) (
      ap (find_inode new) ends.stored
      ∙ find_inode-replace_ne more r.parent new (λ q. d-ne-new (sym (q ∙ at_parent)))
      ∙ find_inode-append_new (table s) (file_inode s mode k) can.number_free)

  tree_others : (m : ℕ) → m ≢ d → m ≢ new → tree t m ≡ tree s m
  tree_others m ne ne' =
      node_kept s t m
        (ap (find_inode m) ends.stored
          ∙ find_inode-replace_ne more r.parent m (λ q. ne (q ∙ at_parent))
          ∙ find_inode-append_old (table s) (file_inode s mode k) m ne')
        (λ i e.
          ends.blocks i.data_block_number
            (omega (arith, Taken-find_inode (free_blocks s) m (table s) i h.taken e))
            (λ q. Unique-blocks d m (table s) parent i h.apart (λ z. ne (sym z)) known e (sym q)))

  pub created-TreeStep : TreeStep (tree s) (creation d name (s_isdir mode)) (tree t)
  created-TreeStep =
      let es = entries (s.cache parent.data_block_number) 0 parent.file_size in
      subst (TreeStep (tree s) (creation d name (s_isdir mode))) (sym (fun_ext at)) (
        makes d new es name (s_isdir mode)
          (ap (node_at s) known ∙ (unfold node_of in rw is_dir refl))
          (ap (node_at s) can.number_free))
    where
      at :
          (m : ℕ)
          → tree t m
            ≡ put
                (put (tree s) new (some (empty (s_isdir mode))))
                d
                (some (
                  dir (
                    entries (s.cache parent.data_block_number) 0 parent.file_size
                    ++ ((name, new) ∷ []))))
                m
      at m = elim (Bool-cases (m == d)) [
        | inl here ↦ rw here (ap (tree t) (==→eq m d here) ∙ tree_parent)
        | inr there ↦ elim (Bool-cases (m == new)) [
          | inl fresh ↦ rw there (rw fresh (ap (tree t) (==→eq m new fresh) ∙ node_of_new))
          | inr other ↦ rw (there, other) (tree_others m (λ q. ground arith) (λ q. ground arith))
        ]
      ]
