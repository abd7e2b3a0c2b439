-- ===== src/Simplefs/Threads/Saves.antt =====
-- simplefs/simple.c, `simplefs_inode_save` and the copies to a block: what they do to the inode store.
use lkm.Prelude.{
  ℕ, ◌≤◌, ◌≡◌, ◌≢◌, ap, sym, ◌∙◌, subst, none, some, inl, inr, ◌==◌, ==→eq, Bool-cases,
  Option-cases, arith,
}
use lkm.Prelude.Bytes.{load64}
use lkm.Simplefs.Layout.{Inode}
use lkm.Simplefs.State.{Fs, inodes_count, free_blocks}
use lkm.Simplefs.Inodes.{inode_search}
use lkm.Simplefs.Inodes.Table.{
  table, find_inode, search_from-none, find_inode-replace, find_inode-replace_ne,
}
use lkm.Simplefs.Inodes.Effects.{Saved, saved_state, saved_state-Saved}
use lkm.Simplefs.Numbers.{numbers, numbers-replace_inode}
use lkm.Simplefs.Volume.{blocks_of}
use lkm.Simplefs.Volume.Blocks.{blocks_of-replace_inode, Taken-find_inode}
use lkm.Simplefs.Threads.{Pc, Shared, save_in}
use lkm.Simplefs.Threads.Store.{view, Good, Same, Agrees, Listed}
use lkm.Simplefs.Threads.Keeps.{Kept, Kept-apart}

module _ (m : Shared) (p : Pc) (d : ℕ) (good : Good (view m.fs)) (agrees : Agrees m)
    (known : Listed m d) where
  abbrev i : Inode
  i = m.inodes d

  -- The inode of the store that the one in memory stands for.
  stored : (j : Inode) × (find_inode d (table m.fs) ≡ some j)
  stored = elim (Option-cases (find_inode d (table m.fs))) [ inl e ↦ absurd (known e) | inr x ↦ x ]

  same : Same d i stored.0
  unfolding Agrees
  same = agrees d stored.0 stored.1

  own_number : find_inode i.inode_no (table m.fs) ≡ some stored.0
  own_number = ap (λ n. find_inode n (table m.fs)) same.number ∙ stored.1

  block_above : 2 ≤ i.data_block_number
  block_above =
      subst (λ b. 2 ≤ b) (sym same.block)
        (Taken-find_inode (free_blocks m.fs) d (table m.fs) stored.0 good.taken stored.1)

  -- A change of the inode's block.
  pub Kept-block :
      (t : Fs)
      → ((c : ℕ) → i.data_block_number ≢ c → t.cache c ≡ m.fs.cache c)
      → Kept m (record m { fs = t }) p
  Kept-block t e =
      let above = block_above in
      Kept-apart m (record m { fs = t }) p good agrees (e 0 (omega arith)) (e 1 (omega arith))
        (λ d j s. s)

  module _ (q : ℕ) (e : inode_search m.fs i ≡ some q) where
    abbrev t : Fs
    t = saved_state m.fs i q

    ends : Saved m.fs i t
    ends = saved_state-Saved m.fs i q same.fits e

    superblock : t.cache 0 ≡ m.fs.cache 0
    superblock = (ends.blocks 0 (omega arith)).0

    view-saved : view t ≡ view m.fs
    view-saved = λ x. record {
      counts = load64 (superblock x) 16;
      word = load64 (superblock x) 24;
      nums = (ap numbers ends.replaced ∙ numbers-replace_inode i (table m.fs)) x;
      blocks =
          (ap blocks_of ends.replaced
              ∙ blocks_of-replace_inode i stored.0 (table m.fs) own_number same.block)
            x;
    }

    find_saved : find_inode i.inode_no (table t) ≡ some i
    find_saved =
        ap (find_inode i.inode_no) ends.replaced ∙ find_inode-replace (table m.fs) i own_number

    find_others : (c : ℕ) → c ≢ i.inode_no → find_inode c (table t) ≡ find_inode c (table m.fs)
    find_others c ne = ap (find_inode c) ends.replaced ∙ find_inode-replace_ne (table m.fs) i c ne

    saved-Agrees : Agrees (record m { fs = t })
    unfolding Agrees
    saved-Agrees c j r = elim (Bool-cases (c == i.inode_no)) [
      | inl here ↦
          let n = ==→eq c i.inode_no here in
          let is_i : i ≡ j = cc (r, find_saved, ap (λ n. find_inode n (table t)) n) in
          let is_d : c ≡ d = n ∙ same.number in
          subst (λ c. Same c (m.inodes c) j) (sym is_d)
            (record {
              number = same.number;
              block = ap (λ x. x.data_block_number) is_i;
              fits = same.fits;
            })
      | inr other ↦ agrees c j (sym (find_others c (λ x. ground arith)) ∙ r)
    ]

    saved-Listed : (c : ℕ) → Listed m c → find_inode c (table t) ≢ none
    saved-Listed c h r = elim (Bool-cases (c == i.inode_no)) [
      | inl here ↦ cc (r, find_saved, ap (λ n. find_inode n (table t)) (==→eq c i.inode_no here))
      | inr other ↦ h (sym (find_others c (λ x. ground arith)) ∙ r)
    ]

    Kept-found : Kept m (record m { fs = t }) p
    Kept-found = record {
      good = subst Good (sym view-saved) good;
      agrees = saved-Agrees;
      listed = saved-Listed;
      others = inl view-saved;
    }

  pub Kept-save : Kept m (record m { fs = save_in m.fs i (inode_search m.fs i) }) p
  unfolding inode_search
  Kept-save = elim (Option-cases (inode_search m.fs i)) [
    | inl e ↦ cc (own_number, search_from-none (m.fs.cache 1) 0 i.inode_no (inodes_count m.fs) e)
    | inr (q, e) ↦ rw e (Kept-found q e)
  ]
