-- ===== src/Simplefs/Threads/Keeps.antt =====
-- simplefs/simple.c: what one section between two calls of a mutex does to the inode store and the marks.
use lkm.Prelude.{
  ℕ, suc, ◌+◌, ◌≡◌, ap, ap₂, sym, ◌∙◌, subst, ◌⊎◌, true, none, [], ◌∷◌, ◌++◌, inl, inr, ◌==◌, ==→eq,
  put, Bool-cases, arith,
}
use lkm.Prelude.Bytes.{load64}
use lkm.Simplefs.Layout.{Inode}
use lkm.Simplefs.State.{inodes_count, free_blocks}
use lkm.Simplefs.Super.{unmasked, found, scan}
use lkm.Simplefs.Super.Blocks.{
  Scanned, scan-Scanned, Marked, marked_state, marked_state-Marked, masked-unmasked, unmasked-le,
}
use lkm.Simplefs.Inodes.Table.{
  slots, table, find_inode, find_inode-append_new, find_inode-append_old,
}
use lkm.Simplefs.Inodes.Effects.{Added, added_state, added_state-Added}
use lkm.Simplefs.Numbers.{
  numbers, AllBelow, AllBelow-NotIn, AllBelow-snoc, Unique-snoc, numbers-append, NotIn-find_inode,
}
use lkm.Simplefs.Volume.{blocks_of}
use lkm.Simplefs.Volume.Blocks.{
  blocks_of-append, Unique-append, Taken-NotIn, Taken-unmasked, Taken-append,
}
use lkm.Simplefs.Threads.{Pc, Shared}
use lkm.Simplefs.Threads.Mutexes.{held}
use lkm.Simplefs.Threads.Store.{View, view, Good, Same, Agrees, Listed, Spare, Next}

-- What a section keeps: the store is good, the inodes in memory agree with it, none is lost, and what is counted and marked
-- changes only under the mutex of the directories.
pub record Kept (m m' : Shared) (p : Pc) : Type 0 where
  pub good : Good (view m'.fs)
  pub agrees : Agrees m'
  pub listed : (d : ℕ) → Listed m d → Listed m' d
  pub others : (view m'.fs ≡ view m.fs) ⊎ ((held p).holds_children ≡ true)

module _ (m m' : Shared) (p : Pc) (good : Good (view m.fs)) (agrees : Agrees m) where
  -- The blocks 0 and 1 stay, and the inodes in memory keep their numbers and blocks.
  pub Kept-apart :
      m'.fs.cache 0 ≡ m.fs.cache 0
      → m'.fs.cache 1 ≡ m.fs.cache 1
      → ((d : ℕ) (j : Inode) → Same d (m.inodes d) j → Same d (m'.inodes d) j)
      → Kept m m' p
  unfolding Agrees
  Kept-apart e₀ e₁ keeps =
      let tables : table m'.fs ≡ table m.fs = ap₂ (λ st sb. slots st 0 (load64 sb 16)) e₁ e₀ in
      let views : view m'.fs ≡ view m.fs = λ x. record {
        counts = load64 (e₀ x) 16;
        word = load64 (e₀ x) 24;
        nums = numbers (tables x);
        blocks = blocks_of (tables x);
      } in
      record {
        good = subst Good (sym views) good;
        agrees = λ d j e. keeps d j (agrees d j (ap (find_inode d) (sym tables) ∙ e));
        listed = λ d h e. h (ap (find_inode d) (sym tables) ∙ e);
        others = inl views;
      }

-- The mark of a free block.
module _ (m : Shared) (p : Pc) (k : ℕ) (good : Good (view m.fs)) (agrees : Agrees m)
    (under : (held p).holds_children ≡ true) (e : scan (free_blocks m.fs) ≡ found k) where
  abbrev marked : Shared
  marked = record m { fs = marked_state m.fs k }

  scanned : Scanned (free_blocks m.fs) 2 (found k)
  scanned = subst (Scanned (free_blocks m.fs) 2) e (scan-Scanned (free_blocks m.fs))

  mark_ends : Marked m.fs k (marked_state m.fs k)
  mark_ends = marked_state-Marked m.fs k good.word_fits scanned

  tables_marked : table (marked_state m.fs k) ≡ table m.fs
  tables_marked = ap₂ (λ st n. slots st 0 n) ((mark_ends.blocks 1 (omega arith)).0) mark_ends.count

  abbrev marked_view : View
  marked_view = record (view m.fs) { word = unmasked (free_blocks m.fs) k }

  pub view-marked : view (marked_state m.fs k) ≡ marked_view
  view-marked = λ i. record {
    counts = mark_ends.count i;
    word = mark_ends.word i;
    nums = numbers (tables_marked i);
    blocks = blocks_of (tables_marked i);
  }

  pub Spare-marked : Spare marked_view k
  Spare-marked = record {
    low = scanned.0;
    high = scanned.1;
    marked = masked-unmasked (free_blocks m.fs) k;
    unused = Taken-NotIn (free_blocks m.fs) k (blocks_of (table m.fs)) (scanned.2) good.taken;
  }

  marked-Good : Good marked_view
  marked-Good = record {
    numbered = good.numbered;
    below = good.below;
    apart = good.apart;
    taken = Taken-unmasked (free_blocks m.fs) k (blocks_of (table m.fs)) good.taken;
    word_fits = omega (arith, unmasked-le (free_blocks m.fs) k, good.word_fits);
  }

  pub Kept-mark : Kept m marked p
  unfolding Agrees
  Kept-mark = record {
    good = subst Good (sym view-marked) marked-Good;
    agrees = λ d j q. agrees d j (ap (find_inode d) (sym tables_marked) ∙ q);
    listed = λ d h q. h (ap (find_inode d) (sym tables_marked) ∙ q);
    others = inr under;
  }

-- The addition of the next inode.
module _ (m : Shared) (p : Pc) (i : Inode) (good : Good (view m.fs)) (agrees : Agrees m)
    (under : (held p).holds_children ≡ true) (next : Next (view m.fs) i) where
  abbrev more : Shared
  more = record { fs = added_state m.fs i; inodes = put m.inodes i.inode_no i }

  add_ends : Added m.fs i (added_state m.fs i)
  add_ends = added_state-Added m.fs i next.fits (let s = next.counts_small in omega arith)

  abbrev more_view : View
  more_view = record (view m.fs) {
    counts = inodes_count m.fs + 1;
    nums = numbers (table m.fs) ++ (i.inode_no ∷ []);
    blocks = blocks_of (table m.fs) ++ (i.data_block_number ∷ []);
  }

  view-more : view (added_state m.fs i) ≡ more_view
  view-more = λ x. record {
    counts = add_ends.counted x;
    word = add_ends.free_word x;
    nums = (ap numbers add_ends.appended ∙ numbers-append (table m.fs) i) x;
    blocks = (ap blocks_of add_ends.appended ∙ blocks_of-append (table m.fs) i) x;
  }

  below_next : AllBelow i.inode_no (numbers (table m.fs))
  below_next = subst (λ n. AllBelow n (numbers (table m.fs))) (sym next.number) good.below

  number_new : find_inode i.inode_no (table m.fs) ≡ none
  number_new = NotIn-find_inode i.inode_no (table m.fs) (AllBelow-NotIn _ _ below_next)

  more-Good : Good more_view
  more-Good = record {
    numbered = Unique-snoc i.inode_no (numbers (table m.fs)) below_next good.numbered;
    below =
        let n : suc i.inode_no ≡ inodes_count m.fs + 1 + 8 = omega (arith, next.number) in
        subst (λ n. AllBelow n (numbers (table m.fs) ++ (i.inode_no ∷ []))) n
          (AllBelow-snoc i.inode_no (numbers (table m.fs)) below_next);
    apart = Unique-append i.data_block_number (blocks_of (table m.fs)) next.spare.unused good.apart;
    taken =
        Taken-append (free_blocks m.fs) i.data_block_number (blocks_of (table m.fs)) next.spare.low
          next.spare.high next.spare.marked good.taken;
    word_fits = good.word_fits;
  }

  more-Agrees : Agrees more
  unfolding Agrees
  more-Agrees d j q = elim (Bool-cases (d == i.inode_no)) [
    | inl new ↦
        let here = ==→eq d i.inode_no new in
        let is_i : i ≡ j = cc (
          q,
          find_inode-append_new (table m.fs) i number_new,
          ap (find_inode i.inode_no) add_ends.appended,
        ) in
        rw new (record {
          number = sym here;
          block = ap (λ x. x.data_block_number) is_i;
          fits = next.fits;
        })
    | inr old ↦ rw old (
        agrees d j (
          sym (find_inode-append_old (table m.fs) i d (λ x. ground arith))
          ∙ sym (ap (find_inode d) add_ends.appended)
          ∙ q))
  ]

  pub Kept-add : Kept m more p
  Kept-add = record {
    good = subst Good (sym view-more) more-Good;
    agrees = more-Agrees;
    listed = λ d h q. h (
        sym (
          find_inode-append_old (table m.fs) i d
            (λ x. h (ap (λ n. find_inode n (table m.fs)) x ∙ number_new)))
        ∙ sym (ap (find_inode d) add_ends.appended)
        ∙ q);
    others = inr under;
  }
