-- ===== src/Simplefs/Threads/Store.antt =====
-- simplefs/simple.c: what the mutexes keep of the inode store and of the marks, and what each thread relies
-- on where it is in its call.
use lkm.Prelude.{ℕ, ◌+◌, ◌^◌, ◌≤◌, ◌<◌, ◌≡◌, ◌≢◌, false, Option, none, some, List, length}
use lkm.Simplefs.Layout.{Inode}
use lkm.Simplefs.Layout.Laws.{Fits}
use lkm.Simplefs.State.{Fs, inodes_count, free_blocks}
use lkm.Simplefs.Super.{masked}
use lkm.Simplefs.Inodes.Table.{table, find_inode}
use lkm.Simplefs.Numbers.{numbers, NotIn, Unique, AllBelow}
use lkm.Simplefs.Volume.{blocks_of, Taken}
use lkm.Simplefs.Threads.{
  Creation, Writing, Pc, idle, enter, count, counting, counted, check, search, searching, searched,
  add, add_super, adding, added, added_super, name_it, grow, growing, save, saving, saved,
  leave_mgmt, leave, fill, size, sizing, Shared,
}
use lkm.Simplefs.Threads.Mutexes.{held}

-- What is counted, marked and numbered.
pub record View : Type 0 where
  pub counts : ℕ
  pub word : ℕ
  pub nums : List ℕ
  pub blocks : List ℕ

abbrev pub view : Fs → View
view s = record {
  counts = inodes_count s;
  word = free_blocks s;
  nums = numbers (table s);
  blocks = blocks_of (table s);
}

-- No two inodes have the same number or the same block, the blocks are marked, and the next number is free.
pub record Good (v : View) : Type 0 where
  pub numbered : Unique v.nums
  pub below : AllBelow (v.counts + 8) v.nums
  pub apart : Unique v.blocks
  pub taken : Taken v.word v.blocks
  pub word_fits : v.word < 2 ^ 64

-- An inode in memory has the number and the block of the one in the store.
pub record Same (d : ℕ) (i j : Inode) : Type 0 where
  pub number : i.inode_no ≡ d
  pub block : i.data_block_number ≡ j.data_block_number
  pub fits : Fits i

unfoldable pub Agrees : Shared → Type 0
Agrees m = (d : ℕ) (j : Inode) → find_inode d (table m.fs) ≡ some j → Same d (m.inodes d) j

abbrev pub Listed : Shared → ℕ → Type 0
Listed m d = find_inode d (table m.fs) ≢ none

-- A block that is marked and that no inode has.
pub record Spare (v : View) (b : ℕ) : Type 0 where
  pub low : 2 ≤ b
  pub high : b ≤ 31
  pub marked : masked v.word b ≡ false
  pub unused : NotIn b v.blocks

-- The next inode: it has the next number and a spare block.
pub record Next (v : View) (i : Inode) : Type 0 where
  pub counts_small : v.counts < 64
  pub number : i.inode_no ≡ v.counts + 8
  pub spare : Spare v i.data_block_number
  pub fits : Fits i

abbrev pub Counted : View → ℕ → Type 0
Counted v n = v.counts ≡ n

abbrev pub Found : View → ℕ → Option ℕ → Type 0
Found v n none = Unit {0}
Found v n (some k) = Spare v k

-- What a thread relies on of the counts and marks. From its count to its addition nobody else changes them.
unfoldable pub Pending : View → Pc → Type 0
Pending v (counted c n) = v.counts ≡ n
Pending v (check c n) = v.counts ≡ n
Pending v (search c n) = (v.counts ≡ n) × (n < 64)
Pending v (searching c n) = (v.counts ≡ n) × (n < 64)
Pending v (searched c n r) = (v.counts ≡ n) × (n < 64) × Found v n r
Pending v (add c i) = Next v i
Pending v (add_super c i) = Next v i
Pending v (adding c i) = Next v i
Pending v idle = Unit {0}
Pending v (enter c) = Unit {0}
Pending v (count c) = Unit {0}
Pending v (counting c) = Unit {0}
Pending v (added c i) = Unit {0}
Pending v (added_super c i) = Unit {0}
Pending v (name_it c i) = Unit {0}
Pending v (grow c) = Unit {0}
Pending v (growing c) = Unit {0}
Pending v (save b d) = Unit {0}
Pending v (saving b d) = Unit {0}
Pending v (saved b d) = Unit {0}
Pending v (leave_mgmt b) = Unit {0}
Pending v leave = Unit {0}
Pending v (fill w) = Unit {0}
Pending v (size w) = Unit {0}
Pending v (sizing w) = Unit {0}

abbrev Wants : (ℕ → Type 0) → Creation → Type 0
Wants L c = L c.dir × (c.mode < 2 ^ 32)

abbrev Sized : (ℕ → Type 0) → Writing → Type 0
Sized L w = L w.file × (w.ppos + length w.buf ≤ 4096)

-- Which inodes it goes to, and that its arguments fit.
unfoldable pub Target : (ℕ → Type 0) → Pc → Type 0
Target L idle = Unit {0}
Target L (enter c) = Wants L c
Target L (count c) = Wants L c
Target L (counting c) = Wants L c
Target L (counted c n) = Wants L c
Target L (check c n) = Wants L c
Target L (search c n) = Wants L c
Target L (searching c n) = Wants L c
Target L (searched c n r) = Wants L c
Target L (add c i) = Wants L c
Target L (add_super c i) = Wants L c
Target L (adding c i) = Wants L c
Target L (added c i) = Wants L c
Target L (added_super c i) = Wants L c
Target L (name_it c i) = Wants L c
Target L (grow c) = Wants L c
Target L (growing c) = Wants L c
Target L (save b d) = L d
Target L (saving b d) = L d
Target L (saved b d) = Unit {0}
Target L (leave_mgmt b) = Unit {0}
Target L leave = Unit {0}
Target L (fill w) = L w.file
Target L (size w) = Sized L w
Target L (sizing w) = Sized L w

abbrev pub Place : Shared → Pc → Type 0
Place m p = Pending (view m.fs) p × Target (Listed m) p

-- A thread outside of the mutex of the directories relies on no count.
pub Pending-outside :
    (v w : View) (p : Pc) → (held p).holds_children ≡ false → Pending v p → Pending w p
unfolding Pending held
Pending-outside v w (counted c n) e h = cc e
Pending-outside v w (check c n) e h = cc e
Pending-outside v w (search c n) e h = cc e
Pending-outside v w (searching c n) e h = cc e
Pending-outside v w (searched c n r) e h = cc e
Pending-outside v w (add c i) e h = cc e
Pending-outside v w (add_super c i) e h = cc e
Pending-outside v w (adding c i) e h = cc e
Pending-outside v w idle e h = tt
Pending-outside v w p e h = tt

pub Target-kept : (L L' : ℕ → Type 0) (p : Pc) → ((d : ℕ) → L d → L' d) → Target L p → Target L' p
unfolding Target
Target-kept L L' idle k h = tt
Target-kept L L' (enter c) k (l, a) = (k c.dir l, a)
Target-kept L L' (count c) k (l, a) = (k c.dir l, a)
Target-kept L L' (counting c) k (l, a) = (k c.dir l, a)
Target-kept L L' (counted c n) k (l, a) = (k c.dir l, a)
Target-kept L L' (check c n) k (l, a) = (k c.dir l, a)
Target-kept L L' (search c n) k (l, a) = (k c.dir l, a)
Target-kept L L' (searching c n) k (l, a) = (k c.dir l, a)
Target-kept L L' (searched c n r) k (l, a) = (k c.dir l, a)
Target-kept L L' (add c i) k (l, a) = (k c.dir l, a)
Target-kept L L' (add_super c i) k (l, a) = (k c.dir l, a)
Target-kept L L' (adding c i) k (l, a) = (k c.dir l, a)
Target-kept L L' (added c i) k (l, a) = (k c.dir l, a)
Target-kept L L' (added_super c i) k (l, a) = (k c.dir l, a)
Target-kept L L' (name_it c i) k (l, a) = (k c.dir l, a)
Target-kept L L' (grow c) k (l, a) = (k c.dir l, a)
Target-kept L L' (growing c) k (l, a) = (k c.dir l, a)
Target-kept L L' (save b d) k h = k d h
Target-kept L L' (saving b d) k h = k d h
Target-kept L L' (saved b d) k h = tt
Target-kept L L' (leave_mgmt b) k h = tt
Target-kept L L' leave k h = tt
Target-kept L L' (fill w) k h = k w.file h
Target-kept L L' (size w) k (l, a) = (k w.file l, a)
Target-kept L L' (sizing w) k (l, a) = (k w.file l, a)
