-- ===== src/Simplefs/Threads/Mutexes.antt =====
-- simplefs/simple.c: which mutexes a thread holds, where it is in its call.
use lkm.Prelude.{
  ℕ, ◌+◌, ◌*◌, ◌<◌, ◌≡◌, refl, Bool, true, false, none, some, inl, inr, Bool-cases, arith, leb, ltb,
  length, ◌||◌, ◌&&◌, not,
}
use lkm.Simplefs.Layout.{max_objects, record_bytes, s_isdir, s_isreg}
use lkm.Simplefs.State.{
  Lock, children, inodes_mgmt, sb_lock, Locks, holds, set_lock, none_held, free_blocks,
}
use lkm.Simplefs.Super.{Scan, found, exhausted, wide, scan}
use lkm.Simplefs.Threads.{
  Pc, idle, enter, count, counting, counted, check, search, searching, searched, add, add_super,
  adding, added, added_super, name_it, grow, growing, save, saving, saved, leave_mgmt, leave, fill,
  size, sizing, Shared, Act, rest, undefined, acquire, release, compute, mark, act,
}

abbrev held_by : Bool → Bool → Bool → Locks
held_by c m s = record { holds_children = c; holds_inodes_mgmt = m; holds_sb = s }

-- The mutexes that a thread holds there.
unfoldable pub held : Pc → Locks
held idle = none_held
held (enter c) = none_held
held (count c) = held_by true false false
held (counting c) = held_by true true false
held (counted c n) = held_by true true false
held (check c n) = held_by true false false
held (search c n) = held_by true false false
held (searching c n) = held_by true false true
held (searched c n r) = held_by true false true
held (add c i) = held_by true false false
held (add_super c i) = held_by true true false
held (adding c i) = held_by true true true
held (added c i) = held_by true true true
held (added_super c i) = held_by true true false
held (name_it c i) = held_by true false false
held (grow c) = held_by true false false
held (growing c) = held_by true true false
held (save b d) = held_by b true false
held (saving b d) = held_by b true true
held (saved b d) = held_by b true true
held (leave_mgmt b) = held_by b true false
held leave = held_by true false false
held (fill w) = none_held
held (size w) = none_held
held (sizing w) = held_by false true false

-- How many steps a thread has before it at most.
unfoldable pub left : Pc → ℕ
left idle = 0
left (enter c) = 22
left (count c) = 21
left (counting c) = 20
left (counted c n) = 19
left (check c n) = 18
left (search c n) = 17
left (searching c n) = 16
left (searched c n r) = 15
left (add c i) = 14
left (add_super c i) = 13
left (adding c i) = 12
left (added c i) = 11
left (added_super c i) = 10
left (name_it c i) = 9
left (grow c) = 8
left (growing c) = 7
left (save b d) = 6
left (saving b d) = 5
left (saved b d) = 4
left (leave_mgmt b) = 3
left leave = 1
left (fill w) = 9
left (size w) = 8
left (sizing w) = 7

-- None of the mutexes that the thread holds comes before this one in the order of the three, nor is it this one.
unfoldable pub InOrder : Lock → Locks → Type 0
InOrder children h = h ≡ none_held
InOrder inodes_mgmt h = (h.holds_inodes_mgmt ≡ false) × (h.holds_sb ≡ false)
InOrder sb_lock h = h.holds_sb ≡ false

-- The mutexes are taken in order, what is released is held, and every step is one less to go.
unfoldable pub Fair : Pc → Act → Type 0
Fair p rest = p ≡ idle
Fair p undefined = Unit {0}
Fair p (acquire l q) = InOrder l (held p) × (held q ≡ set_lock (held p) l true) × (left q < left p)
Fair p (release l q) =
    (holds (held p) l ≡ true) × (held q ≡ set_lock (held p) l false) × (left q < left p)
Fair p (compute m q) = (held q ≡ held p) × (left q < left p)

pub act-Fair : (m : Shared) (p : Pc) → Fair p (act m p)
unfolding act held left InOrder Fair
act-Fair m idle = refl
act-Fair m (enter c) = (refl, refl, omega arith)
act-Fair m (count c) = ((refl, refl), refl, omega arith)
act-Fair m (counting c) = (refl, omega arith)
act-Fair m (counted c n) = (refl, refl, omega arith)
act-Fair m (check c n) =
    elim (Bool-cases (leb max_objects n || (not (s_isdir c.mode) && not (s_isreg c.mode)))) [
      | inl refused ↦ rw refused (refl, omega arith)
      | inr fine ↦ rw fine (refl, omega arith)
    ]
act-Fair m (search c n) = (refl, refl, omega arith)
act-Fair m (searching c n) = by_scan (scan (free_blocks m.fs))
  where
    by_scan : (r : Scan) → Fair (searching c n) (mark m c n r)
    by_scan (found k) = (refl, omega arith)
    by_scan exhausted = (refl, omega arith)
    by_scan wide = tt
act-Fair m (searched c n none) = (refl, refl, omega arith)
act-Fair m (searched c n (some k)) = (refl, refl, omega arith)
act-Fair m (add c i) = ((refl, refl), refl, omega arith)
act-Fair m (add_super c i) = (refl, refl, omega arith)
act-Fair m (adding c i) = (refl, omega arith)
act-Fair m (added c i) = (refl, refl, omega arith)
act-Fair m (added_super c i) = (refl, refl, omega arith)
act-Fair m (name_it c i) =
    elim (Bool-cases (ltb 4096 (record_bytes * (m.inodes c.dir).file_size + record_bytes))) [
      | inl over ↦ rw over tt
      | inr within ↦ rw within (refl, omega arith)
    ]
act-Fair m (grow c) = ((refl, refl), refl, omega arith)
act-Fair m (growing c) = (refl, omega arith)
act-Fair m (save b d) = (refl, refl, omega arith)
act-Fair m (saving b d) = (refl, omega arith)
act-Fair m (saved b d) = (refl, refl, omega arith)
act-Fair m (leave_mgmt true) = (refl, refl, omega arith)
act-Fair m (leave_mgmt false) = (refl, refl, omega arith)
act-Fair m leave = (refl, refl, omega arith)
act-Fair m (fill w) = elim (Bool-cases (ltb 4096 (w.ppos + length w.buf))) [
  | inl over ↦ rw over tt
  | inr within ↦ rw within (refl, omega arith)
]
act-Fair m (size w) = ((refl, refl), refl, omega arith)
act-Fair m (sizing w) = (refl, omega arith)
