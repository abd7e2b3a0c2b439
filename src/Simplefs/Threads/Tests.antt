-- ===== src/Simplefs/Threads/Tests.antt =====
-- Two threads on a new file system: one makes a file in the root directory, one writes to a file.
use lkm.Prelude.{
  ℕ, zero, suc, ◌*◌, ◌≤◌, ◌≡◌, refl, ap, ◌∙◌, Option, none, some, List, [], ◌∷◌, ◌⊎◌, inl, inr,
  ◌==◌, Bool-cases, arith,
}
use lkm.Prelude.Bytes.{load, load64, store64, from_le, store, to_le}
use lkm.Simplefs.Layout.{Inode, read_inode}
use lkm.Simplefs.Layout.Laws.{Fits}
use lkm.Simplefs.Inodes.Table.{table, slots, find_inode}
use lkm.Simplefs.Mkfs.{format, root_inode}
use lkm.Simplefs.Volume.Blocks.{find_inode-number}
use lkm.Simplefs.Volume.Sample.{in_use, in_use-Sound, other_known, root_known}
use lkm.Simplefs.Threads.{
  Creation, Writing, count, counting, Shared, act, State, acquires, goes, begins_creation,
  begins_write, Reachable, at_start, after, idle,
}
use lkm.Simplefs.Threads.Store.{view, Good, Agrees}
use lkm.Simplefs.Threads.Safety.{Reachable-Good}
use lkm.Simplefs.Threads.Progress.{Moves}
use lkm.Simplefs.Threads.Ends.{GoRun, no_step, one_step, Below, Reachable-ends}

abbrev loaded_from : Option Inode → Inode
loaded_from none = root_inode
loaded_from (some i) = i

-- Every inode of the store is in memory.
abbrev loaded : Shared
loaded = record { fs = in_use; inodes = λ d. loaded_from (find_inode d (table in_use)) }

AllFit : List Inode → Type 0
AllFit [] = Unit {0}
AllFit (i ∷ is) = Fits i × AllFit is

find_inode-Fits :
    (d : ℕ) (is : List Inode) (j : Inode) → AllFit is → find_inode d is ≡ some j → Fits j
unfolding AllFit find_inode
find_inode-Fits d [] j h e = cc e
find_inode-Fits d (i ∷ is) j (f, h) e = elim (Bool-cases (i.inode_no == d)) [
  | inl here ↦ ground (arith, f)
  | inr there ↦ find_inode-Fits d is j h (rw there at e)
]

in_use-AllFit : AllFit (table in_use)
unfolding AllFit slots read_inode format from_le load load64 store64 store to_le
in_use-AllFit = (omega arith, (omega arith, (omega arith, tt)))

loaded-Agrees : Agrees loaded
unfolding Agrees
loaded-Agrees d j e =
    let q : loaded_from (find_inode d (table in_use)) ≡ j = ap loaded_from e in
    record {
      number = ap (λ i. i.inode_no) q ∙ find_inode-number d (table in_use) j e;
      block = ap (λ i. i.data_block_number) q;
      fits = rw q (find_inode-Fits d (table in_use) j in_use-AllFit e);
    }

loaded-Good : Good (view in_use)
loaded-Good = record {
  numbered = in_use-Sound.numbered.0;
  below = in_use-Sound.numbered.1;
  apart = in_use-Sound.apart;
  taken = in_use-Sound.taken;
  word_fits = in_use-Sound.word_fits;
}

abbrev new_file : Creation
new_file = record { dir = 1; name = b'l' ∷ b'o' ∷ b'g' ∷ []; mode = 0o100644 }

abbrev two_bytes : Writing
two_bytes = record { file = 3; buf = b'h' ∷ b'i' ∷ []; ppos = 0 }

-- The first thread has the mutex of the directories, the second one is about to copy.
both_busy : (s : State) × Reachable loaded s
unfolding act
both_busy = (
  _,
  after
      (after
        (after at_start (begins_creation 0 new_file refl (λ e. cc (e, root_known)) (omega arith)))
        (goes 0 (acquires _ (count new_file) refl refl)))
      (begins_write 1 two_bytes refl (λ e. cc (e, other_known))),
)

Reachable-Good_example : Good (view both_busy.0.mem.fs) × Agrees both_busy.0.mem
Reachable-Good_example = Reachable-Good both_busy.1 loaded-Good loaded-Agrees

both_busy-Below : Below 2 both_busy.0
unfolding both_busy
both_busy-Below zero le = absurd (omega arith)
both_busy-Below (suc zero) le = absurd (omega arith)
both_busy-Below (suc (suc j)) le = ground arith

-- The first thread takes the mutex of the inodes.
next_step : (t : State) × GoRun both_busy.0 1 t
unfolding both_busy act
next_step = (_, one_step 0 no_step (acquires _ (counting new_file) refl refl))

Reachable-ends_example : (1 ≤ 22 * 2) × (((j : ℕ) → next_step.0.pc j ≡ idle) ⊎ Moves next_step.0)
Reachable-ends_example = Reachable-ends 2 1 both_busy.1 both_busy-Below next_step.1
