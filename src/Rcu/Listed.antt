-- ===== src/Rcu/Listed.antt =====
-- RCU/simple.c: the list that one thread reads while another replaces its structure, waits with
-- `synchronize_rcu` for the readers, and frees the old one.
pub mod Safety
pub mod Progress
mod Tests
use lkm.Prelude.{ℕ, suc, ◌+◌, ◌≡◌, Bool, true, false, List, [], ◌∷◌, ◌==◌, put}

-- Where `rcu_reader_list` is: between its critical sections, at the start of one, at the entry of a
-- structure, after what it prints of it, where the loop reads the entry's `next`, and past the loop.
pub data ListReader : Type 0 where
  away entered past : ListReader
  at_entry after_entry : ℕ → ListReader

unfoldable pub reading : ListReader → Bool
reading away = false
reading entered = true
reading past = true
reading (at_entry p) = true
reading (after_entry p) = true

-- Where `rcu_updater_list` is: with `p` and `q`, with `p` out of the list, and in `synchronize_rcu`,
-- where the flag tells whether a critical section that was open at its start still is. `faulted` is
-- where the copy `*q = *p` has a null pointer, and the kernel ends the thread.
pub data ListUpdater : Type 0 where
  looking faulted : ListUpdater
  copied : ℕ → ℕ → ListUpdater
  replaced : ℕ → ListUpdater
  synchronizing : ℕ → Bool → ListUpdater

-- `struct foo`s are numbered as they are allocated; 0 is the one that `rcu_test_init` allocates, and
-- counts as allocated from the start. `first` is the one in `g_rcu_list` from the time on that it is
-- `listed`, before which the list is empty; `a` and `live` tell the field of each, and whether it is
-- allocated; `log` is what the reader has printed.
pub record ListState : Type 0 where
  pub listed : Bool
  pub first : ℕ
  pub a : ℕ → ℕ
  pub live : ℕ → Bool
  pub allocated : ℕ
  pub reader : ListReader
  pub reader_cnt : ℕ
  pub updater : ListUpdater
  pub updater_cnt : ℕ
  pub value : ℕ
  pub log : List ℕ

-- The readers' critical section ends under `synchronize_rcu`.
unfoldable pub sections_end : ListUpdater → ListUpdater
sections_end looking = looking
sections_end faulted = faulted
sections_end (copied p q) = copied p q
sections_end (replaced p) = replaced p
sections_end (synchronizing p b) = synchronizing p false

-- A step of `rcu_test_init` or of one of the threads, which it starts before it fills the list. The
-- allocation of `rcu_test_init` fails in the runs without `list_add_rcu`.
pub data ListStep : ListState → ListState → Type 0 where
  list_add_rcu : {s : ListState} → s.listed ≡ false → ListStep s (record s { listed = true })
  rcu_read_lock :
      {s : ListState} (c : ℕ)
      → s.reader ≡ away
      → s.reader_cnt ≡ suc c
      → ListStep s (record s { reader = entered; reader_cnt = c })
  no_entry :
      {s : ListState}
      → s.reader ≡ entered
      → s.listed ≡ false
      → ListStep s (record s { reader = past })
  list_for_each_entry_rcu :
      {s : ListState}
      → s.reader ≡ entered
      → s.listed ≡ true
      → ListStep s (record s { reader = at_entry s.first })
  pr_info :
      {s : ListState} (p : ℕ)
      → s.reader ≡ at_entry p
      → ListStep s (record s { reader = after_entry p; log = s.a p ∷ s.log })
  next_entry :
      {s : ListState} (p : ℕ) → s.reader ≡ after_entry p → ListStep s (record s { reader = past })
  rcu_read_unlock :
      {s : ListState}
      → s.reader ≡ past
      → ListStep s (record s { reader = away; updater = sections_end s.updater })
  kzalloc_fails :
      {s : ListState} (c : ℕ)
      → s.updater ≡ looking
      → s.updater_cnt ≡ suc c
      → ListStep s (record s { updater = faulted; updater_cnt = c })
  no_first :
      {s : ListState} (c : ℕ)
      → s.updater ≡ looking
      → s.updater_cnt ≡ suc c
      → s.listed ≡ false
      → ListStep s (record s {
        updater = faulted;
        updater_cnt = c;
        live = put s.live s.allocated true;
        allocated = 1 + s.allocated;
      })
  prepare :
      {s : ListState} (c : ℕ)
      → s.updater ≡ looking
      → s.updater_cnt ≡ suc c
      → s.listed ≡ true
      → ListStep s (record s {
        updater = copied s.first s.allocated;
        updater_cnt = c;
        a = put s.a s.allocated s.value;
        live = put s.live s.allocated true;
        allocated = 1 + s.allocated;
      })
  list_replace_rcu :
      {s : ListState} (p q : ℕ)
      → s.updater ≡ copied p q
      → ListStep s (record s { updater = replaced p; first = q })
  synchronize_rcu :
      {s : ListState} (p : ℕ)
      → s.updater ≡ replaced p
      → ListStep s (record s { updater = synchronizing p (reading s.reader) })
  kfree :
      {s : ListState} (p : ℕ)
      → s.updater ≡ synchronizing p false
      → ListStep s (record s { updater = looking; live = put s.live p false; value = 1 + s.value })

-- The threads are started, and the list is empty.
abbrev pub list_start : ListState
list_start = record {
  listed = false;
  first = 0;
  a = λ n. 0;
  live = λ n. n == 0;
  allocated = 1;
  reader = away;
  reader_cnt = 2;
  updater = looking;
  updater_cnt = 2;
  value = 1000;
  log = [];
}

-- A run of `n` steps.
pub data ListRun : ℕ → ListState → Type 0 where
  at_list_start : ListRun 0 list_start
  then_step : {n : ℕ} {s t : ListState} → ListRun n s → ListStep s t → ListRun (suc n) t
