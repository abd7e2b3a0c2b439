-- ===== src/Rcu.antt =====
-- RCU/simple.c: the pointer that one thread reads and another replaces, with the old structure freed
-- by a callback after the readers' critical sections.
pub mod Waiting
pub mod Threads
pub mod Safety
pub mod Progress
pub mod Order
pub mod Owed
pub mod Ends
pub mod Listed
pub mod Exit
mod Tests
use lkm.Prelude.{ℕ, zero, suc, ◌+◌, ◌≡◌, Bool, true, false, List, [], ◌∷◌, ◌==◌, put}

-- Where `rcu_reader` is, with what it has read from `g_pfoo`.
pub data Reader : Type 0 where
  outside inside printed : Reader
  holding : ℕ → Reader

-- Where `rcu_updater` is: with `old` and `new`, and with `old` after `rcu_assign_pointer`.
pub data Updater : Type 0 where
  idle : Updater
  prepared : ℕ → ℕ → Updater
  assigned : ℕ → Updater

-- `struct foo`s are numbered as they are allocated. `a` and `live` tell the field of each, and whether
-- it is allocated; `waiting` are those given to `call_rcu`, the latest first, each with whether a
-- critical section that was open then still is; `printed_values` is the log, the latest first.
pub record State : Type 0 where
  pub g_pfoo : ℕ
  pub a : ℕ → ℕ
  pub live : ℕ → Bool
  pub allocated : ℕ
  pub reader : Reader
  pub reader_cnt : ℕ
  pub updater : Updater
  pub updater_cnt : ℕ
  pub value : ℕ
  pub waiting : List (ℕ × Bool)
  pub printed_values : List ℕ

abbrev pub in_section : Reader → Bool
in_section outside = false
in_section inside = true
in_section printed = true
in_section (holding p) = true

-- What waits for no critical section is taken out of the list.
pub data Ripe : List (ℕ × Bool) → ℕ → List (ℕ × Bool) → Type 0 where
  here : {p : ℕ} {l : List (ℕ × Bool)} → Ripe ((p, false) ∷ l) p l
  there : {x : ℕ × Bool} {p : ℕ} {l l' : List (ℕ × Bool)} → Ripe l p l' → Ripe (x ∷ l) p (x ∷ l')

-- The end of the reader's critical section: nothing waits for it any more.
unfoldable pub release : List (ℕ × Bool) → List (ℕ × Bool)
release [] = []
release (x ∷ l) = (x.0, false) ∷ release l

-- A step of one of the threads, or of the kernel with a callback, in the runs in which the updater's
-- kzalloc succeeds, whose result it does not check.
pub data Step : State → State → Type 0 where
  rcu_read_lock :
      {s : State} (c : ℕ)
      → s.reader ≡ outside
      → s.reader_cnt ≡ suc c
      → Step s (record s { reader = inside; reader_cnt = c })
  rcu_dereference :
      {s : State} → s.reader ≡ inside → Step s (record s { reader = holding s.g_pfoo })
  pr_info :
      {s : State} (p : ℕ)
      → s.reader ≡ holding p
      → Step s (record s { reader = printed; printed_values = s.a p ∷ s.printed_values })
  rcu_read_unlock :
      {s : State}
      → s.reader ≡ printed
      → Step s (record s { reader = outside; waiting = release s.waiting })
  prepare :
      {s : State} (c : ℕ)
      → s.updater ≡ idle
      → s.updater_cnt ≡ suc c
      → Step s (record s {
        updater = prepared s.g_pfoo s.allocated;
        updater_cnt = c;
        a = put s.a s.allocated s.value;
        live = put s.live s.allocated true;
        allocated = 1 + s.allocated;
      })
  rcu_assign_pointer :
      {s : State} (old new : ℕ)
      → s.updater ≡ prepared old new
      → Step s (record s { updater = assigned old; g_pfoo = new })
  call_rcu :
      {s : State} (old : ℕ)
      → s.updater ≡ assigned old
      → Step s (record s {
        updater = idle;
        waiting = (old, in_section s.reader) ∷ s.waiting;
        value = 1 + s.value;
      })
  rcu_reclaimer :
      {s : State} (p : ℕ) (l : List (ℕ × Bool))
      → Ripe s.waiting p l
      → Step s (record s { waiting = l; live = put s.live p false })

-- The state that `rcu_test_init` leaves, its kzalloc having succeeded. It starts the threads before it
-- sets `g_pfoo`, and each sleeps for 100 ms or more before it reads `g_pfoo`: the runs modelled are those
-- in which it has finished by then. In the others a thread reads through a null pointer.
abbrev pub start : State
start = record {
  g_pfoo = 0;
  a = λ n. 0;
  live = λ n. n == 0;
  allocated = 1;
  reader = outside;
  reader_cnt = 2;
  updater = idle;
  updater_cnt = 2;
  value = 1;
  waiting = [];
  printed_values = [];
}

pub data Reachable : State → Type 0 where
  at_start : Reachable start
  after : {s t : State} → Reachable s → Step s t → Reachable t
