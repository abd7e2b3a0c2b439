-- ===== src/Rcu/Exit.antt =====
-- RCU/simple.c, `rcu_test_exit`: g_pfoo is freed before the threads are stopped.
use lkm.Prelude.{ℕ, suc, ◌≡◌, refl, inl, inr, false, put, ◌==◌, ==-refl, Bool-cases, arith}
use lkm.Rcu.{outside, holding, State, rcu_read_lock, rcu_dereference}
use lkm.Rcu.Progress.{Steps, none_yet, one_more}
use lkm.Rcu.Ends.{AllDone}

-- `kfree(g_pfoo)`. The pointer stays, and nothing waits for the readers.
unfoldable pub rcu_test_exit : State → State
rcu_test_exit s = record s { live = put s.live s.g_pfoo false }

-- With both threads through and every callback run, nothing stays allocated.
pub rcu_test_exit-AllDone : (s : State) (p : ℕ) → AllDone s → (rcu_test_exit s).live p ≡ false
unfolding rcu_test_exit
rcu_test_exit-AllDone s p d = elim (Bool-cases (p == s.g_pfoo)) [
  | inl same ↦ rw same refl
  | inr other ↦ elim (Bool-cases (s.live p)) [
    | inl live ↦ absurd (ground (arith, other, d.5 p live))
    | inr freed ↦ rw (other, freed) refl
  ]
]

-- While the reader has a round left, it can come to read the structure that has been freed.
pub rcu_test_exit_early :
    (s : State) (c : ℕ)
    → s.reader ≡ outside
    → s.reader_cnt ≡ suc c
    → (t : State) × Steps 2 (rcu_test_exit s) t
      × (t.reader ≡ holding s.g_pfoo)
      × (t.live s.g_pfoo ≡ false)
unfolding rcu_test_exit
rcu_test_exit_early s c e k = (
  _,
  one_more (rcu_read_lock c e k) (one_more (rcu_dereference refl) none_yet),
  refl,
  rw (==-refl s.g_pfoo) refl,
)
