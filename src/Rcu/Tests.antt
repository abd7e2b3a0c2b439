-- ===== src/Rcu/Tests.antt =====
-- A run of RCU/simple.c in which the updater replaces the structure that the reader holds.
use lkm.Prelude.{◌≤◌, ◌≡◌, refl, ◌⊎◌, true, [], ◌∷◌}
use lkm.Rcu.{
  pr_info, holding, State, Step, rcu_read_lock, rcu_dereference, prepare, rcu_assign_pointer,
  call_rcu, start, Reachable, at_start, after,
}
use lkm.Rcu.Order.{Falls, printed_values-Falls}
use lkm.Rcu.Safety.{no_use_after_free}
use lkm.Rcu.Progress.{none_yet, one_more}
use lkm.Rcu.Ends.{AllDone, Steps-ends}

abbrev read : State
read = record start { reader = holding 0; reader_cnt = 1 }

-- The reader holds structure 0, which waits for it.
abbrev replaced : (s : State) × Reachable s × (s.reader ≡ holding 0) × (s.waiting ≡ (0, true) ∷ [])
replaced = (
  _,
  after
      (after
        (after (after (after at_start (rcu_read_lock 1 refl refl)) (rcu_dereference refl))
          (prepare 1 refl refl))
        (rcu_assign_pointer 0 1 refl))
      (call_rcu 0 refl),
  refl,
  refl,
)

no_use_after_free_example : (replaced.0.live replaced.0.g_pfoo ≡ true) × (replaced.0.live 0 ≡ true)
no_use_after_free_example = no_use_after_free replaced.0 0 replaced.1 refl

Steps-ends_example : (2 ≤ 16) × (AllDone read ⊎ ((t : State) × Step read t))
Steps-ends_example =
    Steps-ends 2 read
      (one_more (rcu_read_lock 1 refl refl) (one_more (rcu_dereference refl) none_yet))

-- The reader prints the first structure's value after the updater has published another.
printed_values-Falls_example : Falls 1 (0 ∷ [])
printed_values-Falls_example = printed_values-Falls _ (after replaced.1 (pr_info 0 refl))
