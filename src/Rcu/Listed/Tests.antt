-- ===== src/Rcu/Listed/Tests.antt =====
-- A run of RCU/simple.c in which the reader has the structure in hand that the updater replaces.
use lkm.Prelude.{◌≤◌, ◌≡◌, ◌≢◌, refl, ◌⊎◌, inl, true, false}
use lkm.Rcu.Listed.{
  ListState, reading, synchronizing, ListStep, list_add_rcu, rcu_read_lock, list_for_each_entry_rcu,
  prepare, list_replace_rcu, synchronize_rcu, ListRun, at_list_start, then_step,
}
use lkm.Rcu.Listed.Safety.{InHand, list_no_use_after_free}
use lkm.Rcu.Listed.Progress.{Finished, ListRun-ends}

-- The updater waits for the reader, which has structure 0.
abbrev waiting :
    (s : ListState) × ListRun 6 s × InHand s.reader 0 × (s.updater ≡ synchronizing 0 true)
waiting = (
  _,
  then_step
      (then_step
        (then_step
          (then_step
            (then_step (then_step at_list_start (list_add_rcu refl)) (rcu_read_lock 1 refl refl))
            (list_for_each_entry_rcu refl refl))
          (prepare 1 refl refl refl))
        (list_replace_rcu 0 1 refl))
      (synchronize_rcu 0 refl),
  unfold InHand in inl refl,
  unfold reading in refl,
)

list_no_use_after_free_example :
    (waiting.0.live waiting.0.first ≡ true)
    × (waiting.0.live 0 ≡ true)
    × (waiting.0.updater ≢ synchronizing waiting.0.first false)
    × (waiting.0.updater ≢ synchronizing 0 false)
list_no_use_after_free_example = list_no_use_after_free 6 waiting.0 0 waiting.1 waiting.2

ListRun-ends_example : (6 ≤ 19) × (Finished waiting.0 ⊎ ((t : ListState) × ListStep waiting.0 t))
ListRun-ends_example = ListRun-ends 6 waiting.0 waiting.1
