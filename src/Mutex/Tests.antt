-- ===== src/Mutex/Tests.antt =====
-- Runs of mutex/simple.c and mutex/poc.c.
use lkm.Prelude.{ℕ, ◌≡◌, refl, false}
use lkm.Mutex.{
  Program, locking, returned, read_file, Args, advanced, ret_of, call, mutex_lock, State, pick,
  Reachable, at_start, after,
}
use lkm.Mutex.Atomic.{AtomicRun, view_mem, view_threads}
use lkm.Mutex.Refinement.{Reachable-AtomicRun}
use lkm.Mutex.Calls.{StepsOf, no_step, by_thread, WaitsOrHolds, Reachable-returned}
use lkm.Mutex.Poc.{cnt, child1_breaks, Child, child1, child2, child1_loops}

abbrev zeros : ℕ → ℕ
zeros k = 0

abbrev read_args : Args
read_args = record { user = zeros; size = cnt; offt = 0 }

-- `child2` has the mutex, and `child1` waits for it.
abbrev contended : (s : State) × Reachable Child s × (s.pc 1 ≡ locking read_file read_args)
contended = (
  _,
  after (after (after at_start (pick 2 (call (child2 zeros 0)))) (pick 2 (mutex_lock refl)))
      (pick 1 (call (child1 zeros 0))),
  refl,
)

Reachable-AtomicRun_example :
    AtomicRun Child
      (view_mem contended.0.mem contended.0.pc)
      (view_threads contended.0.mem.buff contended.0.pc)
Reachable-AtomicRun_example = Reachable-AtomicRun contended.0 contended.1

Reachable-returned_example :
    (t : State) × (user : ℕ → ℕ) × StepsOf
      (WaitsOrHolds 1 contended.0.mem.mutex)
      Child
      contended.0
      t
    × (t.pc 1 ≡ returned read_file (advanced (record read_args { user = user })) (ret_of read_args))
Reachable-returned_example =
    Reachable-returned contended.0 1 read_file read_args contended.1 contended.2

reached :
    {P : ℕ → Type 0} {W : Program} {s t : State} → Reachable W s → StepsOf P W s t → Reachable W t
reached r no_step = r
reached r (by_thread j may mv run) = reached (after r (pick j mv)) run

-- The state in which `child1` is back from the read that waited.
abbrev back :
    (s : State) × (user : ℕ → ℕ) × Reachable Child s
    × (s.pc 1 ≡ returned read_file (record { user = user; size = cnt; offt = 0x100 }) cnt)
back =
    let (t, user, run, e) =
      Reachable-returned contended.0 1 read_file read_args contended.1 contended.2 in
    (t, user, reached contended.1 run, e)

child1_loops_example : (cnt ≡ cnt) × (child1_breaks (back.1) ≡ false)
child1_loops_example =
    child1_loops back.0 1 (record { user = back.1; size = cnt; offt = 0x100 }) cnt back.2 back.3
