-- ===== src/WakeUp/Tests.antt =====
-- wake_up/simple.c: a thread that wakes the queue up at once, and one that comes when my_init has
-- slept for all its time and returned.
use lkm.Prelude.{ℕ, zero, suc, ◌-◌, ◌≤◌, ◌≡◌, refl, ◌⊎◌, true, false, arith}
use lkm.WakeUp.{
  Queue, asleep, awake, returned, before, behind, wake_up, Step, schedule_timeout_uninterruptible,
  jiffy, runs_out, returns, Reachable, init, then_step,
}
use lkm.WakeUp.Frame.{Reachable-dead_use}

abbrev sleeping_for : ℕ → Queue
sleeping_for n = record {
  sleeper = asleep;
  waker = before;
  left = n;
  timeout = 0;
  dead_use = false;
}

woken_early :
    wake_up (sleeping_for 3000)
    ≡ record { sleeper = awake; waker = behind; left = 3000; timeout = 3000; dead_use = false }
unfolding wake_up
woken_early = refl

passes : (k : ℕ) → k ≤ 3000 → Reachable (sleeping_for (3000 - k))
passes zero h = then_step init (schedule_timeout_uninterruptible refl)
passes (suc k) h = then_step (passes k (omega arith)) (jiffy refl (omega arith))

abbrev late : Queue
late = record { sleeper = returned; waker = before; left = 0; timeout = 0; dead_use = false }

late-Reachable : Reachable late
late-Reachable =
    then_step (then_step (passes 3000 (omega arith)) (runs_out refl refl)) (returns refl)

Reachable-dead_use_example :
    ((late.waker ≡ behind) × ((late.dead_use ≡ false) ⊎ (late.timeout ≡ 0)))
    ⊎ ((late.waker ≡ before) × (late.timeout ≡ 0) × (t : Queue) × Step late t × (t.dead_use ≡ true))
Reachable-dead_use_example = Reachable-dead_use late late-Reachable refl
