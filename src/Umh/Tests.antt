-- ===== src/Umh/Tests.antt =====
-- umh/simple.c: the thread with the signal sent while it sleeps, and before it runs.
use lkm.Prelude.{◌+◌, ◌≤◌, ◌≡◌, ◌≢◌, refl, ◌⊎◌, true, false}
use lkm.Umh.{
  SlamThread, sleeping, returned, kthread_signal_example_init, kthread_signal_example_exit,
  ThreadStep, allow_signal, mdelay, run_umh_app, call_usermodehelper, schedule_timeout, returns,
  thread, exits, Reachable, init, then_step, ThreadRun, stays, goes,
}
use lkm.Umh.Signals.{ThreadRun-signalled, lost_signal}

abbrev asleep : SlamThread
asleep = record {
  pc = sleeping;
  allowed = true;
  pending = false;
  unloaded = false;
  runs = 1;
  runs_at_signal = 0;
}

asleep-Reachable : Reachable asleep
asleep-Reachable =
    then_step
      (then_step (then_step (then_step init (thread (allow_signal refl))) (thread (mdelay refl)))
        (thread (run_umh_app refl refl)))
      (thread (call_usermodehelper refl))

abbrev woken : SlamThread
woken = record asleep { pending = true; unloaded = true; runs_at_signal = 1 }

signalled : Reachable woken
unfolding kthread_signal_example_exit
signalled = then_step asleep-Reachable (exits refl)

abbrev over : SlamThread
over = record woken { pc = returned }

to_the_end : ThreadRun woken 2 over
to_the_end = goes (goes stays (schedule_timeout refl)) (returns refl refl)

ThreadRun-signalled_example :
    (over.runs ≤ woken.runs_at_signal + 1)
    × (2 ≤ 3)
    × ((over.pc ≡ returned) ⊎ ((u : SlamThread) × ThreadStep over u))
ThreadRun-signalled_example = ThreadRun-signalled woken over 2 signalled refl to_the_end

lost_signal_example :
    let t = kthread_signal_example_exit kthread_signal_example_init in
    (t.unloaded ≡ true) × (t.pc ≢ returned) × ((u : SlamThread) × ThreadStep t u)
lost_signal_example = lost_signal kthread_signal_example_init _ 0 init refl refl stays
