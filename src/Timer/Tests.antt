-- ===== src/Timer/Tests.antt =====
-- Runs of the timers.
use lkm.Prelude.{◌≡◌, refl, true}
use lkm.Timer.{cancelling, unloaded}
use lkm.Timer.Higher.{
  HrTimer, expire, module_hrtimer_exit, HrReachable, module_hrtimer_init, after, HrPlace,
  HrReachable-HrPlace,
}
use lkm.Timer.Lower.{
  LrTimer, LrReachable, module_lrtimer_init, then_lr, run_out, timer_cb, module_lrtimer_exit,
}

-- The exit function waits for the callback.
abbrev waiting : (s : HrTimer) × HrReachable s × (s.phase ≡ cancelling) × (s.running ≡ true)
waiting =
    (_, after (after (module_hrtimer_init 7) (expire refl)) (module_hrtimer_exit refl), refl, refl)

place_run :
    HrPlace cancelling waiting.0.queued waiting.0.running
    × (waiting.0.uptime ≡ waiting.0.uptime_last)
place_run = HrReachable-HrPlace waiting.0 waiting.1

-- When the module goes while the callback runs, the timer is started again without the module.
pending_without_module : (s : LrTimer) × LrReachable s × (s.phase ≡ unloaded) × (s.pending ≡ true)
pending_without_module = (
  _,
  then_lr (then_lr (then_lr module_lrtimer_init (run_out refl)) (module_lrtimer_exit refl))
      (timer_cb refl),
  refl,
  refl,
)
