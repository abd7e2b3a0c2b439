-- ===== src/Timer/Lower.antt =====
-- timer/lower_resolution/simple.c: the timer is deleted with `del_timer`, which does not wait for the
-- callback.
use lkm.Prelude.{◌≡◌, Bool, true, false}
use lkm.Timer.{Phase, loaded, unloaded}

pub record LrTimer : Type 0 where
  pub pending : Bool
  pub running : Bool
  pub phase : Phase

-- A step of the clock, of the callback, which starts the timer again, or of the exit function.
pub data LrStep (s : LrTimer) : LrTimer → Type 0 where
  run_out : s.pending ≡ true → LrStep s (record s { pending = false; running = true })
  timer_cb : s.running ≡ true → LrStep s (record s { pending = true; running = false })
  module_lrtimer_exit : s.phase ≡ loaded → LrStep s (record s { pending = false; phase = unloaded })

-- What `module_lrtimer_init` leaves.
abbrev pub lr_start : LrTimer
lr_start = record { pending = true; running = false; phase = loaded }

pub data LrReachable : LrTimer → Type 0 where
  module_lrtimer_init : LrReachable lr_start
  then_lr : {s t : LrTimer} → LrReachable s → LrStep s t → LrReachable t
