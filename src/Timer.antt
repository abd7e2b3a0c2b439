-- ===== src/Timer.antt =====
-- timer/: a timer whose callback starts it again, and the exit function that takes it away.
pub mod Higher
pub mod Lower
mod Tests
use lkm.Prelude.{ℕ, Bool, true, false}

-- The module in its exit function is in `hrtimer_cancel`.
pub data Phase : Type 0 where
  loaded cancelling unloaded : Phase
