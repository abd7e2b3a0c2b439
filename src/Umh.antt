-- ===== src/Umh.antt =====
-- umh/simple.c: a thread that runs a program again and again until it is sent SIGKILL, and the exit
-- function, which sends the signal and does not wait.
pub mod Signals
mod Tests
use lkm.Prelude.{ℕ, suc, ◌≡◌, Bool, true, false, if◌then◌else◌}

-- Where `slam_func` stands: before `allow_signal`, in `mdelay`, at the test of the loop, in the helper,
-- in `schedule_timeout`, or behind its return.
pub data Pc : Type 0 where
  entered delaying testing helping sleeping returned : Pc

-- `pending` is `signal_pending(current)`; `unloaded` tells whether the exit function has been called.
-- `runs` counts the helpers, and `runs_at_signal` is its value when the signal came.
pub record SlamThread : Type 0 where
  pub pc : Pc
  pub allowed : Bool
  pub pending : Bool
  pub unloaded : Bool
  pub runs : ℕ
  pub runs_at_signal : ℕ

-- `kthread_run(slam_func, NULL, "slam")`
abbrev pub kthread_signal_example_init : SlamThread
kthread_signal_example_init = record {
  pc = entered;
  allowed = false;
  pending = false;
  unloaded = false;
  runs = 0;
  runs_at_signal = 0;
}

-- `send_sig(SIGKILL, slam_thread, 1)`. A thread of the kernel ignores every signal that it has not
-- allowed.
unfoldable pub kthread_signal_example_exit : SlamThread → SlamThread
kthread_signal_example_exit s = record s {
  unloaded = true;
  pending = s.allowed;
  runs_at_signal = if s.allowed then s.runs else s.runs_at_signal;
}

-- A step of the thread. The sleep ends after its time, or by a signal.
pub data ThreadStep (s : SlamThread) : SlamThread → Type 0 where
  allow_signal : s.pc ≡ entered → ThreadStep s (record s { pc = delaying; allowed = true })
  mdelay : s.pc ≡ delaying → ThreadStep s (record s { pc = testing })
  run_umh_app : s.pc ≡ testing → s.pending ≡ false → ThreadStep s (record s { pc = helping })
  call_usermodehelper :
      s.pc ≡ helping → ThreadStep s (record s { pc = sleeping; runs = suc s.runs })
  schedule_timeout : s.pc ≡ sleeping → ThreadStep s (record s { pc = testing })
  returns : s.pc ≡ testing → s.pending ≡ true → ThreadStep s (record s { pc = returned })

pub data Step (s : SlamThread) : SlamThread → Type 0 where
  thread : {t : SlamThread} → ThreadStep s t → Step s t
  exits : s.unloaded ≡ false → Step s (kthread_signal_example_exit s)

pub data Reachable : SlamThread → Type 0 where
  init : Reachable kthread_signal_example_init
  then_step : {s t : SlamThread} → Reachable s → Step s t → Reachable t

-- Steps of the thread alone.
pub data ThreadRun (s : SlamThread) : ℕ → SlamThread → Type 0 where
  stays : ThreadRun s 0 s
  goes : {k : ℕ} {t u : SlamThread} → ThreadRun s k t → ThreadStep t u → ThreadRun s (suc k) u
