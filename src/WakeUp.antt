-- ===== src/WakeUp.antt =====
-- wake_up/simple.c: the init function puts itself on a queue and sleeps, and a thread wakes the queue
-- up. The queue's entry is a variable of the init function, and is never taken off.
pub mod Frame
mod Tests
use lkm.Prelude.{ℕ, zero, suc, ◌≡◌, Bool, true, false}

-- Where my_init stands: behind wake_up_process, in schedule_timeout_uninterruptible, behind it, or
-- returned.
pub data Sleeper : Type 0 where
  going asleep awake returned : Sleeper

-- Where func_weakup stands: before or behind __wake_up.
pub data Waker : Type 0 where
  before behind : Waker

-- `left` are the jiffies of the sleep that are left, `timeout` is what the sleep has returned, and
-- `dead_use` tells whether the entry has been used when its frame was gone.
pub record Queue : Type 0 where
  pub sleeper : Sleeper
  pub waker : Waker
  pub left : ℕ
  pub timeout : ℕ
  pub dead_use : Bool

-- `1000*3`
abbrev pub my_init : Queue
my_init = record { sleeper = going; waker = before; left = 3000; timeout = 0; dead_use = false }

-- `__wake_up(&head, TASK_NORMAL, 0, NULL)`: the thread of the entry is woken when it sleeps, and the
-- sleep returns the time that is left.
unfoldable pub woken : Queue → Sleeper → Queue
woken s going = record s { waker = behind }
woken s asleep = record s { waker = behind; sleeper = awake; timeout = s.left }
woken s awake = record s { waker = behind }
woken s returned = record s { waker = behind; dead_use = true }

unfoldable pub wake_up : Queue → Queue
unfolding woken
wake_up s = woken s s.sleeper

pub data Step (s : Queue) : Queue → Type 0 where
  schedule_timeout_uninterruptible : s.sleeper ≡ going → Step s (record s { sleeper = asleep })
  jiffy : {n : ℕ} → s.sleeper ≡ asleep → s.left ≡ suc n → Step s (record s { left = n })
  runs_out : s.sleeper ≡ asleep → s.left ≡ 0 → Step s (record s { sleeper = awake; timeout = 0 })
  returns : s.sleeper ≡ awake → Step s (record s { sleeper = returned })
  func_weakup : s.waker ≡ before → Step s (wake_up s)

pub data Reachable : Queue → Type 0 where
  init : Reachable my_init
  then_step : {s t : Queue} → Reachable s → Step s t → Reachable t
