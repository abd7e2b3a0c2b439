-- ===== src/Deferred.antt =====
-- tasklet/simple.c, workqueue/simple.c, worker/simple.c and soft_irq/simple.c: a callback that the init
-- function asks for and that runs later, beside the exit function.
pub mod Exits
mod Tests
use lkm.Prelude.{ℕ, suc, ◌≡◌, ◌≢◌, Bool, true, false}

pub data Kind : Type 0 where
  tasklet workqueue worker soft_irq : Kind

pub data Phase : Type 0 where
  loaded exiting unloaded : Phase

-- `pending` and `running` are about the callback: my_handler, my_func or hello_printk. `runs` counts
-- how often it has been started, and `late` how often when the module was gone.
pub record Work : Type 0 where
  pub pending : Bool
  pub running : Bool
  pub phase : Phase
  pub runs : ℕ
  pub late : ℕ

-- tasklet_schedule, queue_work, kthread_queue_work or raise_softirq, once.
abbrev pub my_init : Work
my_init = record { pending = true; running = false; phase = loaded; runs = 0; late = 0 }

abbrev pub late_in : Phase → ℕ → ℕ
late_in unloaded n = suc n
late_in _ n = n

-- tasklet_kill, destroy_workqueue and kthread_destroy_worker come back when no callback is pending or
-- running; raise_softirq_irqoff comes back at once.
pub data Step (k : Kind) (s : Work) : Work → Type 0 where
  begins :
      s.pending ≡ true
      → s.running ≡ false
      → Step k s (record s {
        pending = false;
        running = true;
        runs = suc s.runs;
        late = late_in s.phase s.late;
      })
  ends : s.running ≡ true → Step k s (record s { running = false })
  my_exit : s.phase ≡ loaded → k ≢ soft_irq → Step k s (record s { phase = exiting })
  my_exit_returns :
      s.phase ≡ exiting
      → s.pending ≡ false
      → s.running ≡ false
      → Step k s (record s { phase = unloaded })
  raise_softirq_irqoff :
      s.phase ≡ loaded → k ≡ soft_irq → Step k s (record s { pending = true; phase = unloaded })

pub data Reachable (k : Kind) : Work → Type 0 where
  init : Reachable k my_init
  then_step : {s t : Work} → Reachable k s → Step k s t → Reachable k t
