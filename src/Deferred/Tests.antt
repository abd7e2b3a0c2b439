-- ===== src/Deferred/Tests.antt =====
-- tasklet/ and soft_irq/: the callback before the exit function, and behind it.
use lkm.Prelude.{◌≡◌, ◌≤◌, refl, ◌⊎◌, true, false}
use lkm.Deferred.{
  tasklet, soft_irq, Work, unloaded, begins, ends, my_exit, my_exit_returns, raise_softirq_irqoff,
  Reachable, init, then_step,
}
use lkm.Deferred.Exits.{Reachable-once, Reachable-late}

abbrev killed : Work
killed = record { pending = false; running = false; phase = unloaded; runs = 1; late = 0 }

-- tasklet_kill is called before the callback has begun, and waits for it.
killed-Reachable : Reachable tasklet killed
killed-Reachable =
    then_step
      (then_step (then_step (then_step init (my_exit refl (λ e. cc e))) (begins refl refl))
        (ends refl))
      (my_exit_returns refl refl refl)

once_run :
    (killed.runs ≡ 1) × (killed.late ≡ 0) × (killed.running ≡ false) × (killed.pending ≡ false)
once_run = Reachable-once tasklet killed (λ e. cc e) killed-Reachable refl

abbrev raised : Work
raised = record { pending = true; running = false; phase = unloaded; runs = 0; late = 0 }

raised-Reachable : Reachable soft_irq raised
raised-Reachable = then_step init (raise_softirq_irqoff refl refl)

raised_late : (raised.pending ≡ true) ⊎ (1 ≤ raised.late)
raised_late = Reachable-late raised raised-Reachable refl
