-- ===== src/WakeUp/Frame.antt =====
-- wake_up/simple.c: when the entry of the queue is used.
use lkm.Prelude.{◌≡◌, refl, ◌⊎◌, inl, inr, true, false, ap, Bool-cases}
use lkm.WakeUp.{
  Sleeper, going, asleep, awake, returned, Waker, before, behind, Queue, woken, wake_up, Step,
  schedule_timeout_uninterruptible, jiffy, runs_out, returns, func_weakup, Reachable, init,
  then_step,
}

-- Nothing else than the time or the thread ends the sleep.
record Inv (s : Queue) : Type 0 where
  early : s.waker ≡ before → s.timeout ≡ 0
  unused : s.waker ≡ before → s.dead_use ≡ false
  late : s.dead_use ≡ true → s.timeout ≡ 0

wake_up-Inv : (s : Queue) → s.waker ≡ before → Inv s → Inv (wake_up s)
unfolding wake_up
wake_up-Inv s w h = go s.sleeper
  where
    go : (p : Sleeper) → Inv (woken s p)
    go going = record { early = λ e. cc; unused = λ e. cc; late = λ e. cc (e, h.unused w) }
    go asleep = record { early = λ e. cc; unused = λ e. cc; late = λ e. cc (e, h.unused w) }
    go awake = record { early = λ e. cc; unused = λ e. cc; late = λ e. cc (e, h.unused w) }
    go returned = record { early = λ e. cc; unused = λ e. cc; late = λ e. h.early w }

Reachable-Inv : {s : Queue} → Reachable s → Inv s
Reachable-Inv init = record { early = λ e. refl; unused = λ e. refl; late = λ e. cc }
Reachable-Inv (then_step r (schedule_timeout_uninterruptible e)) =
    let h = Reachable-Inv r in record { early = h.early; unused = h.unused; late = h.late }
Reachable-Inv (then_step r (jiffy e l)) =
    let h = Reachable-Inv r in record { early = h.early; unused = h.unused; late = h.late }
Reachable-Inv (then_step r (runs_out e l)) =
    let h = Reachable-Inv r in record { early = λ e. refl; unused = h.unused; late = λ e. refl }
Reachable-Inv (then_step r (returns e)) =
    let h = Reachable-Inv r in record { early = h.early; unused = h.unused; late = h.late }
Reachable-Inv (then_step r (func_weakup w)) = wake_up-Inv _ w (Reachable-Inv r)

-- The only step that is left uses the entry.
next_uses : {s t : Queue} → s.sleeper ≡ returned → s.waker ≡ before → Step s t → t.dead_use ≡ true
unfolding wake_up woken
next_uses p w (schedule_timeout_uninterruptible e) = cc
next_uses p w (jiffy e l) = cc
next_uses p w (runs_out e l) = cc
next_uses p w (returns e) = cc
next_uses {s} p w (func_weakup q) = ap (λ p. (woken s p).dead_use) p

-- In every order of the steps, when my_init has returned: either the thread has woken the queue up, and
-- the entry was still there, or the sleep had run out of its time; or the thread has not, the sleep has
-- run out of its time, and the step that is left, the thread's, uses the entry that is gone.
pub Reachable-dead_use :
    (s : Queue)
    → Reachable s
    → s.sleeper ≡ returned
    → ((s.waker ≡ behind) × ((s.dead_use ≡ false) ⊎ (s.timeout ≡ 0)))
      ⊎ ((s.waker ≡ before) × (s.timeout ≡ 0) × (t : Queue) × Step s t × (t.dead_use ≡ true))
Reachable-dead_use s r gone = go s.waker refl
  where
    h : Inv s
    h = Reachable-Inv r

    go :
        (w : Waker)
        → s.waker ≡ w
        → ((s.waker ≡ behind) × ((s.dead_use ≡ false) ⊎ (s.timeout ≡ 0)))
          ⊎ ((s.waker ≡ before) × (s.timeout ≡ 0) × (t : Queue) × Step s t × (t.dead_use ≡ true))
    go before w = inr (w, h.early w, _, func_weakup w, next_uses gone w (func_weakup w))
    go behind w = elim (Bool-cases s.dead_use) [
      | inl used ↦ inl (w, inr (h.late used))
      | inr unused ↦ inl (w, inl unused)
    ]
