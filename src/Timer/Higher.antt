-- ===== src/Timer/Higher.antt =====
-- timer/higer_resolution/simple.c: the timer is cancelled with `hrtimer_cancel`.
use lkm.Prelude.{ℕ, ◌≡◌, refl, ◌⊎◌, inl, inr, Bool, true, false}
use lkm.Timer.{Phase, loaded, cancelling, unloaded}

-- Whether the timer is in the kernel's queue and whether its callback runs, and the two times that
-- the callback keeps.
pub record HrTimer : Type 0 where
  pub queued : Bool
  pub running : Bool
  pub uptime : ℕ
  pub uptime_last : ℕ
  pub phase : Phase

-- A step of the clock, of the callback, or of the exit function. `hrtimer_cancel` takes the timer out
-- of the queue when its callback does not run, and waits for it when it does.
pub data HrStep (s : HrTimer) : HrTimer → Type 0 where
  expire : s.queued ≡ true → HrStep s (record s { queued = false; running = true })
  my_hrtimer_callback :
      (now : ℕ)
      → s.running ≡ true
      → HrStep s (record s { queued = true; running = false; uptime = now; uptime_last = now })
  module_hrtimer_exit : s.phase ≡ loaded → HrStep s (record s { phase = cancelling })
  hrtimer_cancel :
      s.phase ≡ cancelling
      → s.running ≡ false
      → HrStep s (record s { queued = false; phase = unloaded })

-- What `module_hrtimer_init` leaves, at a time.
pub data HrReachable : HrTimer → Type 0 where
  module_hrtimer_init :
      (now : ℕ)
      → HrReachable (record {
        queued = true;
        running = false;
        uptime = now;
        uptime_last = now;
        phase = loaded;
      })
  after : {s t : HrTimer} → HrReachable s → HrStep s t → HrReachable t

-- The timer is queued or its callback runs, and not both, until the module is gone; then neither.
unfoldable pub HrPlace : Phase → Bool → Bool → Type 0
HrPlace loaded q r = ((q ≡ true) × (r ≡ false)) ⊎ ((q ≡ false) × (r ≡ true))
HrPlace cancelling q r = ((q ≡ true) × (r ≡ false)) ⊎ ((q ≡ false) × (r ≡ true))
HrPlace unloaded q r = (q ≡ false) × (r ≡ false)

expired : (p : Phase) (q r : Bool) → q ≡ true → HrPlace p q r → HrPlace p false true
unfolding HrPlace
expired loaded q r e h = inr (refl, refl)
expired cancelling q r e h = inr (refl, refl)
expired unloaded q r e (a, b) = absurd (cc (e, a))

restarted : (p : Phase) (q r : Bool) → r ≡ true → HrPlace p q r → HrPlace p true false
unfolding HrPlace
restarted loaded q r e h = inl (refl, refl)
restarted cancelling q r e h = inl (refl, refl)
restarted unloaded q r e (a, b) = absurd (cc (e, b))

leaving : (p : Phase) (q r : Bool) → p ≡ loaded → HrPlace p q r → HrPlace cancelling q r
unfolding HrPlace
leaving loaded q r e h = h
leaving cancelling q r e h = h
leaving unloaded q r e h = cc e

-- In every order of the expiries, the callbacks and the exit function, the timer is queued or its
-- callback runs while the module is there; when `hrtimer_cancel` has returned, the timer is not queued
-- and its callback does not run. The two times are the same.
pub HrReachable-HrPlace :
    (s : HrTimer) → HrReachable s → HrPlace s.phase s.queued s.running × (s.uptime ≡ s.uptime_last)
HrReachable-HrPlace _ (module_hrtimer_init now) = (unfold HrPlace in inl (refl, refl), refl)
HrReachable-HrPlace _ (after {s} r (expire e)) =
    let (h, u) = HrReachable-HrPlace s r in (expired s.phase s.queued s.running e h, u)
HrReachable-HrPlace _ (after {s} r (my_hrtimer_callback now e)) =
    let (h, u) = HrReachable-HrPlace s r in (restarted s.phase s.queued s.running e h, refl)
HrReachable-HrPlace _ (after {s} r (module_hrtimer_exit e)) =
    let (h, u) = HrReachable-HrPlace s r in (leaving s.phase s.queued s.running e h, u)
HrReachable-HrPlace _ (after {s} r (hrtimer_cancel e w)) =
    let (h, u) = HrReachable-HrPlace s r in (unfold HrPlace in (refl, w), u)
