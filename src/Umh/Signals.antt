-- ===== src/Umh/Signals.antt =====
-- umh/simple.c: how the thread ends once it has got its signal, and what becomes of it otherwise.
use lkm.Prelude.{
  ℕ, ◌+◌, ◌≤◌, ◌≡◌, ◌≢◌, refl, ap, sym, ◌∙◌, ◌⊎◌, inl, inr, Bool, true, false, arith, Bool-cases,
}
use lkm.Umh.{
  Pc, entered, delaying, testing, helping, sleeping, returned, SlamThread,
  kthread_signal_example_exit, ThreadStep, allow_signal, mdelay, run_umh_app, call_usermodehelper,
  schedule_timeout, returns, thread, exits, Reachable, init, then_step, ThreadRun, stays, goes,
}

-- Has the thread allowed the signal?
behind : Pc → Bool
behind entered = false
behind _ = true

ended : Pc → Bool
ended returned = true
ended _ = false

-- How many helpers may still run once the signal is pending.
to_run : Pc → ℕ
to_run helping = 1
to_run _ = 0

-- How many steps are then left.
rank : Pc → ℕ
rank entered = 0
rank delaying = 2
rank testing = 1
rank helping = 3
rank sleeping = 2
rank returned = 0

to_run-le : (p : Pc) → to_run p ≤ 1
unfolding to_run
to_run-le helping = omega arith
to_run-le entered = omega arith
to_run-le _ = omega arith

rank-le : (p : Pc) → rank p ≤ 3
unfolding rank
rank-le entered = omega arith
rank-le delaying = omega arith
rank-le testing = omega arith
rank-le helping = omega arith
rank-le sleeping = omega arith
rank-le returned = omega arith

record Inv (s : SlamThread) : Type 0 where
  allowed : s.allowed ≡ behind s.pc
  signalled : s.pending ≡ true → behind s.pc ≡ true
  few : s.pending ≡ true → s.runs + to_run s.pc ≤ s.runs_at_signal + 1
  ended_by : ended s.pc ≡ true → s.pending ≡ true

Thread-Inv : {s t : SlamThread} → ThreadStep s t → Inv s → Inv t
unfolding to_run behind ended
Thread-Inv (allow_signal e) h = ground (arith, ap to_run e, ap behind e, ap ended e)
Thread-Inv (mdelay e) h = ground (arith, ap to_run e, ap behind e, ap ended e)
Thread-Inv (run_umh_app e q) h = ground (arith, ap to_run e, ap behind e, ap ended e)
Thread-Inv (call_usermodehelper e) h = ground (arith, ap to_run e, ap behind e, ap ended e)
Thread-Inv (schedule_timeout e) h = ground (arith, ap to_run e, ap behind e, ap ended e)
Thread-Inv (returns e q) h = ground (arith, ap to_run e, ap behind e, ap ended e)

ended-behind : (p : Pc) → ended p ≡ true → behind p ≡ true
unfolding ended behind
ended-behind entered e = cc
ended-behind returned e = refl
ended-behind _ e = refl

-- The signal counts only when the thread has allowed it.
exit-Inv : (s : SlamThread) → Inv s → Inv (kthread_signal_example_exit s)
unfolding kthread_signal_example_exit
exit-Inv s h = elim (Bool-cases s.allowed) [
  | inl a ↦ record {
    allowed = h.allowed;
    signalled = λ e. sym h.allowed ∙ e;
    few = λ e. rw a (omega (arith, to_run-le s.pc));
    ended_by = λ e. h.allowed ∙ ended-behind s.pc e;
  }
  | inr a ↦ record {
    allowed = h.allowed;
    signalled = λ e. sym h.allowed ∙ e;
    few = λ e. cc;
    ended_by = λ e. h.allowed ∙ ended-behind s.pc e;
  }
]

Reachable-Inv : {s : SlamThread} → Reachable s → Inv s
unfolding to_run behind ended
Reachable-Inv init = ground arith
Reachable-Inv (then_step r (thread st)) = Thread-Inv st (Reachable-Inv r)
Reachable-Inv (then_step {s} r (exits q)) = exit-Inv s (Reachable-Inv r)

-- With the signal pending, each step of the thread leaves one less, and the signal pending.
record Nearer (s t : SlamThread) : Type 0 where
  pending : t.pending ≡ true
  behind_still : behind t.pc ≡ true
  nearer : rank t.pc + 1 ≡ rank s.pc
  at_signal : t.runs_at_signal ≡ s.runs_at_signal

Thread-Nearer :
    {s t : SlamThread} → ThreadStep s t → s.pending ≡ true → behind s.pc ≡ true → Nearer s t
unfolding rank behind
Thread-Nearer (allow_signal e) p b = ground (arith, ap behind e)
Thread-Nearer (mdelay e) p b = ground (arith, ap rank e)
Thread-Nearer (run_umh_app e q) p b = ground arith
Thread-Nearer (call_usermodehelper e) p b = ground (arith, ap rank e)
Thread-Nearer (schedule_timeout e) p b = ground (arith, ap rank e)
Thread-Nearer (returns e q) p b = ground (arith, ap rank e)

-- Runs of the thread with the signal pending.
record Near (s : SlamThread) (k : ℕ) (t : SlamThread) : Type 0 where
  reached : Reachable t
  pending : t.pending ≡ true
  behind_still : behind t.pc ≡ true
  counted : rank t.pc + k ≡ rank s.pc
  at_signal : t.runs_at_signal ≡ s.runs_at_signal

Run-Near :
    {s : SlamThread}
    → Reachable s
    → s.pending ≡ true
    → behind s.pc ≡ true
    → {k : ℕ} {t : SlamThread} → ThreadRun s k t
    → Near s k t
Run-Near r p b stays = record {
  reached = r;
  pending = p;
  behind_still = b;
  counted = omega arith;
  at_signal = refl;
}
Run-Near r p b (goes run st) =
    let n = Run-Near r p b run in
    let m = Thread-Nearer st n.pending n.behind_still in
    record {
      reached = then_step n.reached (thread st);
      pending = m.pending;
      behind_still = m.behind_still;
      counted = omega (arith, n.counted, m.nearer);
      at_signal = m.at_signal ∙ n.at_signal;
    }

-- A thread that has not returned has a step.
can_go : (s : SlamThread) → (s.pc ≡ returned) ⊎ ((t : SlamThread) × ThreadStep s t)
can_go s = go s.pc refl
  where
    go : (p : Pc) → s.pc ≡ p → (s.pc ≡ returned) ⊎ ((t : SlamThread) × ThreadStep s t)
    go entered e = inr (_, allow_signal e)
    go delaying e = inr (_, mdelay e)
    go testing e = elim (Bool-cases s.pending) [
      | inl p ↦ inr (_, returns e p)
      | inr p ↦ inr (_, run_umh_app e p)
    ]
    go helping e = inr (_, call_usermodehelper e)
    go sleeping e = inr (_, schedule_timeout e)
    go returned e = inl e

-- In every order of the steps, once the signal is pending: at most one more helper runs, the thread
-- takes at most three more steps, and it goes on until it has returned.
pub ThreadRun-signalled :
    (s t : SlamThread) (k : ℕ)
    → Reachable s
    → s.pending ≡ true
    → ThreadRun s k t
    → (t.runs ≤ s.runs_at_signal + 1)
      × (k ≤ 3)
      × ((t.pc ≡ returned) ⊎ ((u : SlamThread) × ThreadStep t u))
ThreadRun-signalled s t k r p run =
    let n = Run-Near r p ((Reachable-Inv r).signalled p) run in
    let f = (Reachable-Inv n.reached).few n.pending in
    (omega (arith, f, n.at_signal), omega (arith, n.counted, rank-le s.pc), can_go t)

-- The thread sends itself no signal, and loads no module.
ThreadRun-same :
    {s t : SlamThread} {k : ℕ}
    → ThreadRun s k t
    → (t.pending ≡ s.pending) × (t.unloaded ≡ s.unloaded)
ThreadRun-same stays = (refl, refl)
ThreadRun-same (goes run st) =
    let (p, u) = ThreadRun-same run in let (q, v) = same st in (q ∙ p, v ∙ u)
  where
    same : {s t : SlamThread} → ThreadStep s t → (t.pending ≡ s.pending) × (t.unloaded ≡ s.unloaded)
    same (allow_signal e) = (refl, refl)
    same (mdelay e) = (refl, refl)
    same (run_umh_app e q) = (refl, refl)
    same (call_usermodehelper e) = (refl, refl)
    same (schedule_timeout e) = (refl, refl)
    same (returns e q) = (refl, refl)

ThreadRun-Reachable : {s t : SlamThread} {k : ℕ} → Reachable s → ThreadRun s k t → Reachable t
ThreadRun-Reachable r stays = r
ThreadRun-Reachable r (goes run st) = then_step (ThreadRun-Reachable r run) (thread st)

not_returned : (t : SlamThread) → Inv t → t.pending ≡ false → t.pc ≢ returned
unfolding ended
not_returned t h p e = cc (h.ended_by (ap ended e), p)

goes_on : (t : SlamThread) → t.pc ≢ returned → (u : SlamThread) × ThreadStep t u
goes_on t ne = elim (can_go t) [ inl e ↦ absurd (ne e) | inr st ↦ st ]

-- When the exit function is called before the thread has allowed the signal, the signal is lost: in
-- every state of the thread from then on it has not returned, and it goes on.
pub lost_signal :
    (s t : SlamThread) (k : ℕ)
    → Reachable s
    → s.unloaded ≡ false
    → s.allowed ≡ false
    → ThreadRun (kthread_signal_example_exit s) k t
    → (t.unloaded ≡ true) × (t.pc ≢ returned) × ((u : SlamThread) × ThreadStep t u)
lost_signal s t k r q a run =
    let (p, u) = ThreadRun-same run in
    let inv = Reachable-Inv (ThreadRun-Reachable (then_step r (exits q)) run) in
    let ne = not_returned t inv (p ∙ (unfold kthread_signal_example_exit in a)) in
    (u ∙ (unfold kthread_signal_example_exit in refl), ne, goes_on t ne)
