-- ===== src/Deferred/Exits.antt =====
-- tasklet/, workqueue/, worker/ and soft_irq/: what the exit functions leave of the callback.
use lkm.Prelude.{ℕ, suc, ◌+◌, ◌≤◌, ◌≡◌, ◌≢◌, refl, ◌⊎◌, inl, inr, Bool, true, false, ap, arith}
use lkm.Deferred.{
  Kind, soft_irq, Phase, loaded, exiting, unloaded, Work, late_in, Step, begins, ends, my_exit,
  my_exit_returns, raise_softirq_irqoff, Reachable, init, then_step,
}

abbrev count : Bool → ℕ
count true = 1
count false = 0

-- While an exit function waits: the callback is asked for or has been started, and not both.
record Inv (s : Work) : Type 0 where
  once : s.runs + count s.pending ≡ 1
  in_time : s.late ≡ 0
  over : s.phase ≡ unloaded → (s.pending ≡ false) × (s.running ≡ false)

late_in_time : (p : Phase) (n : ℕ) → (p ≡ unloaded → ⊥) → n ≡ 0 → late_in p n ≡ 0
late_in_time loaded n h e = e
late_in_time exiting n h e = e
late_in_time unloaded n h e = absurd (h refl)

Step-Inv : {k : Kind} {s t : Work} → k ≢ soft_irq → Step k s t → Inv s → Inv t
Step-Inv {s = s} ne (begins p r) h =
    let still : s.phase ≡ unloaded → ⊥ = λ e. cc (p, (h.over e).0) in
    record {
      once = ground (arith, h.once, p);
      in_time = late_in_time s.phase s.late still h.in_time;
      over = λ e. absurd (still e);
    }
Step-Inv {s = s} ne (ends r) h = record {
  once = h.once;
  in_time = h.in_time;
  over = λ e. ((h.over e).0, refl);
}
Step-Inv ne (my_exit p w) h = record { once = h.once; in_time = h.in_time; over = λ e. cc }
Step-Inv ne (my_exit_returns p q r) h = record {
  once = h.once;
  in_time = h.in_time;
  over = λ e. (q, r);
}
Step-Inv ne (raise_softirq_irqoff p e) h = absurd (ne e)

Reachable-Inv : {k : Kind} {s : Work} → k ≢ soft_irq → Reachable k s → Inv s
Reachable-Inv ne init = record { once = omega arith; in_time = refl; over = λ e. cc }
Reachable-Inv ne (then_step r st) = Step-Inv ne st (Reachable-Inv ne r)

-- Of a tasklet, a workqueue and a worker, in every order of the steps: when the exit function has
-- returned, the callback has been started once, and not after the return, does not run, and is not
-- asked for.
pub Reachable-once :
    (k : Kind) (s : Work)
    → k ≢ soft_irq
    → Reachable k s
    → s.phase ≡ unloaded
    → (s.runs ≡ 1) × (s.late ≡ 0) × (s.running ≡ false) × (s.pending ≡ false)
Reachable-once k s ne r e =
    let h = Reachable-Inv ne r in
    let (pending, running) = h.over e in
    (ground (arith, h.once, pending), h.in_time, running, pending)

late_after : (s : Work) → s.phase ≡ unloaded → late_in s.phase s.late ≡ suc s.late
late_after s e = ap (λ p. late_in p s.late) e

-- raise_softirq_irqoff does not wait.
waits_never : (s : Work) → Reachable soft_irq s → s.phase ≡ exiting → ⊥
waits_never s init e = cc
waits_never s (then_step {s = p₀} r (begins p q)) e = waits_never p₀ r e
waits_never s (then_step {s = p₀} r (ends q)) e = waits_never p₀ r e
waits_never s (then_step r (my_exit p w)) e = w refl
waits_never s (then_step r (my_exit_returns p q w)) e = cc
waits_never s (then_step r (raise_softirq_irqoff p w)) e = cc

-- The exit function of soft_irq/ asks for the callback again: in every order of the steps, when it has
-- returned, the callback is asked for, or has been started since, without the module.
pub Reachable-late :
    (s : Work) → Reachable soft_irq s → s.phase ≡ unloaded → (s.pending ≡ true) ⊎ (1 ≤ s.late)
Reachable-late s init e = cc
Reachable-late s (then_step {s = p₀} r (begins p q)) e = inr (omega (arith, late_after p₀ e))
Reachable-late s (then_step {s = p₀} r (ends q)) e = Reachable-late p₀ r e
Reachable-late s (then_step r (my_exit p w)) e = cc
Reachable-late s (then_step {s = p₀} r (my_exit_returns p q w)) e = absurd (waits_never p₀ r p)
Reachable-late s (then_step r (raise_softirq_irqoff p w)) e = inl refl
