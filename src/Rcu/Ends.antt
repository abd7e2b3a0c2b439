-- ===== src/Rcu/Ends.antt =====
-- RCU/simple.c: how the runs of the pointer's threads and callbacks end.
use lkm.Prelude.{
  ℕ, zero, suc, ◌≤◌, ◌≡◌, refl, sym, ap, subst, ◌∙◌, ◌⊎◌, inl, inr, Bool, true, false, List, [],
  ◌∷◌,
}
use lkm.Rcu.{
  Reader, outside, inside, printed, holding, Updater, idle, prepared, assigned, State, Ripe, here,
  Step, rcu_read_lock, rcu_dereference, pr_info, rcu_read_unlock, prepare, rcu_assign_pointer,
  call_rcu, rcu_reclaimer, start, Reachable, at_start, after,
}
use lkm.Rcu.Owed.{AllRipe, Owed, RipeOutside, Kept, Reachable-Kept}
use lkm.Rcu.Progress.{Steps, none_yet, one_more, Steps-start}

-- Both threads are through, no callback waits, and what is allocated is what is published.
abbrev pub AllDone : State → Type 0
AllDone s =
    (s.reader ≡ outside)
    × (s.reader_cnt ≡ 0)
    × (s.updater ≡ idle)
    × (s.updater_cnt ≡ 0)
    × (s.waiting ≡ [])
    × ((m : ℕ) → s.live m ≡ true → m ≡ s.g_pfoo)

abbrev Next : State → Type 0
Next s = (t : State) × Step s t

Next-callback :
    (s : State) (x : ℕ × Bool) (l : List (ℕ × Bool))
    → s.waiting ≡ x ∷ l
    → AllRipe s.waiting
    → Next s
unfolding AllRipe
Next-callback s x l e h =
    let (f, rest) = subst AllRipe e h in
    let q : (x.0, false) ∷ l ≡ s.waiting = ap (λ b. (x.0, b) ∷ l) (sym f) ∙ sym e in
    (_, rcu_reclaimer (x.0) l (subst (λ w. Ripe w (x.0) l) q here))

by_updater :
    (s : State) (u : Updater)
    → s.updater ≡ u
    → s.reader ≡ outside
    → s.reader_cnt ≡ 0
    → Kept s
    → AllDone s ⊎ Next s
unfolding RipeOutside Owed
by_updater s (prepared old new) e r k kept = inr (_, rcu_assign_pointer old new e)
by_updater s (assigned old) e r k kept = inr (_, call_rcu old e)
by_updater s idle e r k (ripe, o) = go s.updater_cnt s.waiting refl refl
  where
    published : s.waiting ≡ [] → (m : ℕ) → s.live m ≡ true → m ≡ s.g_pfoo
    published w m l =
        elim (subst (λ u. Owed u s.g_pfoo m []) e (subst (Owed s.updater s.g_pfoo m) w (o m l))) [
          | inl q ↦ q
          | inr h ↦ elim h [ ]
        ]

    go : (n : ℕ) (l : List (ℕ × Bool)) → s.updater_cnt ≡ n → s.waiting ≡ l → AllDone s ⊎ Next s
    go (suc n) l c w = inr (_, prepare n e c)
    go zero [] c w = inl (r, k, e, c, w, published w)
    go zero (x ∷ l) c w = inr (Next-callback s x l w (subst (λ r. RipeOutside r s.waiting) r ripe))

by_reader : (s : State) (r : Reader) → s.reader ≡ r → Kept s → AllDone s ⊎ Next s
by_reader s outside e kept = go s.reader_cnt refl
  where
    go : (n : ℕ) → s.reader_cnt ≡ n → AllDone s ⊎ Next s
    go zero c = by_updater s s.updater refl e c kept
    go (suc n) c = inr (_, rcu_read_lock n e c)
by_reader s inside e kept = inr (_, rcu_dereference e)
by_reader s (holding p) e kept = inr (_, pr_info p e)
by_reader s printed e kept = inr (_, rcu_read_unlock e)

Reachable-ends : (s : State) → Reachable s → AllDone s ⊎ Next s
Reachable-ends s r = by_reader s s.reader refl (Reachable-Kept s r)

Reachable-Steps : (n : ℕ) (s t : State) → Steps n s t → Reachable s → Reachable t
Reachable-Steps _ s _ none_yet r = r
Reachable-Steps _ s t (one_more {n} {t = m} step run) r = Reachable-Steps n m t run (after r step)

-- Where `rcu_test_init` has finished before the threads' first accesses, which they come to after a
-- sleep of 100 ms, and every kzalloc succeeds: every run of the two threads and of the callbacks has at
-- most 16 steps, and goes on until both threads are through, every callback has run, and only the
-- published structure is allocated.
pub Steps-ends : (n : ℕ) (t : State) → Steps n start t → (n ≤ 16) × (AllDone t ⊎ Next t)
Steps-ends n t run =
    (Steps-start n t run, Reachable-ends t (Reachable-Steps n start t run at_start))
