-- ===== src/Rcu/Safety.antt =====
-- RCU/simple.c: no structure is freed while it is published or read.
use lkm.Prelude.{ℕ, ◌≡◌, refl, sym, subst, ◌⊎◌, inl, inr, Bool, true, List, arith}
use lkm.Rcu.{
  Reader, holding, Updater, assigned, State, Step, rcu_read_lock, rcu_dereference, pr_info,
  rcu_read_unlock, prepare, rcu_assign_pointer, call_rcu, rcu_reclaimer, Reachable, at_start, after,
}
use lkm.Rcu.Waiting.{Below, AllLive, Waits, AllLive-release, put-true, AllLive-put, Waits-live}
use lkm.Rcu.Threads.{
  UpdaterHas, ReaderHas, Safe, has-release, reader-prepare, reader-assign, reader-call,
  reader-reclaim, safe-reclaim, at_idle, at_prepared, at_assigned,
}

pub Step-Safe : (s t : State) → Step s t → Safe s → Safe t
unfolding Safe
Step-Safe s _ (rcu_read_lock c e k) (a, b, u, w, r) = (a, b, u, w, unfold ReaderHas in tt)
Step-Safe s _ (rcu_dereference e) (a, b, u, w, r) = (a, b, u, w, unfold ReaderHas in inl refl)
Step-Safe s _ (pr_info p e) (a, b, u, w, r) = (a, b, u, w, unfold ReaderHas in tt)
Step-Safe s _ (rcu_read_unlock e) (a, b, u, w, r) = (
  a,
  b,
  has-release s.updater _ _ s.live s.waiting u,
  AllLive-release s.live s.waiting w,
  unfold ReaderHas in tt,
)
Step-Safe s _ (prepare c e k) (a, b, u, w, r) =
    let g = s.g_pfoo in
    let n = s.allocated in
    (
      put-true s.live n g a,
      omega arith,
      (unfold UpdaterHas in (refl, b, omega arith, ground arith, at_idle g n s.live s.waiting e u)),
      AllLive-put s.live n s.waiting w,
      reader-prepare s.reader g g n s.waiting (subst (λ u. ReaderHas s.reader g u s.waiting) e r),
    )
Step-Safe s _ (rcu_assign_pointer old new e) (a, b, u, w, r) =
    let (o, lt, small, l, below) = at_prepared old new s.g_pfoo s.allocated s.live s.waiting e u in
    (
      l,
      small,
      (unfold UpdaterHas in
          (
            omega arith,
            subst (λ o. s.live o ≡ true) (sym o) a,
            subst (λ o. Below o s.waiting) (sym o) below,
          )),
      w,
      reader-assign s.reader s.g_pfoo old new s.waiting o
          (subst (λ u. ReaderHas s.reader s.g_pfoo u s.waiting) e r),
    )
Step-Safe s _ (call_rcu old e) (a, b, u, w, r) =
    let (lt, l, below) = at_assigned old s.g_pfoo s.allocated s.live s.waiting e u in
    (
      a,
      b,
      (unfold UpdaterHas Below in (lt, below)),
      (unfold AllLive in (l, w)),
      reader-call s.reader s.g_pfoo old s.waiting
          (subst (λ u. ReaderHas s.reader s.g_pfoo u s.waiting) e r),
    )
Step-Safe s _ (rcu_reclaimer p l ripe) (a, b, u, w, r) =
    let (a', u', w') =
      safe-reclaim s.updater s.g_pfoo s.allocated p s.live s.waiting l ripe a w u in
    (a', b, u', w', reader-reclaim s.reader s.g_pfoo p s.updater s.waiting l ripe r)

pub Reachable-Safe : (s : State) → Reachable s → Safe s
unfolding Safe
Reachable-Safe _ at_start = (
  refl,
  omega arith,
  (unfold UpdaterHas Below in tt),
  (unfold AllLive in tt),
  unfold ReaderHas in tt,
)
Reachable-Safe t (after {s = s} h step) = Step-Safe s t step (Reachable-Safe s h)

holding-live :
    (r : Reader) (p g n : ℕ) (u : Updater) (f : ℕ → Bool) (l : List (ℕ × Bool))
    → r ≡ holding p
    → f g ≡ true
    → UpdaterHas u g n f l
    → AllLive f l
    → ReaderHas r g u l
    → f p ≡ true
unfolding ReaderHas UpdaterHas
holding-live r p g n u f l e a h w k = by_place (subst (λ r. ReaderHas r g u l) e k)
  where
    by_place : (p ≡ g) ⊎ ((u ≡ assigned p) ⊎ Waits p l) → f p ≡ true
    by_place (inl q) = subst (λ g. f g ≡ true) (sym q) a
    by_place (inr (inl q)) = (at_assigned p g n f l q h).1
    by_place (inr (inr q)) = Waits-live f p l q w

-- Where `rcu_test_init` has finished before the threads' first accesses, which they come to after a
-- sleep of 100 ms, and every kzalloc succeeds: in every order of the steps of the two threads and of the
-- callbacks, the structure that `g_pfoo` points to is allocated, and so is the one that the reader holds
-- when it reads its field.
pub no_use_after_free :
    (s : State) (p : ℕ)
    → Reachable s
    → s.reader ≡ holding p
    → (s.live s.g_pfoo ≡ true) × (s.live p ≡ true)
unfolding Safe
no_use_after_free s p h e =
    let (a, b, u, w, r) = Reachable-Safe s h in
    (a, holding-live s.reader p s.g_pfoo s.allocated s.updater s.live s.waiting e a u w r)
