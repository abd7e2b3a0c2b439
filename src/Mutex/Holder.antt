-- ===== src/Mutex/Holder.antt =====
-- mutex/simple.c: who is in the critical section.
use lkm.Prelude.{
  ℕ, ◌≤◌, ◌≡◌, ◌≢◌, refl, sym, ◌∙◌, Option, none, some, arith, ◌==◌, Bool-cases, ==→eq, inl, inr,
}
use lkm.Mutex.{
  Program, Pc, outside, locking, copying, returned, MyMutex, Move, call, mutex_lock, copy_to_user,
  copy_from_user, mutex_unlock, leave, State, Step, pick, Reachable, at_start, after,
}

-- A thread holds the mutex just when it copies, and then within the size of its call.
unfoldable pub Place : ℕ → Option ℕ → Pc → Type 0
Place i h (copying c a k) = (h ≡ some i) × (k ≤ a.size)
Place i h outside = h ≢ some i
Place i h (locking c a) = h ≢ some i
Place i h (returned c a r) = h ≢ some i

unfoldable pub Inv : State → Type 0
Inv s = (i : ℕ) → Place i s.mem.mutex (s.pc i)

some_inj : {i j : ℕ} → some i ≡ some j → i ≡ j
some_inj e = cc e

own :
    {W : Program} (i : ℕ) (m m' : MyMutex) (p p' : Pc)
    → Move W i m p m' p'
    → Place i m.mutex p
    → Place i m'.mutex p'
unfolding Place
own i m _ _ _ (call w) h = h
own i m _ _ _ (mutex_lock e) h = (refl, omega arith)
own i m _ _ _ (copy_to_user lt) (h, le) = (h, omega arith)
own i m _ _ _ (copy_from_user lt) (h, le) = (h, omega arith)
own i m _ _ _ (mutex_unlock le) h = λ e. cc e
own i m _ _ _ leave h = h

others_lock :
    (i j : ℕ) (h : Option ℕ) (q : Pc) → h ≡ none → j ≢ i → Place j h q → Place j (some i) q
unfolding Place
others_lock i j h outside e d w = λ f. d (sym (some_inj f))
others_lock i j h (locking c a) e d w = λ f. d (sym (some_inj f))
others_lock i j h (returned c a r) e d w = λ f. d (sym (some_inj f))
others_lock i j h (copying c a k) e d (w, le) = absurd (cc (e, w))

others_unlock :
    (i j : ℕ) (h : Option ℕ) (q : Pc) → h ≡ some i → j ≢ i → Place j h q → Place j none q
unfolding Place
others_unlock i j h outside e d w = λ f. cc f
others_unlock i j h (locking c a) e d w = λ f. cc f
others_unlock i j h (returned c a r) e d w = λ f. cc f
others_unlock i j h (copying c a k) e d (w, le) = absurd (d (sym (some_inj (sym e ∙ w))))

others :
    {W : Program} (i j : ℕ) (m m' : MyMutex) (p p' q : Pc)
    → Move W i m p m' p'
    → Place i m.mutex p
    → j ≢ i
    → Place j m.mutex q
    → Place j m'.mutex q
unfolding Place
others i j m _ _ _ q (call l) h d w = w
others i j m _ _ _ q (mutex_lock e) h d w = others_lock i j m.mutex q e d w
others i j m _ _ _ q (copy_to_user lt) h d w = w
others i j m _ _ _ q (copy_from_user lt) h d w = w
others i j m _ _ _ q (mutex_unlock le) (h, b) d w = others_unlock i j m.mutex q h d w
others i j m _ _ _ q leave h d w = w

Step-Inv : {W : Program} (s t : State) → Step W s t → Inv s → Inv t
unfolding Inv
Step-Inv s _ (pick {m} {p} i mv) inv = λ j. elim (Bool-cases (j == i)) [
  | inl same ↦ rw (same, ==→eq j i same) (own i s.mem m (s.pc i) p mv (inv i))
  | inr other ↦
      rw other (others i j s.mem m (s.pc i) p (s.pc j) mv (inv i) (λ e. ground arith) (inv j))
]

pub Reachable-Inv : {W : Program} (s : State) → Reachable W s → Inv s
unfolding Inv Place
Reachable-Inv _ at_start = λ i e. cc e
Reachable-Inv t (after {s = s} r step) = Step-Inv s t step (Reachable-Inv s r)
