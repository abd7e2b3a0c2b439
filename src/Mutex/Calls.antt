-- ===== src/Mutex/Calls.antt =====
-- mutex/simple.c: from every state the threads reach, a call that waits can be brought to its end.
use lkm.Prelude.{
  ℕ, zero, suc, ◌+◌, ◌-◌, ◌≡◌, ◌≢◌, ◌≤◌, refl, sym, ap, subst, ◌∙◌, ◌⊎◌, inl, inr, Option, none,
  some, put, arith, Option-cases,
}
use lkm.Mutex.{
  Program, Pc, outside, locking, copying, returned, Call, read_file, write_file, Args, advanced,
  ret_of, MyMutex, Move, mutex_lock, copy_to_user, copy_from_user, mutex_unlock, State, Reachable,
}
use lkm.Mutex.Holder.{Place, Inv, Reachable-Inv}
use lkm.Mutex.Atomic.{put_same}

-- Steps of these threads alone, one after the other.
pub data StepsOf (P : ℕ → Type 0) (W : Program) : State → State → Type 0 where
  no_step : {s : State} → StepsOf P W s s
  by_thread :
      {s u : State} {m : MyMutex} {p : Pc} (j : ℕ)
      → P j
      → Move W j s.mem (s.pc j) m p
      → StepsOf P W (record { mem = m; pc = put s.pc j p }) u
      → StepsOf P W s u

-- The thread is back from its call with the mutex free, and the others are where they were.
record Back (P : ℕ → Type 0) (W : Program) (i : ℕ) (c : Call) (a : Args) (s : State) : Type 0 where
  t : State
  user : ℕ → ℕ
  run : StepsOf P W s t
  back : t.pc i ≡ returned c (advanced (record a { user = user })) (ret_of a)
  free : t.mem.mutex ≡ none
  others : (j : ℕ) → j ≢ i → t.pc j ≡ s.pc j

put_other {ℓ} : {A : Type ℓ} (f : ℕ → A) (i j : ℕ) (x : A) → j ≢ i → put f i x j ≡ f j
put_other f i j x h = ground arith

by_move :
    {P : ℕ → Type 0} {W : Program} (s : State) (i : ℕ) {p p' : Pc} {m : MyMutex} {u : State}
    → P i
    → s.pc i ≡ p
    → Move W i s.mem p m p'
    → StepsOf P W (record { mem = m; pc = put s.pc i p' }) u
    → StepsOf P W s u
by_move {W = W} s i {p' = p'} {m = m} may e mv run =
    by_thread i may (subst (λ p. Move W i s.mem p m p') (sym e) mv) run

-- One step more at the front.
earlier :
    {P : ℕ → Type 0} {W : Program} (s : State) (i : ℕ) {p p' : Pc} {m : MyMutex} (c : Call)
    (a : Args)
    → P i
    → s.pc i ≡ p
    → Move W i s.mem p m p'
    → Back P W i c a (record { mem = m; pc = put s.pc i p' })
    → Back P W i c a s
earlier s i {p' = p'} c a may e mv b = record {
  t = b.t;
  user = b.user;
  run = by_move s i may e mv b.run;
  back = b.back;
  free = b.free;
  others = λ j d. b.others j d ∙ put_other s.pc i j p' d;
}

-- The holder copies what is left and unlocks.
finish :
    {P : ℕ → Type 0} {W : Program} (d k : ℕ) (s : State) (i : ℕ) (c : Call) (a : Args)
    → P i
    → s.pc i ≡ copying c a k
    → s.mem.mutex ≡ some i
    → k + d ≡ a.size
    → Back P W i c a s
finish zero k s i c a may e held n = record {
  t = record {
    mem = record { mutex = none; buff = s.mem.buff };
    pc = put s.pc i (returned c (advanced a) (ret_of a));
  };
  user = a.user;
  run = by_move s i may e (mutex_unlock (omega arith)) no_step;
  back = put_same s.pc i _;
  free = refl;
  others = λ j d. put_other s.pc i j _ d;
}
finish (suc d) k s i read_file a may e held n =
    let a' = record a { user = put a.user k (s.mem.buff k) } in
    let e' : suc k + d ≡ a.size = omega arith in
    let b =
      finish d (suc k) (record s { pc = put s.pc i (copying read_file a' (suc k)) }) i read_file a'
        may (put_same s.pc i _) held e' in
    earlier s i read_file a may e (copy_to_user (omega arith)) (record {
      t = b.t;
      user = b.user;
      run = b.run;
      back = b.back;
      free = b.free;
      others = b.others;
    })
finish (suc d) k s i write_file a may e held n =
    earlier s i write_file a may e (copy_from_user (omega arith)) (
      finish d (suc k)
        (record {
          mem = record { mutex = s.mem.mutex; buff = put s.mem.buff k (a.user k) };
          pc = put s.pc i (copying write_file a (suc k));
        })
        i write_file a may (put_same s.pc i _) held (omega arith))

joined :
    {P : ℕ → Type 0} {W : Program} {s t u : State}
    → StepsOf P W s t
    → StepsOf P W t u
    → StepsOf P W s u
joined no_step r = r
joined (by_thread j may mv q) r = by_thread j may mv (joined q r)

-- With the mutex free, the call takes it and goes through.
go_through :
    {P : ℕ → Type 0} {W : Program} (s : State) (i : ℕ) (c : Call) (a : Args)
    → P i
    → s.pc i ≡ locking c a
    → s.mem.mutex ≡ none
    → Back P W i c a s
go_through s i c a may e free = earlier s i c a may e (mutex_lock free) (
    finish a.size 0
      (record {
        mem = record { mutex = some i; buff = s.mem.buff };
        pc = put s.pc i (copying c a 0);
      })
      i c a may (put_same s.pc i _) refl (omega arith))

holder_copies :
    (h : ℕ) (o : Option ℕ) (p : Pc)
    → o ≡ some h
    → Place h o p
    → (c : Call) × (a : Args) × (k : ℕ) × (p ≡ copying c a k) × (k ≤ a.size)
unfolding Place
holder_copies h o outside e w = absurd (w e)
holder_copies h o (locking c a) e w = absurd (w e)
holder_copies h o (returned c a r) e w = absurd (w e)
holder_copies h o (copying c a k) e (w, le) = (c, a, k, refl, le)

-- The waiting thread, or the one that holds the mutex.
abbrev pub WaitsOrHolds : ℕ → Option ℕ → ℕ → Type 0
WaitsOrHolds i holder j = (j ≡ i) ⊎ (holder ≡ some j)

-- From every state that the threads reach, steps of the mutex's holder and of a waiting thread alone
-- suffice to bring the waiting thread back from its call.
pub Reachable-returned :
    {W : Program} (s : State) (i : ℕ) (c : Call) (a : Args)
    → Reachable W s
    → s.pc i ≡ locking c a
    → (t : State) × (user : ℕ → ℕ) × StepsOf (WaitsOrHolds i s.mem.mutex) W s t
      × (t.pc i ≡ returned c (advanced (record a { user = user })) (ret_of a))
unfolding Inv
Reachable-returned s i c a r e = elim (Option-cases s.mem.mutex) [
  | inl free ↦ let b = go_through s i c a (inl refl) e free in (b.t, b.user, b.run, b.back)
  | inr (h, held) ↦
      let inv = Reachable-Inv s r in
      let (c', a', k, e', le) = holder_copies h s.mem.mutex (s.pc h) held (inv h) in
      let x = finish (a'.size - k) k s h c' a' (inr held) e' held (omega arith) in
      let b = go_through x.t i c a (inl refl) (x.others i (λ q. clash h c' a' k e' q) ∙ e) x.free in
      (b.t, b.user, joined x.run b.run, b.back)
]
  where
    clash : (h : ℕ) (c' : Call) (a' : Args) (k : ℕ) → s.pc h ≡ copying c' a' k → i ≢ h
    clash h c' a' k e' q = cc (ap s.pc q, e, e')
