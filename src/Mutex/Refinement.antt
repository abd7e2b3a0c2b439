-- ===== src/Mutex/Refinement.antt =====
-- mutex/simple.c: what the threads do byte by byte is what they do with whole calls.
use lkm.Prelude.{ℕ, ◌≤◌, ◌≡◌, ◌≢◌, refl, sym, ap, subst, ◌∙◌, Option, none, some, put}
use lkm.Mutex.{
  Program, Pc, locking, copying, returned, Call, read_file, write_file, Args, advanced, ret_of,
  MyMutex, Move, call, mutex_lock, copy_to_user, copy_from_user, mutex_unlock, leave, State, pick,
  Reachable, at_start, after,
}
use lkm.Mutex.Holder.{Place, Inv, Reachable-Inv}
use lkm.Mutex.Atomic.{
  AtomicMove, begin, read_whole, write_whole, end, AtomicRun, at_rest, then_move, view_pc,
  view_buff, view_mem, view_threads, copied-put, copied_none, view_mem_free, view_mem_held,
  view_mem_other, view_pc_other, view_threads-put, put_same, put_self,
}

some_ne : {i j : ℕ} {h : Option ℕ} → h ≡ some i → j ≢ i → h ≢ some j
some_ne e d f = d (cc (e, f))

none_ne : {j : ℕ} {h : Option ℕ} → h ≡ none → h ≢ some j
none_ne e f = cc (e, f)

-- A step that the view shows.
shown :
    {W : Program} {b b' c : ℕ → ℕ} {f g : ℕ → Pc} {p p' : Pc} (i : ℕ)
    → f i ≡ p
    → AtomicMove W i b p b' p'
    → c ≡ b'
    → g ≡ put f i p'
    → AtomicRun W b f
    → AtomicRun W c g
shown {W} {b} {b'} {f = f} {g = g} {p' = p'} i e mv eb ef run =
    subst (λ c. AtomicRun W c g) (sym eb)
      (subst (AtomicRun W b') (sym ef)
        (then_move i run (subst (λ p. AtomicMove W i b p b' p') (sym e) mv)))

-- A step that it does not.
hidden :
    {W : Program} {b c : ℕ → ℕ} {f g : ℕ → Pc} → c ≡ b → g ≡ f → AtomicRun W b f → AtomicRun W c g
hidden {W} {b} {g = g} eb ef run =
    subst (λ c. AtomicRun W c g) (sym eb) (subst (AtomicRun W b) (sym ef) run)

-- A step of the holder: the others' views are as they were.
holders_threads :
    (b b' : ℕ → ℕ) (f : ℕ → Pc) (i : ℕ) (p : Pc) (h : Option ℕ)
    → ((j : ℕ) → Place j h (f j))
    → h ≡ some i
    → view_pc b (f i) ≡ view_pc b' p
    → view_threads b' (put f i p) ≡ view_threads b f
holders_threads b b' f i p h inv e same =
    view_threads-put b b' f i p (λ j d. view_pc_other b b' j h (f j) (inv j) (some_ne e d))
    ∙ put_self (view_threads b f) i (view_pc b' p) same

-- A copy that has come to its end changes nothing more.
end_pc :
    (b : ℕ → ℕ) (c : Call) (a : Args) (k : ℕ)
    → a.size ≤ k
    → view_pc b (copying c a k) ≡ returned c (advanced a) (ret_of a)
unfolding view_pc
end_pc b read_file a k h =
    ap (λ u. returned read_file (advanced (record a { user = u })) (ret_of a))
      (copied_none k a.size b a.user h)
end_pc b write_file a k h = refl

end_buff : (b : ℕ → ℕ) (c : Call) (a : Args) (k : ℕ) → a.size ≤ k → view_buff b (copying c a k) ≡ b
unfolding view_buff
end_buff b read_file a k h = refl
end_buff b write_file a k h = copied_none k a.size a.user b h

lock_shown :
    {W : Program} (i : ℕ) (b : ℕ → ℕ) (c : Call) (a : Args)
    → AtomicMove W i b (locking c a) (view_buff b (copying c a 0)) (view_pc b (copying c a 0))
unfolding view_buff view_pc
lock_shown i b read_file a = read_whole
lock_shown i b write_file a = write_whole

Move-AtomicRun :
    {W : Program} (i : ℕ) (m m' : MyMutex) (p p' : Pc) (f : ℕ → Pc)
    → Move W i m p m' p'
    → f i ≡ p
    → ((j : ℕ) → Place j m.mutex (f j))
    → AtomicRun W (view_mem m f) (view_threads m.buff f)
    → AtomicRun W (view_mem m' (put f i p')) (view_threads m'.buff (put f i p'))
unfolding view_pc view_buff
Move-AtomicRun {W} i m _ _ p' f (call w) e inv run =
    shown i (ap (view_pc m.buff) e) (begin w)
      (view_mem_other m f i p' (unfold Place in subst (Place i m.mutex) e (inv i)))
      (view_threads-put m.buff m.buff f i p' (λ j d. refl)) run
Move-AtomicRun {W} i m _ _ p' f leave e inv run =
    shown i (ap (view_pc m.buff) e) end
      (view_mem_other m f i p' (unfold Place in subst (Place i m.mutex) e (inv i)))
      (view_threads-put m.buff m.buff f i p' (λ j d. refl)) run
Move-AtomicRun {W} i m m' _ p' f (mutex_lock {c} {a} free) e inv run =
    shown i (ap (view_pc m.buff) e) (lock_shown i m.buff c a)
      (view_mem_held m' (put f i p') i refl ∙ ap (view_buff m.buff) (put_same f i p'))
      (view_threads-put m.buff m.buff f i p' (λ j d. refl))
      (subst (λ b. AtomicRun W b (view_threads m.buff f)) (view_mem_free m f free) run)
Move-AtomicRun {W} i m m' _ p' f (mutex_unlock {c} {a} {k} le) e inv run =
    let held : m.mutex ≡ some i = unfold Place in (subst (Place i m.mutex) e (inv i)).0 in
    hidden
      (view_mem_free m' (put f i p') refl
        ∙ sym (view_mem_held m f i held ∙ ap (view_buff m.buff) e ∙ end_buff m.buff c a k le))
      (holders_threads m.buff m.buff f i p' m.mutex inv held
        (ap (view_pc m.buff) e ∙ end_pc m.buff c a k le))
      run
Move-AtomicRun {W} i m m' _ p' f (copy_to_user {a} {k} lt) e inv run =
    let held : m.mutex ≡ some i = unfold Place in (subst (Place i m.mutex) e (inv i)).0 in
    hidden
      (view_mem_held m (put f i p') i held
        ∙ ap (view_buff m.buff) (put_same f i p')
        ∙ sym (view_mem_held m f i held ∙ ap (view_buff m.buff) e))
      (holders_threads m.buff m.buff f i p' m.mutex inv held (
        ap (view_pc m.buff) e
        ∙ ap (λ u. returned read_file (advanced (record a { user = u })) (ret_of a))
            (sym (copied-put k a.size m.buff a.user lt))))
      run
Move-AtomicRun {W} i m m' _ p' f (copy_from_user {a} {k} lt) e inv run =
    let held : m.mutex ≡ some i = unfold Place in (subst (Place i m.mutex) e (inv i)).0 in
    hidden
      (view_mem_held m' (put f i p') i held
        ∙ ap (view_buff m'.buff) (put_same f i p')
        ∙ copied-put k a.size a.user m.buff lt
        ∙ sym (view_mem_held m f i held ∙ ap (view_buff m.buff) e))
      (holders_threads m.buff m'.buff f i p' m.mutex inv held (ap (view_pc m.buff) e)) run

-- Whatever the threads' steps and their order, what the buffer holds and what the calls have returned
-- is what some order of whole calls gives, where a call that has the mutex counts as done.
pub Reachable-AtomicRun :
    {W : Program} (s : State)
    → Reachable W s
    → AtomicRun W (view_mem s.mem s.pc) (view_threads s.mem.buff s.pc)
Reachable-AtomicRun _ at_start = unfold view_mem view_pc in at_rest
Reachable-AtomicRun _ (after {s} r (pick {m} {p} i mv)) =
    Move-AtomicRun i s.mem m (s.pc i) p s.pc mv refl (unfold Inv in Reachable-Inv s r)
      (Reachable-AtomicRun s r)
