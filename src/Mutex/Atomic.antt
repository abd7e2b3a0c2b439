-- ===== src/Mutex/Atomic.antt =====
-- mutex/simple.c: the same calls with nothing between their bytes, and what a state is in their view.
use lkm.Prelude.{
  ℕ, suc, ◌≤◌, ◌<◌, ◌≡◌, ◌≢◌, refl, sym, ap, inl, inr, Option, none, some, put, arith, ltb, leb,
  if◌then◌else◌, ◌==◌, Bool-cases, ==→eq, fun_ext,
}
use lkm.Mutex.{
  Program, Pc, outside, locking, copying, returned, Call, read_file, write_file, Args, advanced,
  ret_of, MyMutex,
}
use lkm.Mutex.Holder.{Place}

-- `dst` with the bytes from `k` to `n` taken from `src`.
unfoldable pub copied : ℕ → ℕ → (ℕ → ℕ) → (ℕ → ℕ) → ℕ → ℕ
copied k n src dst j = if leb k j then if ltb j n then src j else dst j else dst j

-- A thread's step when each call reads or writes the whole of its bytes at once.
pub data AtomicMove (W : Program) (i : ℕ) (b : ℕ → ℕ) : Pc → (ℕ → ℕ) → Pc → Type 0 where
  begin : {c : Call} {a : Args} → W i c a → AtomicMove W i b outside b (locking c a)
  read_whole :
      {a : Args}
      → AtomicMove W i b
          (locking read_file a)
          b
          (returned read_file (advanced (record a { user = copied 0 a.size b a.user })) (ret_of a))
  write_whole :
      {a : Args}
      → AtomicMove W i b
          (locking write_file a)
          (copied 0 a.size a.user b)
          (returned write_file (advanced a) (ret_of a))
  end : {c : Call} {a : Args} {r : ℕ} → AtomicMove W i b (returned c a r) b outside

-- The buffer and the threads after some steps of that kind, in any order.
pub data AtomicRun (W : Program) : (ℕ → ℕ) → (ℕ → Pc) → Type 0 where
  at_rest : AtomicRun W (λ k. 0) (λ i. outside)
  then_move :
      {b b' : ℕ → ℕ} {f : ℕ → Pc} {p : Pc} (i : ℕ)
      → AtomicRun W b f
      → AtomicMove W i b (f i) b' p
      → AtomicRun W b' (put f i p)

-- A call takes effect when it has the mutex: what is left of its copy counts as done.
unfoldable pub view_pc : (ℕ → ℕ) → Pc → Pc
view_pc b (copying read_file a k) =
    returned read_file (advanced (record a { user = copied k a.size b a.user })) (ret_of a)
view_pc b (copying write_file a k) = returned write_file (advanced a) (ret_of a)
view_pc b outside = outside
view_pc b (locking c a) = locking c a
view_pc b (returned c a r) = returned c a r

unfoldable pub view_buff : (ℕ → ℕ) → Pc → ℕ → ℕ
view_buff b (copying write_file a k) = copied k a.size a.user b
view_buff b (copying read_file a k) = b
view_buff b outside = b
view_buff b (locking c a) = b
view_buff b (returned c a r) = b

unfoldable pub view_mem : MyMutex → (ℕ → Pc) → ℕ → ℕ
view_mem m f = elim m.mutex [ none ↦ m.buff | some h ↦ view_buff m.buff (f h) ]

abbrev pub view_threads : (ℕ → ℕ) → (ℕ → Pc) → ℕ → Pc
view_threads b f i = view_pc b (f i)

pub copied-put :
    (k n : ℕ) (src dst : ℕ → ℕ)
    → k < n
    → copied (suc k) n src (put dst k (src k)) ≡ copied k n src dst
unfolding copied
copied-put k n src dst h = fun_ext λ j. elim (Bool-cases (j == k)) [
  | inl same ↦ ground (arith, ap src (==→eq j k same))
  | inr other ↦ ground arith
]

pub copied_none : (k n : ℕ) (src dst : ℕ → ℕ) → n ≤ k → copied k n src dst ≡ dst
unfolding copied
copied_none k n src dst h = fun_ext λ j. ground arith

pub view_mem_free : (m : MyMutex) (f : ℕ → Pc) → m.mutex ≡ none → view_mem m f ≡ m.buff
unfolding view_mem
view_mem_free m f e = rw e refl

pub view_mem_held :
    (m : MyMutex) (f : ℕ → Pc) (i : ℕ) → m.mutex ≡ some i → view_mem m f ≡ view_buff m.buff (f i)
unfolding view_mem
view_mem_held m f i e = rw e refl

pub put_same {ℓ} : {A : Type ℓ} (f : ℕ → A) (i : ℕ) (x : A) → put f i x i ≡ x
put_same f i x = ground arith

pub put_self {ℓ} : {A : Type ℓ} (f : ℕ → A) (i : ℕ) (x : A) → f i ≡ x → put f i x ≡ f
put_self f i x e = fun_ext λ j. elim (Bool-cases (j == i)) [
  | inl same ↦ ground (arith, e, ap f (==→eq j i same))
  | inr other ↦ ground arith
]

-- The buffer's view does not depend on a thread that is not in the critical section.
pub view_mem_other :
    (m : MyMutex) (f : ℕ → Pc) (i : ℕ) (p : Pc)
    → m.mutex ≢ some i
    → view_mem m (put f i p) ≡ view_mem m f
unfolding view_mem
view_mem_other m f i p d = go m.mutex d
  where
    go :
        (o : Option ℕ)
        → o ≢ some i
        → elim o [ none ↦ m.buff | some h ↦ view_buff m.buff (put f i p h) ]
          ≡ elim o [ none ↦ m.buff | some h ↦ view_buff m.buff (f h) ]
    go none d = refl
    go (some h) d = elim (Bool-cases (h == i)) [
      | inl same ↦ absurd (d (ap some (==→eq h i same)))
      | inr other ↦ rw other refl
    ]

-- Only the holder's view depends on the buffer.
pub view_pc_other :
    (b b' : ℕ → ℕ) (j : ℕ) (h : Option ℕ) (q : Pc)
    → Place j h q
    → h ≢ some j
    → view_pc b q ≡ view_pc b' q
unfolding view_pc Place
view_pc_other b b' j h outside w d = refl
view_pc_other b b' j h (locking c a) w d = refl
view_pc_other b b' j h (returned c a r) w d = refl
view_pc_other b b' j h (copying c a k) (w, le) d = absurd (d w)

pub view_threads-put :
    (b b' : ℕ → ℕ) (f : ℕ → Pc) (i : ℕ) (p : Pc)
    → ((j : ℕ) → j ≢ i → view_pc b (f j) ≡ view_pc b' (f j))
    → view_threads b' (put f i p) ≡ put (view_threads b f) i (view_pc b' p)
view_threads-put b b' f i p h = fun_ext λ j. elim (Bool-cases (j == i)) [
  | inl same ↦ rw same refl
  | inr other ↦ rw other (sym (h j (λ e. ground arith)))
]
