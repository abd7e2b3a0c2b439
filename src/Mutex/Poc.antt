-- ===== src/Mutex/Poc.antt =====
-- mutex/poc.c: a thread that reads and two that write, and what the reader finds.
use lkm.Prelude.{
  ℕ, zero, suc, ◌+◌, ◌%◌, ◌^◌, ◌<◌, ◌≡◌, refl, sym, ap, subst, ◌∙◌, ◌⊎◌, inl, inr, Bool, true,
  false, not, ◌&&◌, put, arith, ◌==◌, if◌then◌else◌, Bool-cases, ==→eq,
}
use lkm.Mutex.{
  Pc, outside, locking, copying, returned, Call, read_file, write_file, Args, State, Reachable,
}
use lkm.Mutex.Atomic.{
  copied, AtomicMove, begin, read_whole, write_whole, end, AtomicRun, at_rest, then_move, view_pc,
}
use lkm.Mutex.Refinement.{Reachable-AtomicRun}

abbrev pub cnt : ℕ
cnt = 0x100

-- The loop that fills a writer's buffer.
unfoldable pub fill : ℕ → ℕ → (ℕ → ℕ) → ℕ → ℕ
fill zero v buf = buf
fill (suc n) v buf = put (fill n v buf) n v

-- The loop that looks for another byte than `v`, from `i` on with `n` rounds left.
unfoldable pub all_are : ℕ → ℕ → ℕ → (ℕ → ℕ) → Bool
all_are v i zero buf = true
all_are v i (suc n) buf = if buf i == v then all_are v (suc i) n buf else false

-- The test on which `child1` leaves its loop; `strlen(buf)` is not 0 when the first byte is not.
unfoldable pub child1_breaks : (ℕ → ℕ) → Bool
child1_breaks buf =
    not (all_are 0x32 0 cnt buf) && (not (all_are 0x33 0 cnt buf) && not (buf 0 == 0))

-- The calls of the three threads, all through one file, whose position may be anything.
pub data Child : ℕ → Call → Args → Type 0 where
  child1 : (buf : ℕ → ℕ) (o : ℕ) → Child 1 read_file (record { user = buf; size = cnt; offt = o })
  child2 :
      (buf : ℕ → ℕ) (o : ℕ)
      → Child 2 write_file (record { user = fill cnt 0x32 buf; size = cnt; offt = o })
  child3 :
      (buf : ℕ → ℕ) (o : ℕ)
      → Child 3 write_file (record { user = fill cnt 0x33 buf; size = cnt; offt = o })

All : ℕ → (ℕ → ℕ) → Type 0
All v buf = (k : ℕ) → k < cnt → buf k ≡ v

Even : (ℕ → ℕ) → Type 0
Even buf = All 0x32 buf ⊎ (All 0x33 buf ⊎ All 0 buf)

fill-All : (n v : ℕ) (buf : ℕ → ℕ) (k : ℕ) → k < n → fill n v buf k ≡ v
unfolding fill
fill-All zero v buf k h = elim h [ ]
fill-All (suc n) v buf k h = elim (Bool-cases (k == n)) [
  | inl same ↦ rw same refl
  | inr other ↦ rw other (fill-All n v buf k (ground arith))
]

all_are-true :
    (v i n : ℕ) (buf : ℕ → ℕ) → ((k : ℕ) → k < i + n → buf k ≡ v) → all_are v i n buf ≡ true
unfolding all_are
all_are-true v i zero buf h = refl
all_are-true v i (suc n) buf h =
    ground (arith, h i (omega arith), all_are-true v (suc i) n buf (λ k lt. h k (omega arith)))

breaks-Even : (buf : ℕ → ℕ) → Even buf → child1_breaks buf ≡ false
unfolding Even All child1_breaks
breaks-Even buf (inl h) = rw (all_are-true 0x32 0 cnt buf h) refl
breaks-Even buf (inr (inl h)) = ground (arith, all_are-true 0x33 0 cnt buf h)
breaks-Even buf (inr (inr h)) = ground (arith, h 0 (omega arith))

copied_whole : (n : ℕ) (src dst : ℕ → ℕ) (k : ℕ) → k < n → copied 0 n src dst k ≡ src k
unfolding copied
copied_whole n src dst k h = ground arith

Even-copied : (src dst : ℕ → ℕ) → Even src → Even (copied 0 cnt src dst)
unfolding Even All
Even-copied src dst (inl h) = inl (λ k lt. copied_whole cnt src dst k lt ∙ h k lt)
Even-copied src dst (inr (inl h)) = inr (inl (λ k lt. copied_whole cnt src dst k lt ∙ h k lt))
Even-copied src dst (inr (inr h)) = inr (inr (λ k lt. copied_whole cnt src dst k lt ∙ h k lt))

-- A waiting call is the thread's own, and a read that is back has all of one byte.
Fine : ℕ → Pc → Type 0
Fine i outside = Unit {0}
Fine i (locking c a) = Child i c a
Fine i (copying c a k) = Unit {0}
Fine i (returned read_file a r) = Even a.user × (r ≡ cnt)
Fine i (returned write_file a r) = Unit {0}

Child-read : {i : ℕ} {a : Args} → Child i read_file a → a.size ≡ cnt
Child-read (child1 buf o) = refl

Child-write : {i : ℕ} {a : Args} → Child i write_file a → (a.size ≡ cnt) × Even a.user
unfolding Even All
Child-write (child2 buf o) = (refl, inl (fill-All cnt 0x32 buf))
Child-write (child3 buf o) = (refl, inr (inl (fill-All cnt 0x33 buf)))

AtomicMove-Even :
    (i : ℕ) (b b' : ℕ → ℕ) (p p' : Pc)
    → AtomicMove Child i b p b' p'
    → Even b
    → Fine i p
    → Even b' × Fine i p'
unfolding Fine
AtomicMove-Even i b _ _ _ (begin w) e h = (e, w)
AtomicMove-Even i b _ _ _ end e h = (e, tt)
AtomicMove-Even i b _ _ _ (read_whole {a}) e h =
    let n = Child-read h in
    (
      e,
      (
        subst (λ n. Even (copied 0 n b a.user)) (sym n) (Even-copied b a.user e),
        ap (λ n. n % 2 ^ 32) n,
      ),
    )
AtomicMove-Even i b _ _ _ (write_whole {a}) e h =
    let (n, u) = Child-write h in
    (subst (λ n. Even (copied 0 n a.user b)) (sym n) (Even-copied a.user b u), tt)

AtomicRun-Even : (b : ℕ → ℕ) (f : ℕ → Pc) → AtomicRun Child b f → Even b × ((i : ℕ) → Fine i (f i))
AtomicRun-Even _ _ at_rest = (unfold Even All in inr (inr (λ k lt. refl)), λ i. unfold Fine in tt)
AtomicRun-Even _ _ (then_move {b} {b'} {f} {p} i run mv) =
    let (e, h) = AtomicRun-Even b f run in
    let (e', own) = AtomicMove-Even i b b' (f i) p mv e (h i) in
    (
      e',
      λ j. elim (Bool-cases (j == i)) [
        | inl same ↦ rw (same, ==→eq j i same) own
        | inr other ↦ rw other (h j)
      ],
    )

-- With the mutex, in every order of the steps of the three threads, `child1` reads 0x100 bytes, and
-- what it has read does not let it leave its loop.
pub child1_loops :
    (s : State) (i : ℕ) (a : Args) (r : ℕ)
    → Reachable Child s
    → s.pc i ≡ returned read_file a r
    → (r ≡ cnt) × (child1_breaks a.user ≡ false)
unfolding view_pc Fine
child1_loops s i a r run e =
    let h = (AtomicRun-Even _ _ (Reachable-AtomicRun s run)).1 i in
    let (even, n) = subst (λ p. Fine i (view_pc s.mem.buff p)) e h in (n, breaks-Even a.user even)
