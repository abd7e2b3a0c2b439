-- ===== src/Simplefs/Threads/Ends.antt =====
-- simplefs/simple.c: how the threads' calls end.
use lkm.Prelude.{
  ℕ, zero, suc, ◌+◌, ◌*◌, ◌≤◌, ◌<◌, ◌≡◌, refl, ap, ◌∙◌, subst, ◌⊎◌, inl, inr, false, ◌==◌, ==→eq,
  put, leb, Bool-cases, arith,
}
use lkm.Simplefs.Threads.{Pc, idle, Shared, State, Go, acquires, releases, computes, Reachable}
use lkm.Simplefs.Threads.Mutexes.{left, Fair, act-Fair}
use lkm.Simplefs.Threads.Owners.{Owned, Go-Owned, Reachable-Owned}
use lkm.Simplefs.Threads.Progress.{Moves, idle_or_Moves}

-- So many steps of threads within their calls, one after the other.
pub data GoRun (s : State) : ℕ → State → Type 0 where
  no_step : GoRun s zero s
  one_step : {k : ℕ} {t u : State} (j : ℕ) → GoRun s k t → Go t j u → GoRun s (suc k) u

-- The steps that the threads below `n` have before them at most.
unfoldable pub all_left : ℕ → (ℕ → Pc) → ℕ
all_left zero pc = 0
all_left (suc n) pc = all_left n pc + left (pc n)

-- Only the threads below `n` are in calls.
abbrev pub Below : ℕ → State → Type 0
Below n s = (j : ℕ) → n ≤ j → s.pc j ≡ idle

all_left-put_out :
    (n : ℕ) (pc : ℕ → Pc) (j : ℕ) (p : Pc) → n ≤ j → all_left n (put pc j p) ≡ all_left n pc
unfolding all_left
all_left-put_out zero pc j p le = refl
all_left-put_out (suc n) pc j p le =
    let e : n == j ≡ false = ground arith in
    rw e (ap (λ a. a + left (pc n)) (all_left-put_out n pc j p (omega arith)))

all_left-put :
    (n : ℕ) (pc : ℕ → Pc) (j : ℕ) (p : Pc)
    → j < n
    → left p < left (pc j)
    → all_left n (put pc j p) < all_left n pc
unfolding all_left
all_left-put zero pc j p lt less = absurd (omega arith)
all_left-put (suc n) pc j p lt less = elim (Bool-cases (n == j)) [
  | inl last ↦ rw (last, ==→eq n j last) (omega (arith, all_left-put_out j pc j p (omega arith)))
  | inr before ↦ rw before (omega (arith, all_left-put n pc j p (ground arith) less))
]

left-le : (p : Pc) → left p ≤ 22
unfolding left
left-le idle = omega arith
left-le p = omega arith

all_left-le : (n : ℕ) (pc : ℕ → Pc) → all_left n pc ≤ 22 * n
unfolding all_left
all_left-le zero pc = omega arith
all_left-le (suc n) pc = omega (arith, all_left-le n pc, left-le (pc n))

-- A thread that goes on is in a call, and has less before it.
Go-left :
    {s : State} (j : ℕ) {t : State}
    → Go s j t
    → (p : Pc) × (t.pc ≡ put s.pc j p) × (left p < left (s.pc j))
unfolding Fair
Go-left {s} j (acquires l p e free) =
    (p, refl, (subst (Fair (s.pc j)) e (act-Fair s.mem (s.pc j))).2)
Go-left {s} j (releases l p e) = (p, refl, (subst (Fair (s.pc j)) e (act-Fair s.mem (s.pc j))).2)
Go-left {s} j (computes m p e) = (p, refl, (subst (Fair (s.pc j)) e (act-Fair s.mem (s.pc j))).1)

module _ (n : ℕ) where
  Go-less :
      {s : State} (j : ℕ) {t : State}
      → Go s j t
      → Below n s
      → (all_left n t.pc < all_left n s.pc) × Below n t
  unfolding left
  Go-less {s} j {t} g below =
      let (p, e, less) = Go-left j g in
      elim (Bool-cases (leb n j)) [
        | inl out ↦
            let none_left : left (s.pc j) ≡ 0 = ap left (below j (ground arith)) in
            absurd (omega arith)
        | inr inside ↦ (
          rw e (all_left-put n s.pc j p (ground arith) less),
          λ i le. let apart : i == j ≡ false = ground arith in rw (e, apart) (below i le),
        )
      ]

  GoRun-less :
      {s : State} (k : ℕ) {t : State}
      → GoRun s k t
      → Owned s
      → Below n s
      → (k + all_left n t.pc ≤ all_left n s.pc) × Below n t × Owned t
  GoRun-less zero no_step inv below = (omega arith, below, inv)
  GoRun-less (suc k) (one_step j run g) inv below =
      let (le, below', inv') = GoRun-less k run inv below in
      let (lt, below'') = Go-less j g below' in (omega arith, below'', Go-Owned j g inv')

  all_idle_or_Moves : (s : State) → Owned s → (k : ℕ) → ((j : ℕ) → j < k → s.pc j ≡ idle) ⊎ Moves s
  all_idle_or_Moves s inv zero = inl (λ j lt. absurd (omega arith))
  all_idle_or_Moves s inv (suc k) = go (idle_or_Moves s inv k) (all_idle_or_Moves s inv k)
    where
      go :
          (s.pc k ≡ idle) ⊎ Moves s
          → ((j : ℕ) → j < k → s.pc j ≡ idle) ⊎ Moves s
          → ((j : ℕ) → j < suc k → s.pc j ≡ idle) ⊎ Moves s
      go (inr m) r = inr m
      go (inl e) (inr m) = inr m
      go (inl e) (inl h) = inl (λ j lt. elim (Bool-cases (j == k)) [
        | inl last ↦ ap s.pc (==→eq j k last) ∙ e
        | inr before ↦ h j (ground arith)
      ])

-- Whatever the creations and writes that any number of threads have begun, and whatever the order of their
-- steps, with no signal and no failure: when only the threads below `n` are in calls and no more calls
-- begin, there are at most 22 steps for each of these threads; and whatever steps have come, either every
-- thread is back from its call, or some thread has a step, or some thread is about to write behind a block or to shift by 32 bits.
-- So the three mutexes never make the threads wait for each other.
pub Reachable-ends :
    {m : Shared} {s t : State} (n k : ℕ)
    → Reachable m s
    → Below n s
    → GoRun s k t
    → (k ≤ 22 * n) × (((j : ℕ) → t.pc j ≡ idle) ⊎ Moves t)
Reachable-ends {s = s} {t = t} n k r below run =
    let (le, below', inv) = GoRun-less n k run (Reachable-Owned r) below in
    (
      omega (arith, all_left-le n s.pc),
      elim (all_idle_or_Moves n t inv n) [
        | inr m ↦ inr m
        | inl h ↦ inl (λ j. elim (Bool-cases (leb n j)) [
          | inl out ↦ below' j (ground arith)
          | inr inside ↦ h j (ground arith)
        ])
      ],
    )
