-- ===== src/Simplefs/Threads/Progress.antt =====
-- simplefs/simple.c: no order of the threads' steps leaves them waiting for each other.
use lkm.Prelude.{
  ℕ, ◌≡◌, refl, sym, ap, ◌∙◌, subst, ◌⊎◌, inl, inr, true, Option, some, Bool-cases, Option-cases,
}
use lkm.Simplefs.State.{Lock, children, inodes_mgmt, sb_lock, Locks, holds}
use lkm.Simplefs.Threads.{
  idle, Act, rest, undefined, acquire, release, compute, act, State, Go, acquires, releases,
  computes,
}
use lkm.Simplefs.Threads.Mutexes.{held, InOrder, Fair, act-Fair}
use lkm.Simplefs.Threads.Owners.{Owns, Owned}

-- Some thread has a step within its call, or comes to code whose behaviour C does not define.
pub data Moves (s : State) : Type 0 where
  moves : {t : State} (j : ℕ) → Go s j t → Moves s
  breaks : (j : ℕ) → act s.mem (s.pc j) ≡ undefined → Moves s

-- A thread in a call has a step, or it waits for a mutex behind all that it holds.
data Waits (s : State) (j : ℕ) : Type 0 where
  ready : Moves s → Waits s j
  waits : (l : Lock) (k : ℕ) → s.owner l ≡ some k → InOrder l (held (s.pc j)) → Waits s j

Waits-or-idle : (s : State) (j : ℕ) → (s.pc j ≡ idle) ⊎ Waits s j
unfolding Fair
Waits-or-idle s j = go (act s.mem (s.pc j)) refl
  where
    fair : {a : Act} → act s.mem (s.pc j) ≡ a → Fair (s.pc j) a
    fair e = subst (Fair (s.pc j)) e (act-Fair s.mem (s.pc j))

    go : (a : Act) → act s.mem (s.pc j) ≡ a → (s.pc j ≡ idle) ⊎ Waits s j
    go rest e = inl (fair e)
    go undefined e = inr (ready (breaks j e))
    go (release l p) e = inr (ready (moves j (releases l p e)))
    go (compute m p) e = inr (ready (moves j (computes m p e)))
    go (acquire l p) e = elim (Option-cases (s.owner l)) [
      | inl free ↦ inr (ready (moves j (acquires l p e free)))
      | inr (k, taken) ↦ inr (waits l k taken ((fair e).0))
    ]

-- The owner holds the mutex, so it is in a call.
owner_holds :
    (k : ℕ) (o : Option ℕ) (b : ℕ → Locks) (l : Lock)
    → o ≡ some k
    → Owns k o (holds (b k) l)
    → holds (b k) l ≡ true
owner_holds k o b l e w = elim (Bool-cases (holds (b k) l)) [
  | inl yes_ ↦ yes_
  | inr no_ ↦ absurd ((subst (Owns k o) no_ w) e)
]

module _ (s : State) (inv : Owned s) where
  holder : (l : Lock) (k : ℕ) → s.owner l ≡ some k → holds (held (s.pc k)) l ≡ true
  unfolding Owned
  holder l k e = owner_holds k (s.owner l) (λ i. held (s.pc i)) l e (inv k l)

  in_call : (l : Lock) (k : ℕ) → s.owner l ≡ some k → Waits s k
  unfolding held
  in_call l k e = elim (Waits-or-idle s k) [
    | inl free ↦ absurd (clash l (ap (λ p. holds (held p) l) (sym free) ∙ holder l k e))
    | inr w ↦ w
  ]
    where
      clash : (l : Lock) → holds (held idle) l ≡ true → ⊥
      clash children e = cc e
      clash inodes_mgmt e = cc e
      clash sb_lock e = cc e

  -- The owner of the last mutex waits for none, and so on up.
  of_sb : (k : ℕ) → s.owner sb_lock ≡ some k → Moves s
  unfolding InOrder
  of_sb k e = go (in_call sb_lock k e) (holder sb_lock k e)
    where
      go : Waits s k → holds (held (s.pc k)) sb_lock ≡ true → Moves s
      go (ready m) h = m
      go (waits children k' e' o) h = cc (ap (λ l. l.holds_sb) o, h)
      go (waits inodes_mgmt k' e' o) h = cc (o.1, h)
      go (waits sb_lock k' e' o) h = cc (o, h)

  of_mgmt : (k : ℕ) → s.owner inodes_mgmt ≡ some k → Moves s
  unfolding InOrder
  of_mgmt k e = go (in_call inodes_mgmt k e) (holder inodes_mgmt k e)
    where
      go : Waits s k → holds (held (s.pc k)) inodes_mgmt ≡ true → Moves s
      go (ready m) h = m
      go (waits children k' e' o) h = cc (ap (λ l. l.holds_inodes_mgmt) o, h)
      go (waits inodes_mgmt k' e' o) h = cc (o.0, h)
      go (waits sb_lock k' e' o) h = of_sb k' e'

  of_children : (k : ℕ) → s.owner children ≡ some k → Moves s
  unfolding InOrder
  of_children k e = go (in_call children k e) (holder children k e)
    where
      go : Waits s k → holds (held (s.pc k)) children ≡ true → Moves s
      go (ready m) h = m
      go (waits children k' e' o) h = cc (ap (λ l. l.holds_children) o, h)
      go (waits inodes_mgmt k' e' o) h = of_mgmt k' e'
      go (waits sb_lock k' e' o) h = of_sb k' e'

  -- A thread is outside of every call, or some thread moves.
  pub idle_or_Moves : (j : ℕ) → (s.pc j ≡ idle) ⊎ Moves s
  idle_or_Moves j = elim (Waits-or-idle s j) [ inl free ↦ inl free | inr w ↦ inr (go w) ]
    where
      go : Waits s j → Moves s
      go (ready m) = m
      go (waits children k e o) = of_children k e
      go (waits inodes_mgmt k e o) = of_mgmt k e
      go (waits sb_lock k e o) = of_sb k e
