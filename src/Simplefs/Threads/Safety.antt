-- ===== src/Simplefs/Threads/Safety.antt =====
-- simplefs/simple.c: what holds of the inode store in every order of the threads' steps.
use lkm.Prelude.{
  ℕ, ◌≡◌, ◌≢◌, sym, ◌∙◌, subst, ◌⊎◌, true, some, inl, inr, ◌==◌, put, Bool-cases, arith,
}
use lkm.Simplefs.State.{Lock, children, holds}
use lkm.Simplefs.Threads.{
  Pc, enter, fill, Shared, Act, acquire, release, compute, act, State, Go, acquires, releases,
  computes, Step, goes, begins_creation, begins_write, Reachable, at_start, after,
}
use lkm.Simplefs.Threads.Mutexes.{held}
use lkm.Simplefs.Threads.Owners.{Owned, owned_by, Go-Owned, Step-Owned, Reachable-Owned}
use lkm.Simplefs.Threads.Store.{
  view, Good, Agrees, Listed, Pending, Target, Place, Pending-outside, Target-kept,
}
use lkm.Simplefs.Threads.Keeps.{Kept}
use lkm.Simplefs.Threads.Sections.{After, act-After}

record Inv (s : State) : Type 0 where
  owned : Owned s
  good : Good (view s.mem.fs)
  agrees : Agrees s.mem
  places : (i : ℕ) → Place s.mem (s.pc i)

some_inj : {i j : ℕ} → some i ≡ some j → i ≡ j
some_inj e = cc e

-- Two threads do not hold the same mutex.
exclusive :
    (s : State) (i j : ℕ) (l : Lock)
    → Owned s
    → holds (held (s.pc i)) l ≡ true
    → holds (held (s.pc j)) l ≡ true
    → i ≡ j
unfolding Owned
exclusive s i j l inv h h' = some_inj (
    sym (owned_by i (s.owner l) (holds (held (s.pc i)) l) h (inv i l))
    ∙ owned_by j (s.owner l) (holds (held (s.pc j)) l) h' (inv j l))

-- The threads' places, with one of them at a new one.
moved :
    (m m' : Shared) (pc : ℕ → Pc) (j : ℕ) (p : Pc)
    → Place m' p
    → ((i : ℕ) → i ≢ j → Place m (pc i) → Place m' (pc i))
    → ((i : ℕ) → Place m (pc i))
    → (i : ℕ) → Place m' (put pc j p i)
moved m m' pc j p new kept h i = elim (Bool-cases (i == j)) [
  | inl self ↦ rw self new
  | inr other ↦ rw other (kept i (λ e. ground arith) (h i))
]

module _ (s : State) (j : ℕ) (inv : Inv s) where
  After-act : (a : Act) → act s.mem (s.pc j) ≡ a → After s.mem (s.pc j) a
  After-act a e =
      subst (After s.mem (s.pc j)) e (act-After s.mem inv.good inv.agrees (s.pc j) (inv.places j))

  -- What the others rely on is not what this thread changes.
  unmoved :
      (m' : Shared) (i : ℕ)
      → Kept s.mem m' (s.pc j)
      → i ≢ j
      → Place s.mem (s.pc i)
      → Place m' (s.pc i)
  unmoved m' i kept apart (u, t) =
      (go kept.others, Target-kept (Listed s.mem) (Listed m') (s.pc i) kept.listed t)
    where
      go :
          (view m'.fs ≡ view s.mem.fs) ⊎ ((held (s.pc j)).holds_children ≡ true)
          → Pending (view m'.fs) (s.pc i)
      go (inl e) = subst (λ v. Pending v (s.pc i)) (sym e) u
      go (inr under) = elim (Bool-cases ((held (s.pc i)).holds_children)) [
        | inl both ↦ absurd (apart (exclusive s i j children inv.owned both under))
        | inr outside ↦ Pending-outside (view s.mem.fs) (view m'.fs) (s.pc i) outside u
      ]

Go-Inv : {s : State} (j : ℕ) {t : State} → Go s j t → Inv s → Inv t
unfolding After
Go-Inv {s} j (acquires l p e free) inv = record {
  owned = Go-Owned j (acquires l p e free) inv.owned;
  good = inv.good;
  agrees = inv.agrees;
  places = moved s.mem s.mem s.pc j p (After-act s j inv (acquire l p) e) (λ i ne h. h) inv.places;
}
Go-Inv {s} j (releases l p e) inv = record {
  owned = Go-Owned j (releases l p e) inv.owned;
  good = inv.good;
  agrees = inv.agrees;
  places = moved s.mem s.mem s.pc j p (After-act s j inv (release l p) e) (λ i ne h. h) inv.places;
}
Go-Inv {s} j (computes m p e) inv =
    let (kept, new) = After-act s j inv (compute m p) e in
    record {
      owned = Go-Owned j (computes m p e) inv.owned;
      good = kept.good;
      agrees = kept.agrees;
      places = moved s.mem m s.pc j p new (λ i ne h. unmoved s j inv m i kept ne h) inv.places;
    }

Step-Inv : {s t : State} → Step s t → Inv s → Inv t
unfolding Pending Target
Step-Inv (goes j g) inv = Go-Inv j g inv
Step-Inv {s} (begins_creation j c e known small) inv = record {
  owned = Step-Owned (begins_creation j c e known small) inv.owned;
  good = inv.good;
  agrees = inv.agrees;
  places = moved s.mem s.mem s.pc j (enter c) (tt, (known, small)) (λ i ne h. h) inv.places;
}
Step-Inv {s} (begins_write j w e known) inv = record {
  owned = Step-Owned (begins_write j w e known) inv.owned;
  good = inv.good;
  agrees = inv.agrees;
  places = moved s.mem s.mem s.pc j (fill w) (tt, known) (λ i ne h. h) inv.places;
}

Reachable-Inv : {m : Shared} {s : State} → Reachable m s → Good (view m.fs) → Agrees m → Inv s
unfolding Pending Target
Reachable-Inv at_start good agrees = record {
  owned = Reachable-Owned at_start;
  good = good;
  agrees = agrees;
  places = λ i. (tt, tt);
}
Reachable-Inv (after r st) good agrees = Step-Inv st (Reachable-Inv r good agrees)

-- Whatever the creations and writes that any number of threads have begun, with no signal and no failure, and whatever the order
-- of their steps, all of this holds in every state when it held before the first: no two inodes of the store have
-- the same number or the same block, the blocks are marked and the next number is free; and each inode
-- in memory has the number and the block of the one in the store.
pub Reachable-Good :
    {m : Shared} {s : State}
    → Reachable m s
    → Good (view m.fs)
    → Agrees m
    → Good (view s.mem.fs) × Agrees s.mem
Reachable-Good r good agrees = let inv = Reachable-Inv r good agrees in (inv.good, inv.agrees)
