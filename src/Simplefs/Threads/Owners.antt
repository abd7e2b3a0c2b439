-- ===== src/Simplefs/Threads/Owners.antt =====
-- simplefs/simple.c: the mutexes have the owners that the threads' places tell.
use lkm.Prelude.{
  ℕ, ◌≡◌, ◌≢◌, refl, sym, ap, ◌∙◌, subst, ◌⊎◌, Bool, true, false, Option, none, some, ◌==◌, ==→eq,
  put, inl, inr, Bool-cases, arith,
}
use lkm.Simplefs.State.{Lock, children, inodes_mgmt, sb_lock, Locks, holds, set_lock, none_held}
use lkm.Simplefs.Threads.{
  Pc, enter, fill, Shared, State, same_lock, set_owner, Go, acquires, releases, computes, Step,
  goes, begins_creation, begins_write, Reachable, at_start, after,
}
use lkm.Simplefs.Threads.Mutexes.{held, Fair, act-Fair}

-- A thread owns a mutex just when it holds it where it is.
abbrev pub Owns : ℕ → Option ℕ → Bool → Type 0
Owns i o true = o ≡ some i
Owns i o false = o ≢ some i

unfoldable pub Owned : State → Type 0
Owned s = (i : ℕ) (l : Lock) → Owns i (s.owner l) (holds (held (s.pc i)) l)

holds-set_lock :
    (h : Locks) (l l' : Lock) (b : Bool)
    → holds (set_lock h l b) l' ≡ (elim (same_lock l l') [ true ↦ b | false ↦ holds h l' ])
holds-set_lock h children children b = refl
holds-set_lock h children inodes_mgmt b = refl
holds-set_lock h children sb_lock b = refl
holds-set_lock h inodes_mgmt children b = refl
holds-set_lock h inodes_mgmt inodes_mgmt b = refl
holds-set_lock h inodes_mgmt sb_lock b = refl
holds-set_lock h sb_lock children b = refl
holds-set_lock h sb_lock inodes_mgmt b = refl
holds-set_lock h sb_lock sb_lock b = refl

same_lock-eq : (l l' : Lock) → same_lock l l' ≡ true → l ≡ l'
same_lock-eq children children e = refl
same_lock-eq children inodes_mgmt e = cc
same_lock-eq children sb_lock e = cc
same_lock-eq inodes_mgmt children e = cc
same_lock-eq inodes_mgmt inodes_mgmt e = refl
same_lock-eq inodes_mgmt sb_lock e = cc
same_lock-eq sb_lock children e = cc
same_lock-eq sb_lock inodes_mgmt e = cc
same_lock-eq sb_lock sb_lock e = refl

some_inj : {i j : ℕ} → some i ≡ some j → i ≡ j
some_inj e = cc e

-- The mutex has no owner, or this one.
abbrev FreeOrOf : ℕ → Option ℕ → Type 0
FreeOrOf j o = (o ≡ none) ⊎ (o ≡ some j)

Owns-other :
    (i j : ℕ) (o x : Option ℕ) (b : Bool)
    → i ≢ j
    → FreeOrOf j o
    → FreeOrOf j x
    → Owns i o b
    → Owns i x b
Owns-other i j o x true d (inl e) f w = cc (e, w)
Owns-other i j o x true d (inr e) f w = absurd (d (some_inj (sym w ∙ e)))
Owns-other i j o x false d c (inl f) w = λ e. cc (f, e)
Owns-other i j o x false d c (inr f) w = λ e. d (some_inj (sym e ∙ f))

module _ (s : State) (j : ℕ) (p : Pc) (inv : Owned s) where
  -- One mutex goes to the thread or comes from it.
  Owned-move :
      (l : Lock) (x : Option ℕ) (b : Bool)
      → FreeOrOf j (s.owner l)
      → FreeOrOf j x
      → Owns j x b
      → held p ≡ set_lock (held (s.pc j)) l b
      → Owned (record s { owner = set_owner s.owner l x; pc = put s.pc j p })
  unfolding Owned
  Owned-move l x b before now own e i l' = elim (Bool-cases (i == j)) [
    | inl self ↦
        rw (self, e, holds-set_lock (held (s.pc j)) l l' b)
          (elim (Bool-cases (same_lock l l')) [
            | inl same ↦ rw (same, ==→eq i j self) own
            | inr other ↦ rw (other, ==→eq i j self) (inv j l')
          ])
    | inr apart ↦ rw apart (elim (Bool-cases (same_lock l l')) [
      | inl same ↦ rw same (
          Owns-other i j (s.owner l) x (holds (held (s.pc i)) l') (λ q. ground arith) before now
            (subst (λ k. Owns i (s.owner l) (holds (held (s.pc i)) k)) (same_lock-eq l l' same)
              (inv i l)))
      | inr other ↦ rw other (inv i l')
    ])
  ]

  Owned-stay :
      (m : Shared) → held p ≡ held (s.pc j) → Owned (record s { mem = m; pc = put s.pc j p })
  unfolding Owned
  Owned-stay m e i l = elim (Bool-cases (i == j)) [
    | inl self ↦ rw (self, e, ==→eq i j self) (inv j l)
    | inr apart ↦ rw apart (inv i l)
  ]

-- What a thread holds that is to be released is its own.
pub owned_by : (i : ℕ) (o : Option ℕ) (b : Bool) → b ≡ true → Owns i o b → o ≡ some i
owned_by i o true e w = w
owned_by i o false e w = cc e

pub Go-Owned : {s : State} (j : ℕ) {t : State} → Go s j t → Owned s → Owned t
unfolding Fair Owned
Go-Owned {s} j (acquires l p e free) inv =
    let f = subst (Fair (s.pc j)) e (act-Fair s.mem (s.pc j)) in
    Owned-move s j p inv l (some j) true (inl free) (inr refl) refl f.1
Go-Owned {s} j (releases l p e) inv =
    let f = subst (Fair (s.pc j)) e (act-Fair s.mem (s.pc j)) in
    Owned-move s j p inv l none false
      (inr (owned_by j (s.owner l) (holds (held (s.pc j)) l) f.0 (inv j l))) (inl refl) (λ e. cc e)
      f.1
Go-Owned {s} j (computes m p e) inv =
    let f = subst (Fair (s.pc j)) e (act-Fair s.mem (s.pc j)) in Owned-stay s j p inv m f.0

pub Step-Owned : {s t : State} → Step s t → Owned s → Owned t
unfolding held
Step-Owned (goes j g) inv = Go-Owned j g inv
Step-Owned {s} (begins_creation j c e known small) inv =
    Owned-stay s j (enter c) inv s.mem (sym (ap held e))
Step-Owned {s} (begins_write j w e known) inv = Owned-stay s j (fill w) inv s.mem (sym (ap held e))

pub Reachable-Owned : {m : Shared} {s : State} → Reachable m s → Owned s
unfolding Owned held
Reachable-Owned at_start = λ i l. by_lock i l
  where
    by_lock : (i : ℕ) (l : Lock) → Owns i none (holds none_held l)
    by_lock i children = λ e. cc e
    by_lock i inodes_mgmt = λ e. cc e
    by_lock i sb_lock = λ e. cc e
Reachable-Owned (after r st) = Step-Owned st (Reachable-Owned r)
