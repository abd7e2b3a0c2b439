-- ===== src/Rcu/Owed.antt =====
-- RCU/simple.c: who frees what is allocated.
use lkm.Prelude.{
  put, ℕ, ◌≡◌, ◌≢◌, refl, sym, subst, ◌∙◌, ◌⊎◌, inl, inr, Bool, true, false, List, [], ◌∷◌, arith,
}
use lkm.Rcu.{
  Reader, outside, inside, printed, holding, Updater, idle, prepared, assigned, State, in_section,
  Ripe, here, there, release, Step, rcu_read_lock, rcu_dereference, pr_info, rcu_read_unlock,
  prepare, rcu_assign_pointer, call_rcu, rcu_reclaimer, Reachable, at_start, after,
}
use lkm.Rcu.Threads.{Safe, at_prepared}
use lkm.Rcu.Safety.{Reachable-Safe}

-- A structure waits for its callback.
pub data Pending (m : ℕ) : List (ℕ × Bool) → Type 0 where
  first : {b : Bool} {l : List (ℕ × Bool)} → Pending m ((m, b) ∷ l)
  later : {x : ℕ × Bool} {l : List (ℕ × Bool)} → Pending m l → Pending m (x ∷ l)

-- No callback waits for a critical section.
unfoldable pub AllRipe : List (ℕ × Bool) → Type 0
AllRipe [] = Unit {0}
AllRipe (x ∷ l) = (x.1 ≡ false) × AllRipe l

-- Who will free an allocated structure that is not published.
unfoldable pub Owed : Updater → ℕ → ℕ → List (ℕ × Bool) → Type 0
Owed idle g m l = (m ≡ g) ⊎ Pending m l
Owed (prepared old new) g m l = (m ≡ g) ⊎ ((m ≡ new) ⊎ Pending m l)
Owed (assigned old) g m l = (m ≡ g) ⊎ ((m ≡ old) ⊎ Pending m l)

Pending-release : (m : ℕ) (l : List (ℕ × Bool)) → Pending m l → Pending m (release l)
unfolding release
Pending-release m _ first = first
Pending-release m (x ∷ l) (later h) = later (Pending-release m l h)

AllRipe-release : (l : List (ℕ × Bool)) → AllRipe (release l)
unfolding AllRipe release
AllRipe-release [] = tt
AllRipe-release (x ∷ l) = (refl, AllRipe-release l)

Ripe-Pending : (m p : ℕ) (l l' : List (ℕ × Bool)) → Ripe l p l' → m ≢ p → Pending m l → Pending m l'
Ripe-Pending m p _ l' here d first = absurd (d refl)
Ripe-Pending m p _ l' here d (later h) = h
Ripe-Pending m p (x ∷ l) _ (there r) d first = first
Ripe-Pending m p (x ∷ l) _ (there r) d (later h) = later (Ripe-Pending m p l _ r d h)

Ripe-AllRipe : (p : ℕ) (l l' : List (ℕ × Bool)) → Ripe l p l' → AllRipe l → AllRipe l'
unfolding AllRipe
Ripe-AllRipe p _ l' here (e, h) = h
Ripe-AllRipe p (x ∷ l) _ (there r) (e, h) = (e, Ripe-AllRipe p l _ r h)

Owed-release : (u : Updater) (g m : ℕ) (l : List (ℕ × Bool)) → Owed u g m l → Owed u g m (release l)
unfolding Owed
Owed-release idle g m l (inl e) = inl e
Owed-release idle g m l (inr h) = inr (Pending-release m l h)
Owed-release (prepared old new) g m l (inl e) = inl e
Owed-release (prepared old new) g m l (inr (inl e)) = inr (inl e)
Owed-release (prepared old new) g m l (inr (inr h)) = inr (inr (Pending-release m l h))
Owed-release (assigned old) g m l (inl e) = inl e
Owed-release (assigned old) g m l (inr (inl e)) = inr (inl e)
Owed-release (assigned old) g m l (inr (inr h)) = inr (inr (Pending-release m l h))

Owed-Ripe :
    (u : Updater) (g m p : ℕ) (l l' : List (ℕ × Bool))
    → Ripe l p l'
    → m ≢ p
    → Owed u g m l
    → Owed u g m l'
unfolding Owed
Owed-Ripe idle g m p l l' r d (inl e) = inl e
Owed-Ripe idle g m p l l' r d (inr h) = inr (Ripe-Pending m p l l' r d h)
Owed-Ripe (prepared old new) g m p l l' r d (inl e) = inl e
Owed-Ripe (prepared old new) g m p l l' r d (inr (inl e)) = inr (inl e)
Owed-Ripe (prepared old new) g m p l l' r d (inr (inr h)) = inr (inr (Ripe-Pending m p l l' r d h))
Owed-Ripe (assigned old) g m p l l' r d (inl e) = inl e
Owed-Ripe (assigned old) g m p l l' r d (inr (inl e)) = inr (inl e)
Owed-Ripe (assigned old) g m p l l' r d (inr (inr h)) = inr (inr (Ripe-Pending m p l l' r d h))

unfoldable pub RipeOutside : Reader → List (ℕ × Bool) → Type 0
RipeOutside outside l = AllRipe l
RipeOutside inside l = Unit {0}
RipeOutside printed l = Unit {0}
RipeOutside (holding p) l = Unit {0}

abbrev pub Kept : State → Type 0
Kept s =
    RipeOutside s.reader s.waiting
    × ((m : ℕ) → s.live m ≡ true → Owed s.updater s.g_pfoo m s.waiting)

Ripe-call :
    (r : Reader) (old : ℕ) (l : List (ℕ × Bool))
    → RipeOutside r l
    → RipeOutside r ((old, in_section r) ∷ l)
unfolding RipeOutside AllRipe
Ripe-call outside old l h = (refl, h)
Ripe-call inside old l h = tt
Ripe-call printed old l h = tt
Ripe-call (holding p) old l h = tt

Ripe-reclaim :
    (r : Reader) (p : ℕ) (l l' : List (ℕ × Bool)) → Ripe l p l' → RipeOutside r l → RipeOutside r l'
unfolding RipeOutside
Ripe-reclaim outside p l l' r h = Ripe-AllRipe p l l' r h
Ripe-reclaim inside p l l' r h = tt
Ripe-reclaim printed p l l' r h = tt
Ripe-reclaim (holding q) p l l' r h = tt

Owed-assign :
    (g old new m : ℕ) (l : List (ℕ × Bool))
    → old ≡ g
    → Owed (prepared old new) g m l
    → Owed (assigned old) new m l
unfolding Owed
Owed-assign g old new m l e (inl q) = inr (inl (q ∙ sym e))
Owed-assign g old new m l e (inr (inl q)) = inl q
Owed-assign g old new m l e (inr (inr h)) = inr (inr h)

Owed-call :
    (g old m : ℕ) (b : Bool) (l : List (ℕ × Bool))
    → Owed (assigned old) g m l
    → Owed idle g m ((old, b) ∷ l)
unfolding Owed
Owed-call g old m b l (inl q) = inl q
Owed-call g old m b l (inr (inl q)) = inr (subst (λ o. Pending m ((o, b) ∷ l)) q first)
Owed-call g old m b l (inr (inr h)) = inr (later h)

Owed-prepare :
    (f : ℕ → Bool) (g n m : ℕ) (l : List (ℕ × Bool))
    → ((m : ℕ) → f m ≡ true → Owed idle g m l)
    → put f n true m ≡ true
    → Owed (prepared g n) g m l
unfolding Owed
Owed-prepare f g n m l h e = elim (new_or_old f n m e) [
  | inr q ↦ inr (inl q)
  | inl live ↦ elim (h m live) [ inl q ↦ inl q | inr w ↦ inr (inr w) ]
]
  where
    new_or_old : (f : ℕ → Bool) (n m : ℕ) → put f n true m ≡ true → (f m ≡ true) ⊎ (m ≡ n)
    new_or_old f n m e = ground arith

still_live : (f : ℕ → Bool) (p m : ℕ) → put f p false m ≡ true → (m ≢ p) × (f m ≡ true)
still_live f p m h = (λ e. ground arith, ground arith)

Step-Kept : (s t : State) → Safe s → Step s t → Kept s → Kept t
unfolding Safe
Step-Kept s _ safe (rcu_read_lock c e k) (r, o) = (unfold RipeOutside in tt, o)
Step-Kept s _ safe (rcu_dereference e) (r, o) = (unfold RipeOutside in tt, o)
Step-Kept s _ safe (pr_info p e) (r, o) = (unfold RipeOutside in tt, o)
Step-Kept s _ safe (rcu_read_unlock e) (r, o) = (
  unfold RipeOutside in AllRipe-release s.waiting,
  λ m l. Owed-release s.updater s.g_pfoo m s.waiting (o m l),
)
Step-Kept s _ safe (prepare c e k) (r, o) = (
  r,
  λ m l.
      Owed-prepare s.live s.g_pfoo s.allocated m s.waiting
        (λ m l. subst (λ u. Owed u s.g_pfoo m s.waiting) e (o m l)) l,
)
Step-Kept s _ (a, b, u, w, h) (rcu_assign_pointer old new e) (r, o) =
    let (q, lt, small, l, below) = at_prepared old new s.g_pfoo s.allocated s.live s.waiting e u in
    (
      r,
      λ m l.
          Owed-assign s.g_pfoo old new m s.waiting q
            (subst (λ u. Owed u s.g_pfoo m s.waiting) e (o m l)),
    )
Step-Kept s _ safe (call_rcu old e) (r, o) = (
  Ripe-call s.reader old s.waiting r,
  λ m l.
      Owed-call s.g_pfoo old m (in_section s.reader) s.waiting
        (subst (λ u. Owed u s.g_pfoo m s.waiting) e (o m l)),
)
Step-Kept s _ safe (rcu_reclaimer p l ripe) (r, o) = (
  Ripe-reclaim s.reader p s.waiting l ripe r,
  λ m live.
      let (d, was) = still_live s.live p m live in
      Owed-Ripe s.updater s.g_pfoo m p s.waiting l ripe d (o m was),
)

pub Reachable-Kept : (s : State) → Reachable s → Kept s
unfolding RipeOutside AllRipe Owed
Reachable-Kept _ at_start = (tt, λ m l. inl (ground arith))
Reachable-Kept t (after {s} r step) = Step-Kept s t (Reachable-Safe s r) step (Reachable-Kept s r)
